-- ===== src/Arch/Boot/Enter.antt =====
-- The stages that `enter` of kernel/src/arch/x86_64/boot.rs goes through, on every branch.
use aetheros_rust_project.Prelude.{
  ℕ, ◌≡◌, refl, Bool, true, false, List, [], ◌∷◌, ◌++◌, Option, none, some,
}
use aetheros_rust_project.Prelude.Text.{Text, codes}
use aetheros_rust_project.Arch.Boot.{
  BootStage, entry, revision_accepted, revision_rejected, collecting_boot_info, hhdm_ready,
  memory_map_ready, regions_mapped, framebuffer_ready, boot_info_ready, kernel_init, as_u8, from_u8,
  stage_label, MapEntry, Framebuffer, Limine, Boot, Outcome, halts, panics, runs, boot_info_of,
  current_boot_stage_label, mark_boot_stage, log_boot_stage, collect_regions, collect_memory_map,
  collect_hhdm, collect_boot_info, hand_over, log_boot_summary, enter,
}

-- The byte that is stored names the stage.
pub from_u8-as_u8 : (stage : BootStage) → from_u8 (as_u8 stage) ≡ stage
unfolding from_u8 as_u8
from_u8-as_u8 entry = refl
from_u8-as_u8 revision_accepted = refl
from_u8-as_u8 revision_rejected = refl
from_u8-as_u8 collecting_boot_info = refl
from_u8-as_u8 hhdm_ready = refl
from_u8-as_u8 memory_map_ready = refl
from_u8-as_u8 regions_mapped = refl
from_u8-as_u8 framebuffer_ready = refl
from_u8-as_u8 boot_info_ready = refl
from_u8-as_u8 kernel_init = refl

-- How far the boot stage comes with the bootloader's answers, and how it ends.
pub record Trip : Type 0 where
  pub outcome : Outcome
  pub before : List BootStage
  pub last : BootStage

abbrev pub trip : Bool → Option ℕ → Option (List MapEntry) → Option (List Framebuffer) → Trip
trip false hhdm memory_map fbs = record {
  outcome = halts;
  before = entry ∷ [];
  last = revision_rejected;
}
trip true none memory_map fbs = record {
  outcome = panics (codes "Limine did not provide an HHDM response");
  before = entry ∷ revision_accepted ∷ [];
  last = collecting_boot_info;
}
trip true (some hhdm) none fbs = record {
  outcome = panics (codes "Limine did not provide a memory map response");
  before = entry ∷ revision_accepted ∷ collecting_boot_info ∷ [];
  last = hhdm_ready;
}
trip true (some hhdm) (some entries) fbs = record {
  outcome = runs (boot_info_of hhdm entries fbs);
  before =
      entry ∷ revision_accepted ∷ collecting_boot_info ∷ hhdm_ready ∷ memory_map_ready
      ∷ regions_mapped ∷ framebuffer_ready ∷ boot_info_ready ∷ [];
  last = kernel_init;
}

abbrev pub trip_of : Limine → Trip
trip_of l = trip l.is_supported l.hhdm_offset l.memory_map l.framebuffers

-- The boot stage went through these stages, and the label that a panic would print names the last.
pub record Reached (b : Boot) (before : List BootStage) (last : BootStage) : Type 0 where
  pub history : b.history ≡ before ++ last ∷ []
  pub label : current_boot_stage_label b ≡ stage_label last

abbrev pub Ends : Trip → Outcome × Boot → Type 0
Ends t r = (r.0 ≡ t.outcome) × Reached r.1 t.before t.last

abbrev pub fresh : Boot
fresh = record { boot_stage = 0; history = []; serial = [] }

module _ (show_nat show_hex : ℕ → Text) where
  enter_branches :
      (ok : Bool) (hhdm : Option ℕ) (memory_map : Option (List MapEntry))
      (fbs : Option (List Framebuffer))
      → Ends (trip ok hhdm memory_map fbs) (
          enter show_nat show_hex
            (record {
              is_supported = ok;
              hhdm_offset = hhdm;
              memory_map = memory_map;
              framebuffers = fbs;
            })
            fresh)
  unfolding enter collect_boot_info collect_hhdm collect_memory_map collect_regions hand_over
      log_boot_summary log_boot_stage mark_boot_stage as_u8 current_boot_stage_label from_u8
  enter_branches false hhdm memory_map fbs = (refl, record { history = refl; label = refl })
  enter_branches true none memory_map fbs = (refl, record { history = refl; label = refl })
  enter_branches true (some offset) none fbs = (refl, record { history = refl; label = refl })
  enter_branches true (some offset) (some entries) fbs =
      (refl, record { history = refl; label = refl })

  -- From the start: how `enter` ends, which stages it goes through, and which of them a panic would
  -- name, for every combination of the bootloader's answers.
  pub enter-Ends : (l : Limine) → Ends (trip_of l) (enter show_nat show_hex l fresh)
  enter-Ends l = enter_branches l.is_supported l.hhdm_offset l.memory_map l.framebuffers
