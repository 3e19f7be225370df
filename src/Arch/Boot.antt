-- ===== src/Arch/Boot.antt =====
-- kernel/src/arch/x86_64/boot.rs: from the bootloader's answers to the kernel's `BootInfo`.
-- `show_nat` and `show_hex` stand for the core library's `Display` and `{:#x}` of a number.
pub mod Collect
pub mod Enter
mod Tests
use mathlib.Core.Option
use aetheros_rust_project.Prelude.{
  ℕ, suc, ◌%◌, min, Bool, List, [], ◌∷◌, ◌++◌, Option, none, some, length, set, take, leb, ◌==◌,
  ◌&&◌, if◌then◌else◌,
}
use aetheros_rust_project.Prelude.Text.{Text, codes}
use aetheros_rust_project.Prelude.Words.{u32_mod}
use aetheros_rust_project.BootInfo.{
  BootInfo, FramebufferInfo, MemoryRegion, MemoryRegionKind, usable, reserved, reclaimable, kernel,
  framebuffer, unknown, max_memory_regions, no_regions, new_region, new_framebuffer, new_boot_info,
}

pub data BootStage : Type 0 where
  entry revision_accepted revision_rejected collecting_boot_info hhdm_ready : BootStage
  memory_map_ready regions_mapped framebuffer_ready boot_info_ready kernel_init : BootStage

-- `stage as u8`
unfoldable pub as_u8 : BootStage → ℕ
as_u8 entry = 0
as_u8 revision_accepted = 1
as_u8 revision_rejected = 2
as_u8 collecting_boot_info = 3
as_u8 hhdm_ready = 4
as_u8 memory_map_ready = 5
as_u8 regions_mapped = 6
as_u8 framebuffer_ready = 7
as_u8 boot_info_ready = 8
as_u8 kernel_init = 9

-- `BootStage::from_u8`
unfoldable pub from_u8 : ℕ → BootStage
from_u8 value =
    if value == 1
    then revision_accepted
    else if value == 2
    then revision_rejected
    else if value == 3
    then collecting_boot_info
    else if value == 4
    then hhdm_ready
    else if value == 5
    then memory_map_ready
    else if value == 6
    then regions_mapped
    else if value == 7
    then framebuffer_ready
    else if value == 8
    then boot_info_ready
    else if value == 9
    then kernel_init
    else entry

-- `BootStage::label`
unfoldable pub stage_label : BootStage → Text
stage_label entry = codes "entry"
stage_label revision_accepted = codes "revision-accepted"
stage_label revision_rejected = codes "revision-rejected"
stage_label collecting_boot_info = codes "collecting-boot-info"
stage_label hhdm_ready = codes "hhdm-ready"
stage_label memory_map_ready = codes "memory-map-ready"
stage_label regions_mapped = codes "regions-mapped"
stage_label framebuffer_ready = codes "framebuffer-ready"
stage_label boot_info_ready = codes "boot-info-ready"
stage_label kernel_init = codes "kernel-init"

unfoldable pub classify_memory_region : ℕ → MemoryRegionKind
classify_memory_region entry_type =
    if entry_type == 0
    then usable
    else if entry_type == 5
    then reclaimable
    else if entry_type == 6
    then kernel
    else if entry_type == 7
    then framebuffer
    else if leb 1 entry_type && leb entry_type 4
    then reserved
    else unknown

-- What the code reads of a memory map entry and of a framebuffer of the `limine` crate. The sizes
-- of a framebuffer are u64.
pub record MapEntry : Type 0 where
  pub base : ℕ
  pub length : ℕ
  pub type_ : ℕ

pub record Framebuffer : Type 0 where
  pub address : ℕ
  pub width : ℕ
  pub height : ℕ
  pub pitch : ℕ
  pub bpp : ℕ

-- The bootloader's answers to the requests; `none` is a request without a response.
pub record Limine : Type 0 where
  pub is_supported : Bool
  pub hhdm_offset : Option ℕ
  pub memory_map : Option (List MapEntry)
  pub framebuffers : Option (List Framebuffer)

-- `BOOT_STAGE`, the stages that it has had, and what was written to the serial port.
pub record Boot : Type 0 where
  pub boot_stage : ℕ
  pub history : List BootStage
  pub serial : Text

-- How the boot stage ends.
pub data Outcome : Type 0 where
  halts : Outcome
  panics : Text → Outcome
  runs : BootInfo → Outcome

unfoldable pub mark_boot_stage : BootStage → Boot → Boot
mark_boot_stage stage b = record b { boot_stage = as_u8 stage; history = b.history ++ stage ∷ [] }

unfoldable pub current_boot_stage_label : Boot → Text
current_boot_stage_label b = stage_label (from_u8 b.boot_stage)

abbrev pub write_text : Text → Boot → Boot
write_text text b = record b { serial = b.serial ++ text }

unfoldable pub log_boot_stage : Text → Boot → Boot
log_boot_stage message b =
    write_text
      (codes "AetherOS: boot ["
        ++ current_boot_stage_label b
        ++ codes "] "
        ++ message
        ++ codes "\n")
      b

-- The two calls that stand together at most of the stages.
abbrev pub reach_stage : BootStage → Text → Boot → Boot
reach_stage stage message b = log_boot_stage message (mark_boot_stage stage b)

-- The loop that fills `regions`, from `index` on.
unfoldable pub normalize_regions : ℕ → List MapEntry → List MemoryRegion → List MemoryRegion
unfolding classify_memory_region
normalize_regions index [] regions = regions
normalize_regions index (e ∷ es) regions =
    normalize_regions (suc index) es
      (set regions index (new_region e.base e.length (classify_memory_region e.type_)))

-- `framebuffers().first()`, with the casts to u32.
unfoldable pub first_framebuffer : Option (List Framebuffer) → Option FramebufferInfo
first_framebuffer none = none
first_framebuffer (some []) = none
first_framebuffer (some (f ∷ fs)) =
    some
      (new_framebuffer f.address (f.width % u32_mod) (f.height % u32_mod) (f.pitch % u32_mod) f.bpp)

unfoldable pub boot_info_of : ℕ → List MapEntry → Option (List Framebuffer) → BootInfo
boot_info_of hhdm_offset entries framebuffers =
    new_boot_info hhdm_offset (length entries) (first_framebuffer framebuffers)
      (normalize_regions 0 (take max_memory_regions entries) no_regions)

abbrev framebuffer_message : Option FramebufferInfo → Text
framebuffer_message none = codes "framebuffer unavailable"
framebuffer_message (some f) = codes "framebuffer response collected"

abbrev yes_or_no : Option FramebufferInfo → Text
yes_or_no none = codes "no"
yes_or_no (some f) = codes "yes"

module _ (show_nat show_hex : ℕ → Text) where
  -- `collect_boot_info` from the memory map's entries on.
  unfoldable pub collect_regions :
      ℕ → List MapEntry → Option (List Framebuffer) → Boot → Outcome × Boot
  collect_regions hhdm_offset entries framebuffers b =
      let info = boot_info_of hhdm_offset entries framebuffers in
      let b₁ =
        write_text
          (codes "AetherOS: boot ["
            ++ current_boot_stage_label b
            ++ codes "] normalizing "
            ++ show_nat (min (length entries) max_memory_regions)
            ++ codes " memory regions\n")
          b in
      let b₂ = reach_stage regions_mapped (codes "memory regions normalized") b₁ in
      (runs info, reach_stage framebuffer_ready (framebuffer_message info.framebuffer) b₂)

  unfoldable pub collect_memory_map :
      ℕ → Option (List MapEntry) → Option (List Framebuffer) → Boot → Outcome × Boot
  collect_memory_map hhdm_offset none framebuffers b =
      (panics (codes "Limine did not provide a memory map response"), b)
  collect_memory_map hhdm_offset (some entries) framebuffers b =
      collect_regions hhdm_offset entries framebuffers
        (reach_stage memory_map_ready (codes "memory map response collected") b)

  unfoldable pub collect_hhdm :
      Option ℕ → Option (List MapEntry) → Option (List Framebuffer) → Boot → Outcome × Boot
  collect_hhdm none memory_map framebuffers b =
      (panics (codes "Limine did not provide an HHDM response"), b)
  collect_hhdm (some hhdm_offset) memory_map framebuffers b =
      collect_memory_map hhdm_offset memory_map framebuffers
        (reach_stage hhdm_ready (codes "HHDM response collected") b)

  unfoldable pub collect_boot_info : Limine → Boot → Outcome × Boot
  collect_boot_info l b =
      collect_hhdm l.hhdm_offset l.memory_map l.framebuffers
        (reach_stage collecting_boot_info (codes "collecting boot info") b)

  unfoldable pub log_boot_summary : BootInfo → Boot → Boot
  log_boot_summary info b =
      write_text
        (codes "AetherOS: boot ["
          ++ current_boot_stage_label b
          ++ codes "] hhdm="
          ++ show_hex info.hhdm_offset
          ++ codes " memmap_entries="
          ++ show_nat info.memory_map_entries
          ++ codes " region_capacity="
          ++ show_nat max_memory_regions
          ++ codes " framebuffer="
          ++ yes_or_no info.framebuffer
          ++ codes "\n")
        b

  -- `enter` behind the collection, up to the call of `crate::run`.
  unfoldable pub hand_over : Outcome → Boot → Outcome × Boot
  hand_over halts b = (halts, b)
  hand_over (panics message) b = (panics message, b)
  hand_over (runs info) b =
      let b₁ = log_boot_summary info (mark_boot_stage boot_info_ready b) in
      (runs info, reach_stage kernel_init (codes "transferring control to generic kernel init") b₁)

  -- `serial::init` is `Serial.init`.
  unfoldable pub enter : Limine → Boot → Outcome × Boot
  enter l b =
      let b₁ = reach_stage entry (codes "kernel entry reached") b in
      let r =
        collect_boot_info l
          (reach_stage revision_accepted (codes "Limine base revision accepted") b₁) in
      if l.is_supported then hand_over r.0 r.1 else (
        halts,
        write_text (codes "AetherOS: unsupported Limine base revision\n")
            (mark_boot_stage revision_rejected b₁),
      )
