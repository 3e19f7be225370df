-- ===== src/Arch/Interrupts.antt =====
-- kernel/src/arch/x86_64/interrupts.rs: the two interrupt controllers. The handlers are in `Kernel`.
pub mod Lines
mod Tests
use aetheros_rust_project.Prelude.{ℕ, ◌+◌, Bool, List, [], ◌∷◌, ◌++◌, bit_and, leb, if◌then◌else◌}
use aetheros_rust_project.Arch.Serial.{PortWrite}
use aetheros_rust_project.Arch.Pit

abbrev pub pic_1_offset : ℕ
pic_1_offset = 32

abbrev pub pic_2_offset : ℕ
pic_2_offset = pic_1_offset + 8

pub data InterruptIndex : Type 0 where
  timer keyboard : InterruptIndex

-- `InterruptIndex::as_u8`
unfoldable pub as_u8 : InterruptIndex → ℕ
as_u8 timer = pic_1_offset
as_u8 keyboard = pic_1_offset + 1

pub record ChainedPics : Type 0 where
  pub offset1 : ℕ
  pub offset2 : ℕ

-- `PICS`
abbrev pub pics : ChainedPics
pics = record { offset1 = pic_1_offset; offset2 = pic_2_offset }

-- `ChainedPics::initialize`, given the masks that it reads. `!0b11` on u8 is 0xFC.
unfoldable pub initialize : ChainedPics → (saved_mask1 saved_mask2 : ℕ) → List PortWrite
initialize p saved_mask1 saved_mask2 =
    record { port = 0x20; value = 0x11 }
    ∷ record { port = 0x21; value = p.offset1 }
    ∷ record { port = 0x21; value = 4 }
    ∷ record { port = 0x21; value = 0x01 }
    ∷ record { port = 0x21; value = bit_and saved_mask1 0xFC }
    ∷ record { port = 0xA0; value = 0x11 }
    ∷ record { port = 0xA1; value = p.offset2 }
    ∷ record { port = 0xA1; value = 2 }
    ∷ record { port = 0xA1; value = 0x01 }
    ∷ record { port = 0xA1; value = bit_and saved_mask2 0xFC }
    ∷ []

-- `ChainedPics::notify_end_of_interrupt`
unfoldable pub end_of_interrupt : ChainedPics → ℕ → List PortWrite
end_of_interrupt p interrupt_id =
    let master = record { port = 0x20; value = 0x20 } ∷ [] in
    if leb p.offset2 interrupt_id then record { port = 0xA0; value = 0x20 } ∷ master else master

-- `notify_end_of_interrupt`, given `INITIALIZED`.
unfoldable pub notify_end_of_interrupt : Bool → InterruptIndex → List PortWrite
unfolding end_of_interrupt as_u8
notify_end_of_interrupt initialized index =
    if initialized then end_of_interrupt pics (as_u8 index) else []

-- What `init` writes before it enables interrupts and sets `INITIALIZED`.
unfoldable pub init : (saved_mask1 saved_mask2 : ℕ) → List PortWrite
init saved_mask1 saved_mask2 = initialize pics saved_mask1 saved_mask2 ++ Pit.init 100
