-- ===== src/Arch.antt =====
-- kernel/src/arch/x86_64: the boot stage, the devices, the descriptor tables and the boot screen.
pub mod Vga
pub mod Serial
pub mod Boot
pub mod Pit
pub mod Interrupts
pub mod Gdt
pub mod Idt
