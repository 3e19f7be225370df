-- ===== src/Lib.antt =====
-- AetherOS, an academic x86_64 kernel in Rust: its allocators, scheduler, file system, keyboard
-- driver, boot screen and shell, as functions on explicit state.
--
-- The boot stage fills a `BootInfo` (crates/aether-bootinfo), from which the frame allocator takes
-- the usable memory and the boot screen the framebuffer. The heap serves the allocations of the
-- kernel. A timer interrupt makes the scheduler take a turn. A keyboard interrupt decodes a byte into
-- an event for the shell, whose commands read and change the file system.
--
-- Prelude: lists over the native numbers, Boolean tests, machine words, bit masks, texts as UTF-8
--   bytes (a `str` is a text that `Str.is_str` accepts).
-- BootInfo: crates/aether-bootinfo/src/lib.rs.
-- Memory/FrameAllocator: kernel/src/memory/frame_allocator.rs. `Statics` are the module's statics,
--   `scan_region` is a round of the loop in `initialize`, `attempt` one of the loop in
--   `allocate_frame`. That loop runs on fuel, one round more than there are ranges: a round that
--   tries again has moved on to the next range. `Refine` states it against the list of the frames
--   that remain, `Safety` and `Apart` against the memory map.
-- Memory/Heap: kernel/src/memory/heap.rs. `alloc` is the call of one caller; in `Threads` any
--   number of callers interleave, one step for each access of the atomic `next`.
-- Memory/AddressSpace: kernel/src/memory/address_space.rs.
-- Task/Process: kernel/src/task/process.rs, context.rs and image.rs.
-- Task/Scheduler: kernel/src/task/scheduler.rs. `Turn` has the invariant of the task table,
--   `Rotation` the order in which the tasks run.
-- Fs/Initramfs and Fs/Vfs: kernel/src/fs/initramfs.rs and vfs.rs. An operation returns the new
--   overlay or the error. `read` returns a reference, a slot and a length, whose bytes are looked up
--   when it is used. `Overlay` has the abstract map from paths to contents, `Laws` what the
--   operations do to it.
-- Drivers/Keyboard: kernel/src/drivers/keyboard.rs, from the byte of port 0x60 to the event.
-- Arch/Vga: kernel/src/arch/x86_64/vga.rs. A screen gives the word at each offset from the
--   framebuffer's address; the loops run on the numbers of rows and columns that are left.
-- Shell: kernel/src/shell.rs, with `redraw_boot_shell_surface` of kernel/src/drivers/framebuffer.rs and
--   the device of kernel/src/drivers/storage.rs. An event takes the shell and the `Kernel`, the statics
--   that its commands read or change, to new ones. `Lines` has the editor against lists of
--   characters, `Commands` what a command may change, `Stored` what the line and the overlay hold.
--
-- Arch/Boot, Arch/Serial, Arch/Pit, Arch/Interrupts, Arch/Gdt and Arch/Idt: boot.rs, serial.rs, pit.rs,
--   interrupts.rs, gdt.rs and idt.rs of kernel/src/arch/x86_64. Writes to ports are lists; what a
--   port gives is an argument. The x86_64 crate's descriptor tables are a parameter, and its
--   interrupt table is a list of 256 entries.
-- Kernel: the interrupt handlers with kernel/src/drivers/timer.rs, the order of
--   kernel/src/core/init.rs (`Init`) and kernel/src/syscall (`Syscall`), on one state of all statics.
--   `Among` has the interrupts that arrive between the calls of init.rs, `Invariant` what every
--   interrupt keeps, `Traps` the exception handlers and kernel/src/core/panic.rs. `Locks` has the
--   spin locks that the timer's handler takes, and the code that it interrupts.
-- Xtask: tools/xtask/src/main.rs. `Keys` has the typing of commands, `Wait` the waits, whose loops run
--   on five rounds for each second of the timeout and one more, `Stage` the boot tree and QEMU,
--   `Check` the two checks of QEMU and the choice of a command.
--
-- A u64, usize or u32 is a natural number; a sum that the code does not check wraps (`Words`), as it
-- does in a release build. `VirtAddr` of the x86_64 crate is a parameter, and so
-- are the core library's `Display` of a number and `Debug` of a name. But for `Kernel/Locks`, a
-- mutex is taken to be held by one caller at a time. `Memory/FrameAllocator/Threads` interleaves the atomic accesses of the
-- frame allocator's callers. A handler runs to its end before the next one starts.
--
-- Not modelled: the locks of the keyboard's handler and the shell, the processor's entry code in
-- kernel/src/main.rs, which is assembly, and what the xtask prints on the terminal.
pub mod Prelude
pub mod BootInfo
pub mod Memory
pub mod Task
pub mod Fs
pub mod Drivers
pub mod Arch
pub mod Shell
pub mod Kernel
pub mod Xtask
