-- ===== src/Memory.antt =====
-- kernel/src/memory: the physical frame allocator, the kernel heap and address spaces.
pub mod FrameAllocator
pub mod Heap
pub mod AddressSpace
