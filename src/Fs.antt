-- ===== src/Fs.antt =====
-- kernel/src/fs: the static initramfs and the writable overlay above it.
pub mod Initramfs
pub mod Vfs
