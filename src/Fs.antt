-- ===== src/Fs.antt =====
-- src/kernel/fs: the mounted file systems and the system calls on open files.
pub mod Vfs
pub mod Files
pub mod Tmpfs
pub mod Devfs
