-- ===== src/Klibc.antt =====
-- src/klibc: the kernel's own library.
pub mod Bitmap
pub mod Vector
pub mod Strings
pub mod Map
pub mod Itoa
pub mod Queue
