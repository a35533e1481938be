-- ===== src/File.antt =====
-- src/file-posix.c and src/file.c: the operations on files that do more than call the system once.
pub mod Remove
pub mod Mkdir
mod Examples
