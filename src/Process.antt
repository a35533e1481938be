-- ===== src/Process.antt =====
-- Processes on Windows: src/process-win32.c, which starts them and keeps their handles, and the parsing of the
-- command line of src/startup-win32.c.
pub mod Quote
pub mod Cmdline
pub mod Children
pub mod Startup
pub mod Search
pub mod Spawn
mod Examples
