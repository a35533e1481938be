-- ===== src/Mutex.antt =====
-- The process shared mutex of src/thread-win32.c over the lock value of src/mutex-lockval.h, and the
-- cleanup behind dead threads of src/pshared-lock.c.
pub mod Lockval
pub mod Thread
pub mod System
pub mod Exclusion
pub mod Cleanup
mod Examples
