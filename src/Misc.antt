-- ===== src/Misc.antt =====
-- The functions of src/misc.cpp that compute something of their own.
pub mod CloseRange
pub mod CpuCount
pub mod SendFile
pub mod Syscall
pub mod EpollTimeout
pub mod Locale
pub mod RawMemchr
pub mod Startup
pub mod Stubs
mod Tests
