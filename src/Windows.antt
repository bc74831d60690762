-- ===== src/Windows.antt =====
-- The parts that only a Windows build compiles: the command line of a new process
-- (src/platform/subprocess_win32.cpp), the process object there, and the registry of mapped views
-- (src/core/shm_win32.cpp).
pub mod CommandLine
pub mod Splitting
pub mod Quoting
pub mod Program
pub mod Names
pub mod Safe
pub mod Views
mod Examples
