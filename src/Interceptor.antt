-- ===== src/Interceptor.antt =====
-- Assignment1/interceptor.c, the kernel module that intercepts system calls.
pub mod State
pub mod Pids
pub mod Commands
pub mod Module
pub mod WellFormed
pub mod Unlink
pub mod Preserve
pub mod Access
pub mod Safety
pub mod Hooks
pub mod Monitoring
pub mod Exit
pub mod Load
pub mod Examples
pub mod Saved
pub mod Reach
mod Session
