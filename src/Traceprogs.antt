-- ===== src/Traceprogs.antt =====
-- Assignment2/traceprogs: the two programs that multiply matrices.
pub mod Loop
pub mod Matmul
pub mod Blocked
pub mod Standard
pub mod Layout
pub mod Convert
pub mod InBlocks
pub mod Printing
pub mod Equivalence
mod Sample
