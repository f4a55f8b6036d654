-- ===== src/Paging/Fifo.antt =====
-- The simulator with fifo.c as a coremap and a pointer.
pub mod Pages
pub mod Queue
pub mod Recent
pub mod Refine
pub mod Place
