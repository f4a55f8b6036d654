-- ===== src/Paging.antt =====
-- Assignment2/pagetable.c, sim.c and the replacement algorithms, over swap.c.
pub mod State
pub mod Lookup
pub mod Policies
pub mod Reload
pub mod Hit
pub mod References
pub mod Clock
mod Examples
pub mod Lru
pub mod Opt
pub mod Serving
pub mod Simulator
pub mod Fifo
