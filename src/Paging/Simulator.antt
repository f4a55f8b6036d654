-- ===== src/Paging/Simulator.antt =====
-- `main` of sim.c: options, the replay of a trace, and what is printed.
pub mod Replay
pub mod Print
pub mod Printed
pub mod Main
pub mod Complete
mod Scenarios
