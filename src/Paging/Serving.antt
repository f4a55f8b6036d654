-- ===== src/Paging/Serving.antt =====
-- `find_physpage` of pagetable.c over any replacement algorithm: the mapping of pages to frames.
pub mod Mapped
pub mod Sound
pub mod Change
pub mod Evict
pub mod FreeFrame
pub mod Claim
pub mod Miss
pub mod Serve
pub mod Answer
pub mod Locate
pub mod Contracts
