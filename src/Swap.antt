-- ===== src/Swap.antt =====
-- Assignment2/swap.c: the bitmap of the swap file, and the transfer of pages.
pub mod Bitmap
pub mod Slots
pub mod Alloc
pub mod Marks
pub mod Create
pub mod Transfer
pub mod RoundTrip
pub mod Kept
pub mod Examples
