-- ===== src/Ext2.antt =====
-- Assignment3: the shared helpers of the ext2 tools, on the bytes of the disk image.
pub mod Blocks
pub mod Directory
pub mod Paths
pub mod Free
pub mod Search
pub mod Create
pub mod Names
mod Examples
pub mod Run
pub mod Inodes
pub mod Init
pub mod Links
pub mod Allocate
pub mod Dump
pub mod Traverse
pub mod Lookup
pub mod Resolve
pub mod Tools
