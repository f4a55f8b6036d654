-- ===== src/Ext2/Create.antt =====
-- What `create_link` of helper.c makes of a directory block.
pub mod Bytes
pub mod Split
pub mod Grown
pub mod Link
pub mod Dirs
pub mod Find
pub mod Sample
