-- ===== src/Ext2/Tools.antt =====
-- The programs of Assignment3: ext2_ls, ext2_rm, ext2_rm_bonus, ext2_mkdir, ext2_ln and ext2_cp.
pub mod Exit
pub mod Ls
pub mod Rm
pub mod RmBonus
pub mod Mkdir
pub mod Ln
pub mod Cp
pub mod Errors
