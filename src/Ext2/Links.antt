-- ===== src/Ext2/Links.antt =====
-- What `remove_link` does to the bitmap of inodes.
use cscc.Prelude.{ℕ, ◌+◌, ◌-◌, ◌*◌, ◌≡◌, ◌<◌, ◌≤◌, Option, none, some, ltb, if◌then◌else◌, Memory}
use cscc.Ext2.Blocks.{u16, put_u16, put_u32}
use cscc.Ext2.Free.{in_use}
use cscc.Ext2.Run.{Run, done, loops, crash}
use cscc.Ext2.Inodes.{Fs, inode_bitmap, inode_table, release_bit, i_links_count, i_dtime}

-- The groups of the image stand in order: the descriptor, the bitmap of inodes, their table.
pub record IsLaidOut (disk : Memory) : Type 0 where
  pub bytes : (a : ℕ) → disk a < 256
  pub bitmap : 3072 ≤ inode_bitmap disk
  pub table : inode_bitmap disk + 1024 ≤ inode_table disk

-- The bit of index `j` in the bitmap is as it was in `disk`, if the call returns.
abbrev pub KeepsBit : Memory → (j : ℕ) → Run Fs → Type 0
KeepsBit disk j (done fs) = in_use fs.disk (inode_bitmap disk) j ≡ in_use disk (inode_bitmap disk) j
KeepsBit disk j loops = Unit
KeepsBit disk j crash = Unit

module _ (now inode : ℕ) (fs : Fs) (laid : IsLaidOut fs.disk) (low : 12 ≤ inode)
    (high : inode ≤ 8192) where
  abbrev at : ℕ
  at = inode_table fs.disk + 128 * inode - 128

  -- The image after the count of links went down.
  abbrev lowered : Memory
  lowered =
      if ltb 0 (u16 fs.disk (at + i_links_count))
      then put_u16 (at + i_links_count) (u16 fs.disk (at + i_links_count) - 1) fs.disk
      else fs.disk

  -- What is left for each outcome of the search.
  finish : Option ℕ → Run Fs
  finish gone = done (elim gone [
    | some i ↦ record fs { disk = release_bit (inode_bitmap lowered) i lowered }
    | none ↦ record fs { disk = put_u32 (at + i_dtime) now lowered }
  ])
