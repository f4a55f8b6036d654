-- ===== src/Ext2/Dump.antt =====
-- readImage.c, which prints an image.
mod Lists
pub mod Agree
mod Sample
use cscc.Prelude.{
  ℕ, zero, suc, ◌+◌, ◌*◌, ◌%◌, ◌^◌, Bool, not, ◌==◌, leb, Option, none, some, List, [], ◌∷◌, ◌++◌,
  length,
}
use cscc.Prelude.{if◌then◌else◌, Memory, ◌%◌, ◌^◌}
use cscc.Ext2.Blocks.{
  block_size, u16, u32, s_inodes_count, s_blocks_count, bg_block_bitmap, bg_inode_bitmap,
  bg_inode_table, bg_free_blocks_count, bg_free_inodes_count,
}
use cscc.Ext2.Directory.{entry_inode, rec_len, name_len, file_type}
use cscc.Ext2.Blocks.{disk_size}
use cscc.Ext2.Run.{Run, done, loops, ◌>>=◌, ◌>>◌, require}
use cscc.Ext2.Inodes.{
  i_size, i_links_count, i_blocks, i_block, s_ifdir, s_ifreg, has_type, inside, is_used, used_from,
}
use cscc.Ext2.Inodes
use cscc.Ext2.Allocate.{ft_dir, ft_reg_file}
use cscc.Ext2.Tools.Ls.{name_of}

-- What is printed of an inode: its number, the letter of its type, three fields, and its blocks.
pub record InodeLines : Type 0 where
  pub number : ℕ
  pub type : ℕ
  pub size : ℕ
  pub links : ℕ
  pub blocks : ℕ
  pub block_list : List ℕ

-- The line of a directory entry.
pub record EntryLine : Type 0 where
  pub inode : ℕ
  pub length : ℕ
  pub name_length : ℕ
  pub type : ℕ
  pub name : List ℕ

-- A directory block: its number, the inode of its first entry, and its entries.
pub record BlockLines : Type 0 where
  pub block : ℕ
  pub inode : ℕ
  pub entries : List EntryLine

-- The output, from the top to the bottom. The bitmaps are texts.
pub record Output : Type 0 where
  pub inodes_count : ℕ
  pub blocks_count : ℕ
  pub block_bitmap : ℕ
  pub inode_bitmap : ℕ
  pub inode_table : ℕ
  pub free_blocks : ℕ
  pub free_inodes : ℕ
  pub used_dirs : ℕ
  pub block_bits : List ℕ
  pub inode_bits : List ℕ
  pub inodes : List InodeLines
  pub directories : List BlockLines

-- `bg_used_dirs_count`
abbrev pub bg_used_dirs_count : ℕ
bg_used_dirs_count = 2064

-- A loop over a bitmap, from bit `i` on: a digit for each, and a space behind each eighth.
unfoldable pub bits_from : Memory → (bm rounds i : ℕ) → List ℕ
bits_from disk bm zero i = []
bits_from disk bm (suc rounds) i =
    let rest = bits_from disk bm rounds (suc i) in
    (if is_used disk bm i then b'1' else b'0') ∷ (if (i + 1) % 8 == 0 then b' ' ∷ rest else rest)

-- The letter of an inode's type, by its mode.
abbrev pub mode_letter : ℕ → ℕ
mode_letter mode =
    if has_type s_ifdir mode then b'd' else if has_type s_ifreg mode then b'f' else b's'

-- The loop over the words of `i_block`, from address `a` on: the blocks that are printed, and those
-- that go into `dirs`.
unfoldable pub list_blocks : Memory → (letter fuel a : ℕ) → Run (List ℕ × List ℕ)
list_blocks disk letter zero a = loops
list_blocks disk letter (suc fuel) a =
    let rest = list_blocks disk letter fuel (a + 4) in
    let block = u32 disk a in
    inside a 4 >>= λ _.
    if block == 0
    then done ([], [])
    else (rest >>= λ r. done (block ∷ r.0, (if letter == b'd' then block ∷ r.1 else r.1)))

-- The loop over the inodes in use: their lines, and `dirs`.
unfoldable pub list_inodes : Memory → (inum : List ℕ) → Run (List InodeLines × List ℕ)
unfolding list_blocks
list_inodes disk [] = done ([], [])
list_inodes disk (i ∷ inum) = do
  let a = Inodes.inode_table disk + 128 * i
  inside a 128
  let letter = mode_letter (u16 disk a)
  blocks ← list_blocks disk letter disk_size (a + i_block)
  rest ← list_inodes disk inum
  let lines : InodeLines = record {
    number = i + 1;
    type = letter;
    size = u32 disk (a + i_size);
    links = u16 disk (a + i_links_count);
    blocks = u32 disk (a + i_blocks);
    block_list = blocks.0;
  }
  done (lines ∷ rest.0, blocks.1 ++ rest.1)

abbrev pub type_letter : ℕ → ℕ
type_letter type = if type == ft_reg_file then b'f' else if type == ft_dir then b'd' else b's'

-- The `do ... while` over a directory block.
unfoldable pub list_entries : Memory → (fuel pos : ℕ) → Run (List EntryLine)
list_entries disk zero pos = loops
list_entries disk (suc fuel) pos =
    let next = pos + rec_len disk pos in
    let rest = (if next % block_size == 0 then done [] else list_entries disk fuel next) in
    let line : EntryLine = record {
      inode = entry_inode disk pos;
      length = rec_len disk pos;
      name_length = name_len disk pos;
      type = type_letter (file_type disk pos);
      name = name_of disk pos;
    } in
    inside pos 8 >>= λ _. rest >>= λ lines. done (line ∷ lines)

-- The loop over `dirs`.
unfoldable pub list_dirs : Memory → (dirs : List ℕ) → Run (List BlockLines)
unfolding list_entries
list_dirs disk [] = done []
list_dirs disk (block ∷ dirs) = do
  let pos = block * block_size
  inside pos 8
  entries ← list_entries disk disk_size pos
  rest ← list_dirs disk dirs
  let lines : BlockLines = record { block = block; inode = entry_inode disk pos; entries = entries }
  done (lines ∷ rest)

-- All that is printed of an image.
unfoldable pub read_image : Memory → Run Output
unfolding bits_from list_inodes list_dirs
read_image disk = do
  let inodes_count = u32 disk s_inodes_count
  let inum = 1 ∷ used_from disk inodes_count 0
  require (leb (length inum) 32)
  inodes ← list_inodes disk inum
  require (leb (length inodes.1) 128)
  directories ← list_dirs disk inodes.1
  done (record {
    inodes_count = inodes_count;
    blocks_count = u32 disk s_blocks_count;
    block_bitmap = u32 disk bg_block_bitmap;
    inode_bitmap = u32 disk bg_inode_bitmap;
    inode_table = u32 disk bg_inode_table;
    free_blocks = u16 disk bg_free_blocks_count;
    free_inodes = u16 disk bg_free_inodes_count;
    used_dirs = u16 disk bg_used_dirs_count;
    block_bits =
        bits_from disk (u32 disk bg_block_bitmap * block_size % 2 ^ 32) (u32 disk s_blocks_count) 0;
    inode_bits = bits_from disk (Inodes.inode_bitmap disk) inodes_count 0;
    inodes = inodes.0;
    directories = directories;
  })

-- `main`: the exit code, and what is printed of the image that `mmap` gives.
unfoldable pub read_image_main :
    (args : List (List ℕ)) → (image : Option Memory) → Run (ℕ × Option Output)
unfolding read_image
read_image_main args image = if not (length args == 1) then done (1, none) else elim image [
  | none ↦ done (1, none)
  | some disk ↦ read_image disk >>= λ output. done (0, some output)
]
