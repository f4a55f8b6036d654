-- ===== src/Ext2/Inodes.antt =====
-- Inodes: `struct ext2_inode` of ext2.h, and `init`, `remove_link` and `allocate` of helper.c.
use cscc.Prelude.{ℕ, zero, suc, ◌+◌, ◌-◌, ◌*◌, ◌/◌, ◌%◌, ◌^◌, bit_and, Bool}
use cscc.Prelude.{Option, none, some, List, [], ◌∷◌, ◌++◌, length, get_or, if◌then◌else◌, Memory}
use cscc.Prelude.{ltb, leb, ◌==◌, ◌&&◌, not}
use cscc.Ext2.Blocks.{
  block_size, u16, u32, put_u8, put_u16, put_u32, s_inodes_count, bg_inode_bitmap, bg_inode_table,
  bg_free_inodes_count,
}
use cscc.Ext2.Directory.{}
use cscc.Ext2.Blocks.{disk_size}
use cscc.Ext2.Run.{Run, done, loops, ◌>>=◌, ◌>>◌, require}

-- The globals of helper.c.
pub record Fs : Type 0 where
  pub disk : Memory
  pub dirs : List ℕ
  pub inum : List ℕ

-- The offsets of the fields that are used in `struct ext2_inode`, which has 128 bytes.
abbrev pub i_size : ℕ
i_size = 4

abbrev pub i_dtime : ℕ
i_dtime = 20

abbrev pub i_links_count : ℕ
i_links_count = 26

abbrev pub i_blocks : ℕ
i_blocks = 28

abbrev pub i_block : ℕ
i_block = 40

-- EXT2_S_IFLNK, EXT2_S_IFREG and EXT2_S_IFDIR.
abbrev pub s_iflnk : ℕ
s_iflnk = 0xA000

abbrev pub s_ifreg : ℕ
s_ifreg = 0x8000

abbrev pub s_ifdir : ℕ
s_ifdir = 0x4000

-- S_ISDIR, S_ISREG and S_ISLNK compare the four high bits.
abbrev pub has_type : (type mode : ℕ) → Bool
has_type type mode = mode / 4096 == type / 4096

abbrev pub inode_table : Memory → ℕ
inode_table disk = u32 disk bg_inode_table * block_size % 2 ^ 32

-- `in + (inode - 1)`, with the subtraction on an `unsigned`.
abbrev pub inode_at : Memory → ℕ → ℕ
inode_at disk inode = inode_table disk + 128 * ((inode + (2 ^ 32 - 1)) % 2 ^ 32)

-- A struct of `size` bytes at `a` lies in the image.
abbrev pub inside : (a size : ℕ) → Run (Unit {0})
inside a size = require (leb (a + size) disk_size)

-- Is bit `i` of the bitmap at `bm` set?
abbrev pub is_used : Memory → (bm i : ℕ) → Bool
is_used disk bm i = not (bit_and (disk (bm + i / 8)) (2 ^ (i % 8)) == 0)

abbrev pub inode_bitmap : Memory → ℕ
inode_bitmap disk = u32 disk bg_inode_bitmap * block_size % 2 ^ 32

-- The first loop of `init`: the indices from `i` on that are in use, above 10.
unfoldable pub used_from : Memory → (rounds i : ℕ) → List ℕ
used_from disk zero i = []
used_from disk (suc rounds) i =
    let rest = used_from disk rounds (suc i) in
    if is_used disk (inode_bitmap disk) i && ltb 10 i then i ∷ rest else rest

-- The inner loop of `init`: the words from `a` on, up to the first that is 0.
unfoldable pub words_from : Memory → (fuel a : ℕ) → Run (List ℕ)
words_from disk zero a = loops
words_from disk (suc fuel) a =
    let rest = words_from disk fuel (a + 4) in
    inside a 4 >>= λ _. if u32 disk a == 0 then done [] else (rest >>= λ ws. done (u32 disk a ∷ ws))

-- The second loop of `init`, over the inodes of `inum`: the blocks of the directories. An image has
-- fewer words than bytes, so `disk_size` is enough fuel.
unfoldable pub dirs_of : Memory → (inum : List ℕ) → Run (List ℕ)
unfolding words_from
dirs_of disk [] = done []
dirs_of disk (i ∷ inum) = do
  let a = inode_table disk + 128 * i
  inside a 128
  blocks ← words_from disk disk_size (a + i_block)
  rest ← dirs_of disk inum
  done (if has_type s_ifdir (u16 disk a) then blocks ++ rest else rest)

-- `init`, on what `mmap` gives. The arrays have room for 32 inodes and 128 blocks. The root is index
-- 1, and stands first.
unfoldable pub init : Memory → Run Fs
unfolding used_from dirs_of
init disk = do
  let inum = 1 ∷ used_from disk (u32 disk s_inodes_count) 0
  require (leb (length inum) 32)
  dirs ← dirs_of disk inum
  require (leb (length dirs) 128)
  done (record { disk = disk; dirs = dirs; inum = inum })

-- The loop of `remove_link`, from `i` on: the first `i` whose bit is set and which is the position of
-- the inode in `inum`, an array of 32 that is 0 behind its entries.
unfoldable pub find_used : Fs → (inode rounds i : ℕ) → Run (Option ℕ)
find_used fs inode zero i = done none
find_used fs inode (suc rounds) i =
    let rest = find_used fs inode rounds (suc i) in
    if is_used fs.disk (inode_bitmap fs.disk) i
    then (require (ltb i 32) >>= λ _.
        if get_or fs.inum i 0 == (inode + (2 ^ 32 - 1)) % 2 ^ 32 then done (some i) else rest)
    else rest

-- The bit is cleared, and the count of free inodes goes up.
abbrev pub release_bit : (bm i : ℕ) → Memory → Memory
release_bit bm i disk =
    let byte = disk (bm + i / 8) in
    let cleared = put_u8 (bm + i / 8) (bit_and byte (255 - 2 ^ (i % 8))) disk in
    put_u16 bg_free_inodes_count ((u16 cleared bg_free_inodes_count + 1) % 2 ^ 16) cleared

-- `remove_link` at the time `now`. Where the bit is found, the function returns before it sets the
-- time.
unfoldable pub remove_link : (now inode : ℕ) → Fs → Run Fs
unfolding find_used
remove_link now inode fs = do
  let a = inode_table fs.disk + 128 * inode - 128
  inside a 128
  let links = u16 fs.disk (a + i_links_count)
  let disk = if ltb 0 links then put_u16 (a + i_links_count) (links - 1) fs.disk else fs.disk
  let lowered = record fs { disk = disk }
  gone ← (if links == 1 then find_used lowered inode (u32 disk s_inodes_count) 0 else done none)
  done (elim gone [
    | some i ↦ record fs { disk = release_bit (inode_bitmap disk) i disk }
    | none ↦ record fs { disk = put_u32 (a + i_dtime) now disk }
  ])
