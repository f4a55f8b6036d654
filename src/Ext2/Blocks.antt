-- ===== src/Ext2/Blocks.antt =====
-- The superblock, the group descriptor and the two bitmaps: `round_up`, `find_free_block` and
-- `find_free_inode` of helper.c. The disk is a memory, and addresses count from its first byte.
use cscc.Prelude.{
  ℕ, zero, suc, ◌+◌, ◌-◌, ◌*◌, ◌/◌, ◌%◌, ◌^◌, bit_and, bit_or, Bool, true, ltb, ◌==◌, ◌&&◌,
}
use cscc.Prelude.{Option, none, some, if◌then◌else◌, Memory, load, store, le_bytes, le_value}

-- `EXT2_BLOCK_SIZE`
abbrev pub block_size : ℕ
block_size = 1024

-- Fields of 1, 2 and 4 bytes, lowest byte first.
abbrev pub u32 : Memory → ℕ → ℕ
u32 disk a = le_value (load disk 4 a)

abbrev pub u16 : Memory → ℕ → ℕ
u16 disk a = le_value (load disk 2 a)

abbrev pub put_u32 : ℕ → ℕ → Memory → Memory
put_u32 a v disk = store disk a (le_bytes 4 v)

abbrev pub put_u16 : ℕ → ℕ → Memory → Memory
put_u16 a v disk = store disk a (le_bytes 2 v)

abbrev pub put_u8 : ℕ → ℕ → Memory → Memory
put_u8 a v disk = store disk a (le_bytes 1 v)

-- Addresses of the fields: of `struct ext2_super_block` at 1024, and of `struct ext2_group_desc`
-- at 2048.
abbrev pub s_inodes_count : ℕ
s_inodes_count = 1024

abbrev pub s_blocks_count : ℕ
s_blocks_count = 1028

abbrev pub bg_block_bitmap : ℕ
bg_block_bitmap = 2048

abbrev pub bg_inode_bitmap : ℕ
bg_inode_bitmap = 2052

abbrev pub bg_inode_table : ℕ
bg_inode_table = 2056

abbrev pub bg_free_blocks_count : ℕ
bg_free_blocks_count = 2060

abbrev pub bg_free_inodes_count : ℕ
bg_free_inodes_count = 2062

unfoldable pub round_up : ℕ → ℕ
round_up n = n + (4 - n % 4)

-- The size that `init` maps: the addresses of the image are below it.
abbrev pub disk_size : ℕ
disk_size = 131072

-- The loop of the two functions, from bit `i` of the bitmap at `bm` on: the first clear bit above
-- `reserved`. The counter `index` of the code goes round from 0 to 7 with `i`.
unfoldable pub find_clear : (disk : Memory) (bm : ℕ) (allowed : ℕ → Bool) (rounds i : ℕ) → Option ℕ
find_clear disk bm allowed zero i = none
find_clear disk bm allowed (suc rounds) i =
    let rest = find_clear disk bm allowed rounds (suc i) in
    if (bit_and (disk (bm + i / 8)) (2 ^ (i % 8)) == 0) && allowed i then some i else rest

-- The bit is set, and the 16-bit count of free ones goes down by one: 65535 is added round 2^16.
abbrev pub claim_bit : (bm count i : ℕ) → Memory → Memory
claim_bit bm count i disk =
    let marked = put_u8 (bm + i / 8) (bit_or (disk (bm + i / 8)) (2 ^ (i % 8))) disk in
    put_u16 count ((u16 marked count + 65535) % 2 ^ 16) marked

-- The number of a block, or 0 where none is free. The address of the bitmap is an `unsigned`; the
-- bitmap is taken to lie in the mapped image, whose size is `disk_size`.
unfoldable pub find_free_block : Memory → ℕ × Memory
unfolding find_clear
find_free_block disk =
    let bm = u32 disk bg_block_bitmap * block_size % 2 ^ 32 in
    elim (find_clear disk bm (λ _. true) (u32 disk s_blocks_count) 0) [
      | none ↦ (0, disk)
      | some i ↦ (i + 1, claim_bit bm bg_free_blocks_count i disk)
    ]

-- The number of an inode, or 0 where none is free; the first eleven are reserved. As above.
unfoldable pub find_free_inode : Memory → ℕ × Memory
unfolding find_clear
find_free_inode disk =
    let bm = u32 disk bg_inode_bitmap * block_size % 2 ^ 32 in
    elim (find_clear disk bm (λ i. ltb 10 i) (u32 disk s_inodes_count) 0) [
      | none ↦ (0, disk)
      | some i ↦ (i + 1, claim_bit bm bg_free_inodes_count i disk)
    ]
