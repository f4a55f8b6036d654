-- ===== src/Ext2/Directory.antt =====
-- Directory blocks: the searches of helper.c through the entries of the directories in `dirs`.
use cscc.Prelude.{ℕ, zero, suc, ◌+◌, ◌-◌, ◌*◌, ◌%◌, ◌^◌, Bool, true, false, ◌==◌, ◌&&◌, leb}
use cscc.Prelude.{Option, none, some, List, [], ◌∷◌, length, if◌then◌else◌, Memory, store, ◌++◌}
use cscc.Ext2.Blocks.{disk_size, block_size, u16, u32, put_u16, put_u32, put_u8, round_up}

-- A search finds something, ends without it, does not end inside the disk (an entry of length 0
-- goes round for ever, other entries leave the mapping), or reads through a null pointer.
pub data Search (A : Type 0) : Type 0 where
  found : A → Search A
  missing : Search A
  endless : Search A
  fault : Search A

-- `strncmp(s, name, n) == 0`, for a string `s` without a zero byte and the bytes at `a`.
unfoldable pub strncmp_eq : ℕ → List ℕ → Memory → ℕ → Bool
strncmp_eq zero s disk a = true
strncmp_eq (suc n) [] disk a = disk a == 0
strncmp_eq (suc n) (c ∷ s) disk a = (c == disk a) && strncmp_eq n s disk (suc a)

-- `strcmp(name, s) == 0`
unfoldable pub strcmp_eq : List ℕ → Memory → ℕ → Bool
strcmp_eq [] disk a = disk a == 0
strcmp_eq (c ∷ s) disk a = (c == disk a) && strcmp_eq s disk (suc a)

-- The fields of `struct ext2_dir_entry_2` at address `pos`.
abbrev pub entry_inode : Memory → ℕ → ℕ
entry_inode disk pos = u32 disk pos

abbrev pub rec_len : Memory → ℕ → ℕ
rec_len disk pos = u16 disk (pos + 4)

abbrev pub name_len : Memory → ℕ → ℕ
name_len disk pos = disk (pos + 6)

abbrev pub file_type : Memory → ℕ → ℕ
file_type disk pos = disk (pos + 7)

-- Is the entry's name `s`?
abbrev pub is_named : Memory → List ℕ → ℕ → Bool
is_named disk s pos =
    strncmp_eq (name_len disk pos) s disk (pos + 8) && (length s == name_len disk pos)

-- The `do ... while (pos % EXT2_BLOCK_SIZE != 0)` over a block, with the position before `pos`: the
-- first entry of that name, with its predecessor.
unfoldable pub scan : Memory → List ℕ → (fuel pre pos : ℕ) → Search (ℕ × ℕ)
scan disk s zero pre pos = endless
scan disk s (suc fuel) pre pos =
    let next = pos + rec_len disk pos in
    let rest = scan disk s fuel pos next in
    if is_named disk s pos
    then found (pre, pos)
    else if next % block_size == 0
    then missing
    else rest

-- As much fuel as the image has bytes: so many entries of positive length lead out of it.
abbrev pub scan_block : Memory → List ℕ → (block : ℕ) → Search (ℕ × ℕ)
scan_block disk s block = scan disk s disk_size (block * block_size) (block * block_size)

-- The loop over `dirs`, for `find_dir_entry` and `find_pre_pos`.
unfoldable pub find_in : Memory → List ℕ → (dirs : List ℕ) → Search (ℕ × ℕ)
find_in disk s [] = missing
find_in disk s (block ∷ dirs) =
    let rest = find_in disk s dirs in
    elim (scan_block disk s block) [
      | found r ↦ found r
      | missing ↦ rest
      | endless ↦ endless
      | fault ↦ fault
    ]

-- The address of the entry; the parameter `inode` of the code is not read.
unfoldable pub find_dir_entry : Memory → (dirs filename : List ℕ) → Search ℕ
unfolding find_in
find_dir_entry disk dirs filename = elim (find_in disk filename dirs) [
  | found r ↦ found r.1
  | missing ↦ missing
  | endless ↦ endless
  | fault ↦ fault
]

-- The address of the entry before it in its block, or its own where it is the first.
unfoldable pub find_pre_pos : Memory → (dirs filename : List ℕ) → Search ℕ
unfolding find_in
find_pre_pos disk dirs filename = elim (find_in disk filename dirs) [
  | found r ↦ found r.0
  | missing ↦ missing
  | endless ↦ endless
  | fault ↦ fault
]

abbrev pub dot : List ℕ
dot = 46 ∷ []

-- Does the block start with the entry "." of the inode?
abbrev pub is_home : Memory → (inode block : ℕ) → Bool
is_home disk inode block =
    (inode == entry_inode disk (block * block_size)) && strcmp_eq dot disk (block * block_size + 8)

unfoldable pub find_dir_block_pos : Memory → (dirs : List ℕ) → (inode : ℕ) → Option ℕ
find_dir_block_pos disk [] inode = none
find_dir_block_pos disk (block ∷ dirs) inode =
    let rest = find_dir_block_pos disk dirs inode in
    if is_home disk inode block then some (block * block_size) else rest

-- The space of an entry as `create_link` counts it: the fields of 4, 2, 1 and 1 bytes and the name.
abbrev pub dir_size : Memory → ℕ → ℕ
dir_size disk pos = round_up (4 + 2 + 1 + name_len disk pos + 1)

-- `EXT2_FT_SYMLINK`
abbrev pub ft_symlink : ℕ
ft_symlink = 7

-- The space of the new entry: `sizeof(name)` is the 8 bytes of a pointer, and `sizeof` of the
-- constant is 4.
abbrev pub total_size : List ℕ → (mode : ℕ) → ℕ
total_size name mode =
    if mode == ft_symlink then length name else round_up (4 + 2 + 8 + length name + 4)

-- The entry at `pos` is cut to its size, and the new entry takes what is left of its length. The
-- name is written with its zero byte, and before `name_len`.
abbrev pub split_entry : (inode : ℕ) (name : List ℕ) (mode pos : ℕ) → Memory → Memory
split_entry inode name mode pos disk =
    let cur_len = rec_len disk pos in
    let size = dir_size disk pos in
    let at = pos + size % 2 ^ 16 in
    put_u32 at inode (
      put_u16 (at + 4) (cur_len - size) (
        put_u8 (at + 6) (length name)
          (store (put_u8 (at + 7) mode (put_u16 (pos + 4) size disk)) (at + 8) (name ++ (0 ∷ [])))))

unfoldable pub link_from :
    (inode : ℕ) (name : List ℕ) (mode fuel pos : ℕ) → Memory → Search (Bool × Memory)
link_from inode name mode zero pos disk = endless
link_from inode name mode (suc fuel) pos disk =
    let next = pos + rec_len disk pos in
    let rest = link_from inode name mode fuel next disk in
    if leb (dir_size disk pos + total_size name mode) (rec_len disk pos)
    then found (true, split_entry inode name mode pos disk)
    else if next % block_size == 0
    then found (false, disk)
    else rest

-- The flag is the result of `create_link`. Without a block for the parent the code reads through a
-- null pointer.
unfoldable pub create_link :
    (dirs : List ℕ) (parent inode : ℕ) (name : List ℕ) (mode : ℕ) → Memory → Search (Bool × Memory)
unfolding find_dir_block_pos link_from
create_link dirs parent inode name mode disk = elim (find_dir_block_pos disk dirs parent) [
  | none ↦ fault
  | some pos ↦ link_from inode name mode disk_size pos disk
]
