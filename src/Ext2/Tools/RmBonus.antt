-- ===== src/Ext2/Tools/RmBonus.antt =====
-- ext2_rm_bonus.c, without the numbers that it prints on its way.
use cscc.Prelude.{ℕ, zero, suc, ◌+◌, ◌*◌, ◌%◌, ◌^◌, Bool, true, false, not, ◌==◌, ◌&&◌, ◌||◌, ltb}
use cscc.Prelude.{Option, none, some, List, [], ◌∷◌, ◌++◌, if◌then◌else◌, Memory, load}
use cscc.Ext2.Blocks.{block_size, u32}
use cscc.Ext2.Directory.{rec_len, name_len, file_type, entry_inode, strncmp_eq, find_dir_entry, dot}
use cscc.Ext2.Blocks.{disk_size}
use cscc.Ext2.Paths.{slash, tokens}
use cscc.Ext2.Run.{Run, done, loops, ◌>>=◌, ◌>>◌, deref}
use cscc.Ext2.Inodes.{Fs, i_blocks, i_block, inode_at, inside, init}
use cscc.Ext2.Allocate.{ft_dir}
use cscc.Ext2.Traverse.{same_string, traverse, root_ino}
use cscc.Ext2.Tools.Exit.{
  Exit, success, failure, enoent, eisdir, dir_err, dne_err, usage, ended, complain, refuse,
  with_image, path_and_flag, is_file,
}
use cscc.Ext2.Tools.Ls.{c_string}
use cscc.Ext2.Tools.Rm.{dot_dot, unlink}

-- What `remove_r` returns: 0, 1 or EISDIR.
pub data Removal : Type 0 where
  nothing : Removal
  removed : Removal
  is_dir : Removal

abbrev pub is_removed : Removal → Bool
is_removed removed = true
is_removed _ = false

-- Is the entry one of the contents of its directory, so neither "." nor ".."?
abbrev pub is_content : Memory → (pos : ℕ) → Bool
is_content disk pos =
    (is_file disk pos || (file_type disk pos == ft_dir))
    && not (strncmp_eq (name_len disk pos) dot disk (pos + 8))
    && not (strncmp_eq (name_len disk pos) dot_dot disk (pos + 8))

-- The copy of the name, which has no zero byte of its own: what the memory behind it holds up to
-- the first zero byte is `junk`.
abbrev pub copied_name : (junk : List ℕ) → Memory → (pos : ℕ) → List ℕ
copied_name junk disk pos = c_string (load disk (name_len disk pos) (pos + 8) ++ junk)

-- The loop over the entries of the block number `index`. The call of `remove_r` is `remove`.
unfoldable pub remove_entries :
    (remove : (inode : ℕ) (name : List ℕ) → Fs → Run (Removal × Fs)) (junk : List ℕ) (index : ℕ)
    → (fuel pos : ℕ) → Removal
    → Fs
    → Run (Removal × Fs)
remove_entries remove junk index zero pos result fs = loops
remove_entries remove junk index (suc fuel) pos result fs = inside pos 8 >>= λ _.
    let next = pos + rec_len fs.disk pos in
    let rest = λ (r : Removal × Fs).
      (if next % block_size == 0
        then done r
        else remove_entries remove junk index fuel next r.0 r.1) in
    (if is_content fs.disk pos && ((index == 0) || is_removed result)
      then remove (entry_inode fs.disk pos) (copied_name junk fs.disk pos) fs
      else done (result, fs))
    >>= rest

-- The loop over the blocks of the inode at `a`. `i_blocks` is read in each round.
unfoldable pub remove_blocks :
    (remove : (inode : ℕ) (name : List ℕ) → Fs → Run (Removal × Fs)) (junk : List ℕ) (a : ℕ)
    → (fuel index : ℕ) → Removal
    → Fs
    → Run (Removal × Fs)
unfolding remove_entries
remove_blocks remove junk a zero index result fs = loops
remove_blocks remove junk a (suc fuel) index result fs =
    let block = u32 fs.disk (a + i_block + 4 * index) * block_size % 2 ^ 32 in
    let rest = λ (r : Removal × Fs). remove_blocks remove junk a fuel (suc index) r.0 r.1 in
    if ltb index (u32 fs.disk (a + i_blocks))
    then (inside (a + i_block + 4 * index) 4 >>= λ _.
        remove_entries remove junk index disk_size block result fs >>= rest)
    else done (result, fs)

-- `remove_r`, on fuel for the depth of the calls.
unfoldable pub remove_r :
    (now : ℕ) (junk : List ℕ) (rflag : Bool) (fuel inode : ℕ) (filename : List ℕ)
    → Fs
    → Run (Removal × Fs)
unfolding remove_blocks
remove_r now junk rflag zero inode filename fs = loops
remove_r now junk rflag (suc fuel) inode filename fs =
    let remove = remove_r now junk rflag fuel in
    deref (find_dir_entry fs.disk fs.dirs filename) >>= λ pos.
    if is_file fs.disk pos
    then (do fs' ← unlink now pos inode filename fs; done (removed, fs'))
    else if not (file_type fs.disk pos == ft_dir)
    then done (nothing, fs)
    else if rflag
    then (do
      let a = inode_at fs.disk inode
      inside a 128
      (result, emptied) ← remove_blocks remove junk a disk_size 0 nothing fs
      fs' ← unlink now pos inode filename emptied
      done (result, fs'))
    else done (is_dir, fs)

-- `-r`
abbrev pub recursive_flag : List ℕ
recursive_flag = 45 ∷ 114 ∷ []

unfoldable pub rm_bonus_path :
    (now : ℕ) (junk : List ℕ) (rflag : Bool) (fuel : ℕ)
    → Fs
    → (names : List (List ℕ)) → (filename : List ℕ) → Run Exit
unfolding remove_r
rm_bonus_path now junk rflag fuel fs names filename =
    traverse fs.disk fs.dirs root_ino names filename >>= λ file_inode.
    if file_inode == 0
    then complain dne_err enoent fs.disk
    else (remove_r now junk rflag fuel file_inode filename fs >>= λ (result, fs'). elim result [
      | is_dir ↦ complain dir_err eisdir fs'.disk
      | removed ↦ ended success fs'.disk
      | nothing ↦ complain dne_err enoent fs'.disk
    ])

unfoldable pub ext2_rm_bonus :
    (basename : List ℕ → List ℕ) (now : ℕ) (junk : List ℕ) (fuel : ℕ)
    → List (List ℕ)
    → (image : Option Memory) → Run Exit
unfolding rm_bonus_path
ext2_rm_bonus basename now junk fuel args image = elim (path_and_flag recursive_flag args) [
  | none ↦ refuse usage image
  | some (path, rflag) ↦ with_image image λ disk. init disk >>= λ fs.
      if same_string path (slash ∷ [])
        || same_string (basename path) dot
        || same_string (basename path) dot_dot
      then complain dir_err failure disk
      else elim (tokens path) [
        | [] ↦ complain dne_err enoent disk
        | cur ∷ names ↦ rm_bonus_path now junk rflag fuel fs (cur ∷ names) (basename path)
      ]
]
