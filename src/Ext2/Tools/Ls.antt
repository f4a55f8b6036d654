-- ===== src/Ext2/Tools/Ls.antt =====
-- ext2_ls.c
use cscc.Prelude.{
  ℕ, zero, suc, ◌+◌, ◌*◌, ◌%◌, ◌^◌, Bool, not, ◌==◌, ◌&&◌, ◌||◌, Option, none, some, List, [], ◌∷◌,
  ◌++◌,
}
use cscc.Prelude.{if◌then◌else◌, Memory, load}
use cscc.Ext2.Blocks.{block_size, u32}
use cscc.Ext2.Directory.{rec_len, name_len, file_type, find_dir_entry}
use cscc.Ext2.Blocks.{disk_size}
use cscc.Ext2.Paths.{slash, tokens}
use cscc.Ext2.Run.{Run, done, loops, ◌>>=◌, ◌>>◌, deref}
use cscc.Ext2.Inodes.{Fs, i_blocks, i_block, inode_at, inside, init}
use cscc.Ext2.Allocate.{ft_dir}
use cscc.Ext2.Traverse.{same_string, traverse, root_ino}
use cscc.Ext2.Tools.Exit.{
  Exit, success, enoent, dne_err, usage, complain, refuse, with_image, path_and_flag, last_name,
  is_file,
}

-- `%.*s`: the bytes before a zero byte.
unfoldable pub c_string : List ℕ → List ℕ
c_string [] = []
c_string (c ∷ s) = if c == 0 then [] else c ∷ c_string s

abbrev pub name_of : Memory → (pos : ℕ) → List ℕ
name_of disk pos = c_string (load disk (name_len disk pos) (pos + 8))

-- Is the entry at `pos` printed? A name with a dot in front only with the flag -a.
abbrev pub is_printed : Memory → Bool → (pos : ℕ) → Bool
is_printed disk aflag pos =
    (is_file disk pos || (file_type disk pos == ft_dir)) && (not (disk (pos + 8) == 46) || aflag)

-- The lines for the entries from `pos` to the end of the block.
unfoldable pub ls_entries : Memory → Bool → (fuel pos : ℕ) → Run (List (List ℕ))
unfolding c_string
ls_entries disk aflag zero pos = loops
ls_entries disk aflag (suc fuel) pos =
    let next = pos + rec_len disk pos in
    let rest = (if next % block_size == 0 then done [] else ls_entries disk aflag fuel next) in
    inside pos 9 >>= λ _.
    rest >>= λ lines. done (if is_printed disk aflag pos then name_of disk pos ∷ lines else lines)

-- The blocks of the inode at `a` from `index` on.
unfoldable pub ls_blocks : Memory → Bool → (a rounds index : ℕ) → Run (List (List ℕ))
unfolding ls_entries
ls_blocks disk aflag a zero index = done []
ls_blocks disk aflag a (suc rounds) index = do
  inside (a + i_block + 4 * index) 4
  lines ← ls_entries disk aflag disk_size (u32 disk (a + i_block + 4 * index) * block_size % 2 ^ 32)
  more ← ls_blocks disk aflag a rounds (suc index)
  done (lines ++ more)

unfoldable pub ls_block : Memory → (inode : ℕ) → Bool → Run (List (List ℕ))
unfolding ls_blocks
ls_block disk inode aflag = do
  let a = inode_at disk inode
  inside a 128
  ls_blocks disk aflag a (u32 disk (a + i_blocks)) 0

abbrev pub print : Memory → List (List ℕ) → Exit
print disk lines = record { code = success; image = some disk; out = lines; err = none }

-- `-a`
abbrev pub all_flag : List ℕ
all_flag = 45 ∷ 97 ∷ []

-- A path with a component, which is `filename` or leads to it.
unfoldable pub ls_path : Fs → Bool → (names : List (List ℕ)) (filename : List ℕ) → Run Exit
unfolding ls_block
ls_path fs aflag names filename = traverse fs.disk fs.dirs root_ino names filename >>= λ file_inode.
    if file_inode == 0 then complain dne_err enoent fs.disk else (do
      pos ← deref (find_dir_entry fs.disk fs.dirs filename)
      if is_file fs.disk pos
          then done (print fs.disk (name_of fs.disk pos ∷ []))
          else do lines ← ls_block fs.disk file_inode aflag; done (print fs.disk lines))

unfoldable pub ext2_ls : List (List ℕ) → (image : Option Memory) → Run Exit
unfolding ls_path last_name
ext2_ls args image = elim (path_and_flag all_flag args) [
  | none ↦ refuse usage image
  | some (path, aflag) ↦ with_image image λ disk. init disk >>= λ fs.
      if same_string path (slash ∷ [])
      then (do lines ← ls_block disk root_ino aflag; done (print disk lines))
      else elim (tokens path) [
        | [] ↦ complain dne_err enoent disk
        | cur ∷ names ↦ ls_path fs aflag (cur ∷ names) (last_name cur names)
      ]
]
