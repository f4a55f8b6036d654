-- ===== src/Ext2/Tools/Rm.antt =====
-- ext2_rm.c
use cscc.Prelude.{
  ℕ, ◌+◌, ◌%◌, ◌^◌, ◌==◌, ◌||◌, Option, none, some, List, [], ◌∷◌, if◌then◌else◌, Memory,
}
use cscc.Ext2.Blocks.{put_u16, put_u32}
use cscc.Ext2.Directory.{rec_len, find_dir_entry, find_pre_pos, dot}
use cscc.Ext2.Paths.{slash, tokens}
use cscc.Ext2.Run.{Run, ◌>>=◌, pointer, deref}
use cscc.Ext2.Inodes.{Fs, init, remove_link}
use cscc.Ext2.Traverse.{same_string, traverse, root_ino}
use cscc.Ext2.Tools.Exit.{
  Exit, success, failure, enoent, eisdir, dir_err, dne_err, usage, ended, complain, refuse,
  with_image, is_file,
}

-- ".."
abbrev pub dot_dot : List ℕ
dot_dot = 46 ∷ 46 ∷ []

-- The entry before the one at `pos` takes its length too, on an `unsigned short`.
abbrev pub extend : (pre pos : ℕ) → Memory → Memory
extend pre pos disk = put_u16 (pre + 4) ((rec_len disk pre + rec_len disk pos) % 2 ^ 16) disk

-- The entry at `pos` is taken out of its directory: its length goes to what `find_pre_pos` finds, its
-- inode to 0, and the inode loses a link.
unfoldable pub unlink : (now pos inode : ℕ) (filename : List ℕ) → Fs → Run Fs
unlink now pos inode filename fs = do
  pre ← pointer (find_pre_pos fs.disk fs.dirs filename)
  let disk : Memory = elim pre [ none ↦ fs.disk | some p ↦ extend p pos fs.disk ]
  remove_link now inode (record fs { disk = put_u32 pos 0 disk })

unfoldable pub rm_path : (now : ℕ) → Fs → (names : List (List ℕ)) (filename : List ℕ) → Run Exit
unfolding unlink
rm_path now fs names filename = traverse fs.disk fs.dirs root_ino names filename >>= λ file_inode.
    if file_inode == 0 then complain dne_err enoent fs.disk else (do
      pos ← deref (find_dir_entry fs.disk fs.dirs filename)
      if is_file fs.disk pos
          then (do fs' ← unlink now pos file_inode filename fs; ended success fs'.disk)
          else complain dir_err eisdir fs.disk)

-- Where the path has the components `names`.
unfoldable pub rm_names : (now : ℕ) (filename : List ℕ) (names : List (List ℕ)) → Fs → Run Exit
unfolding rm_path
rm_names now filename [] fs = complain dne_err enoent fs.disk
rm_names now filename (cur ∷ names) fs = rm_path now fs (cur ∷ names) filename

-- `basename` is that of libgen.h, and `now` the time.
unfoldable pub rm_main : (basename : List ℕ → List ℕ) (now : ℕ) (path : List ℕ) → Fs → Run Exit
unfolding rm_names
rm_main basename now path fs =
    if same_string path (slash ∷ [])
      || same_string (basename path) dot
      || same_string (basename path) dot_dot
    then complain dir_err failure fs.disk
    else rm_names now (basename path) (tokens path) fs

unfoldable pub ext2_rm :
    (basename : List ℕ → List ℕ) (now : ℕ) → List (List ℕ) → (image : Option Memory) → Run Exit
unfolding rm_main
ext2_rm basename now (name ∷ path ∷ []) image =
    with_image image λ disk. init disk >>= rm_main basename now path
ext2_rm basename now _ image = refuse usage image
