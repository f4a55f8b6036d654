-- ===== src/Ext2/Tools/Mkdir.antt =====
-- ext2_mkdir.c
use cscc.Prelude.{ℕ, ◌==◌, Option, List, [], ◌∷◌, if◌then◌else◌, Memory}
use cscc.Ext2.Directory.{create_link}
use cscc.Ext2.Blocks.{find_free_inode}
use cscc.Ext2.Paths.{slash, tokens, count_item_in_path, get_parent_path}
use cscc.Ext2.Run.{Run, done, ◌>>=◌, deref}
use cscc.Ext2.Inodes.{Fs, s_ifdir, init}
use cscc.Ext2.Allocate.{allocate, ft_dir}
use cscc.Ext2.Traverse.{same_string, traverse, root_ino}
use cscc.Ext2.Tools.Exit.{
  Exit, success, enoent, eexist, dne_err, exist_err, usage, ended, complain, refuse, with_image,
  last_name,
}

-- The new directory: an inode, its entry in the parent, and where there is room for that, its block.
unfoldable pub make_dir : (parent : ℕ) (name : List ℕ) → Fs → Run Fs
make_dir parent name fs = do
  let got = find_free_inode fs.disk
  linked ← deref (create_link fs.dirs parent got.0 name ft_dir got.1)
  let fs' = record fs { disk = linked.1 }
  if linked.0 then allocate got.0 parent s_ifdir [] fs' else done fs'

-- Unless the path exists already, the directory is made, and the program ends by `finish`.
unfoldable pub make_new :
    (parent : ℕ) (names : List (List ℕ)) (name : List ℕ)
    → Fs
    → (finish : Memory → Run Exit) → Run Exit
unfolding make_dir
make_new parent names name fs finish = traverse fs.disk fs.dirs root_ino names name >>= λ dir_inode.
    if dir_inode == 0
    then (do fs' ← make_dir parent name fs; finish fs'.disk)
    else complain exist_err eexist fs.disk

-- The first token of the parent's path where it is "/", and else all of them.
abbrev pub parent_tokens : List ℕ → List (List ℕ)
parent_tokens parent_path =
    if same_string parent_path (slash ∷ []) then parent_path ∷ [] else tokens parent_path

-- `names[count - 2]`, where there are two.
unfoldable pub parent_name : List ℕ → List (List ℕ) → List ℕ
parent_name name [] = name
parent_name name (n ∷ []) = name
parent_name name (n ∷ m ∷ names) = parent_name n (m ∷ names)

-- The end of `main` for one name is the message for a path that does not exist, with result 0; for
-- more it is ENOENT.
unfoldable pub ext2_mkdir : List (List ℕ) → (image : Option Memory) → Run Exit
unfolding make_new last_name parent_name
ext2_mkdir (disk_name ∷ path ∷ []) image = with_image image λ disk. init disk >>= λ fs.
    if same_string path (slash ∷ []) then complain exist_err eexist disk else elim (tokens path) [
      | [] ↦ complain dne_err enoent disk
      | name ∷ [] ↦ make_new root_ino (name ∷ []) name fs (complain dne_err success)
      | first ∷ second ∷ names ↦
          let all = first ∷ second ∷ names in
          let parent_path = get_parent_path (count_item_in_path path) path in
          traverse fs.disk fs.dirs root_ino (parent_tokens parent_path)
            (parent_name first (second ∷ names))
          >>= λ parent.
              if parent == 0
              then ended enoent disk
              else make_new parent all (last_name first (second ∷ names)) fs (ended enoent)
    ]
ext2_mkdir _ image = refuse usage image
