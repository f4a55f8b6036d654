-- ===== src/Ext2/Tools/Ln.antt =====
-- ext2_ln.c
use cscc.Prelude.{
  ℕ, Bool, true, false, ◌==◌, ◌||◌, not, Option, none, some, List, [], ◌∷◌, if◌then◌else◌, Memory,
}
use cscc.Ext2.Directory.{create_link, find_dir_entry, ft_symlink}
use cscc.Ext2.Blocks.{find_free_inode}
use cscc.Ext2.Paths.{slash, tokens, count_item_in_path, get_parent_path}
use cscc.Ext2.Run.{Run, done, ◌>>=◌, deref}
use cscc.Ext2.Inodes.{Fs, s_ifreg, s_iflnk, init}
use cscc.Ext2.Allocate.{allocate, ft_reg_file}
use cscc.Ext2.Traverse.{same_string, traverse, root_ino}
use cscc.Ext2.Tools.Exit.{
  Exit, enoent, eexist, eisdir, dir_err, dne_err, exist_err, usage, ended, complain, refuse,
  with_image, paths_and_flag, last_name, is_file,
}
use cscc.Ext2.Tools.Mkdir.{parent_name}

-- The link: an entry for the inode itself, or with -s an entry for a new inode that holds the path.
-- The flag that `create_link` returns is not read.
unfoldable pub link_new : (sflag : Bool) (parent inode : ℕ) (name path : List ℕ) → Fs → Run Fs
link_new false parent inode name path fs = do
  linked ← deref (create_link fs.dirs parent inode name ft_reg_file fs.disk)
  allocate inode parent s_ifreg [] (record fs { disk = linked.1 })
link_new true parent inode name path fs = do
  let got = find_free_inode fs.disk
  linked ← deref (create_link fs.dirs parent got.0 name ft_symlink got.1)
  allocate got.0 parent s_iflnk path (record fs { disk = linked.1 })

-- The inode of the directory that the second path names: the root for a path of one name.
unfoldable pub link_parent : Fs → (path2 first : List ℕ) (rest : List (List ℕ)) → Run ℕ
unfolding parent_name
link_parent fs path2 first [] = done root_ino
link_parent fs path2 first (second ∷ rest) =
    traverse fs.disk fs.dirs root_ino (tokens (get_parent_path (count_item_in_path path2) path2))
      (parent_name first (second ∷ rest))

-- From the inode of the first path on. The second has the names `first ∷ rest`.
unfoldable pub ln_from :
    (sflag : Bool) (inode1 : ℕ) (filename1 path2 first : List ℕ) (rest : List (List ℕ))
    → Fs
    → Run Exit
unfolding link_new link_parent last_name
ln_from sflag inode1 filename1 path2 first rest fs =
    let filename2 = last_name first rest in
    traverse fs.disk fs.dirs root_ino (first ∷ rest) filename2 >>= λ inode2.
    if not (inode2 == 0) then complain exist_err eexist fs.disk else (do
      pos ← deref (find_dir_entry fs.disk fs.dirs filename1)
      if is_file fs.disk pos
          then (do
            parent ← link_parent fs path2 first rest
            if parent == 0 then ended enoent fs.disk else do
              fs' ← link_new sflag parent inode1 filename2 path2 fs
              ended enoent fs'.disk)
          else complain dir_err eisdir fs.disk)

-- `-s`
abbrev pub symbolic_flag : List ℕ
symbolic_flag = 45 ∷ 115 ∷ []

-- Where both paths have names.
unfoldable pub ln_paths :
    (sflag : Bool) (path2 first1 : List ℕ) (rest1 : List (List ℕ)) (first2 : List ℕ)
    → (rest2 : List (List ℕ)) → Fs
    → Run Exit
unfolding ln_from
ln_paths sflag path2 first1 rest1 first2 rest2 fs =
    let filename1 = last_name first1 rest1 in
    traverse fs.disk fs.dirs root_ino (first1 ∷ rest1) filename1 >>= λ inode1.
    if inode1 == 0
    then complain dne_err enoent fs.disk
    else ln_from sflag inode1 filename1 path2 first2 rest2 fs

unfoldable pub ln_names :
    (sflag : Bool) (path2 : List ℕ) (names1 names2 : List (List ℕ)) → Fs → Run Exit
unfolding ln_paths
ln_names sflag path2 [] names2 fs = complain dne_err enoent fs.disk
ln_names sflag path2 (first1 ∷ rest1) [] fs = complain dne_err enoent fs.disk
ln_names sflag path2 (first1 ∷ rest1) (first2 ∷ rest2) fs =
    ln_paths sflag path2 first1 rest1 first2 rest2 fs

unfoldable pub ln_main : (sflag : Bool) (path1 path2 : List ℕ) → Fs → Run Exit
unfolding ln_names
ln_main sflag path1 path2 fs =
    if same_string path1 (slash ∷ []) || same_string path2 (slash ∷ [])
    then complain dir_err eisdir fs.disk
    else ln_names sflag path2 (tokens path1) (tokens path2) fs

-- The result is ENOENT also where the link was made.
unfoldable pub ext2_ln : List (List ℕ) → (image : Option Memory) → Run Exit
unfolding ln_main
ext2_ln args image = elim (paths_and_flag symbolic_flag args) [
  | none ↦ refuse usage image
  | some (path1, path2, sflag) ↦ with_image image λ disk. init disk >>= ln_main sflag path1 path2
]
