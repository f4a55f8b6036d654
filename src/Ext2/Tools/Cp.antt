-- ===== src/Ext2/Tools/Cp.antt =====
-- ext2_cp.c
use cscc.Prelude.{
  ℕ, suc, ◌+◌, ◌*◌, ◌%◌, ◌^◌, Bool, true, false, ◌==◌, ◌||◌, not, leb, Option, none, some, List, [],
  ◌∷◌, ◌++◌,
}
use cscc.Prelude.{if◌then◌else◌, Memory, store, length}
use cscc.Ext2.Directory.{create_link}
use cscc.Ext2.Blocks.{block_size, u32, put_u32, find_free_block, find_free_inode}
use cscc.Ext2.Paths.{slash, tokens}
use cscc.Ext2.Run.{Run, done, crash, ◌>>=◌, ◌>>◌, deref}
use cscc.Ext2.Inodes.{Fs, i_size, i_blocks, i_block, s_ifreg, inode_at, inside, init}
use cscc.Ext2.Allocate.{allocate, ft_reg_file}
use cscc.Ext2.Traverse.{same_string, traverse, root_ino}
use cscc.Ext2.Tools.Exit.{
  Exit, success, enoent, eexist, eisdir, dir_err, dne_err, exist_err, usage, ended, complain,
  refuse, with_image, last_name,
}

-- What the buffer holds before its first zero byte; without one `strcpy` reads past its end.
unfoldable pub c_prefix : List ℕ → Option (List ℕ)
c_prefix [] = none
c_prefix (c ∷ s) = elim (c == 0) [
  | true ↦ some []
  | false ↦ elim (c_prefix s) [ none ↦ none | some t ↦ some (c ∷ t) ]
]

-- The bytes that `fread` gives stand over the first of the buffer.
unfoldable pub overlay : (read buffer : List ℕ) → List ℕ
overlay [] buffer = buffer
overlay (c ∷ read) [] = []
overlay (c ∷ read) (d ∷ buffer) = c ∷ overlay read buffer

-- A new block for the inode at `a`, as its block number `index`.
abbrev pub add_block : (a index : ℕ) → Memory → ℕ × Memory
add_block a index disk =
    let got = find_free_block disk in
    (
      got.0,
      put_u32 (a + i_blocks) ((u32 got.1 (a + i_blocks) + 1) % 2 ^ 32)
          (put_u32 (a + i_block + 4 * index) got.0 got.1),
    )

-- After the loop: where there is room for it, one more block, into which nothing is written.
unfoldable pub copy_end : (a index total : ℕ) → Memory → Memory
copy_end a index total disk =
    put_u32 (a + i_size) total (if leb index 11 then (add_block a index disk).1 else disk)

-- The loop of `copy`. `reads` is what one `fread` after another gives, and then nothing.
unfoldable pub copy_loop :
    (a : ℕ) (reads : List (List ℕ)) (index total : ℕ) (buffer : List ℕ) → Memory → Run Memory
unfolding c_prefix overlay copy_end
copy_loop a [] index total buffer disk = done (copy_end a index total disk)
copy_loop a (read ∷ reads) index total buffer disk =
    let got = add_block a index disk in
    let block = got.0 * block_size % 2 ^ 32 in
    let filled = overlay read buffer in
    let next = λ (s : List ℕ).
      copy_loop a reads (suc index) (total + length read) filled
        (store got.1 block (s ++ (0 ∷ []))) in
    if (length read == 0) || not (leb index 11)
    then done (copy_end a index total disk)
    else elim (c_prefix filled) [
      | none ↦ crash
      | some s ↦ inside block (length s + 1) >>= λ _. next s
    ]

-- `copy`, with the bytes that the buffer holds at first. A file that `fopen` does not open is read
-- through a null pointer.
unfoldable pub copy : (buffer : List ℕ) (reads : Option (List (List ℕ))) (inode : ℕ) → Fs → Run Fs
unfolding copy_loop
copy buffer none inode fs = crash
copy buffer (some reads) inode fs = do
  let a = inode_at fs.disk inode
  inside a 128
  disk ← copy_loop a reads 0 0 buffer fs.disk
  done (record fs { disk = disk })

-- The new file in the directory `parent`. `allocate` is called for the root, whose number it does
-- not use for a file.
unfoldable pub copy_new :
    (buffer : List ℕ) (reads : Option (List (List ℕ))) (parent : ℕ) (filename : List ℕ)
    → Fs
    → Run Fs
unfolding copy
copy_new buffer reads parent filename fs = do
  let got = find_free_inode fs.disk
  linked ← deref (create_link fs.dirs parent got.0 filename ft_reg_file got.1)
  let fs' = record fs { disk = linked.1 }
  if linked.0
      then (do typed ← allocate got.0 root_ino s_ifreg [] fs'; copy buffer reads got.0 typed)
      else done fs'

-- The directory that the second path names; the root where it has no name.
unfoldable pub target : Fs → List (List ℕ) → Run ℕ
target fs [] = done root_ino
target fs (first ∷ rest) = traverse fs.disk fs.dirs root_ino (first ∷ rest) (last_name first rest)

unfoldable pub cp_from :
    (buffer : List ℕ) (reads : Option (List (List ℕ))) (path2 filename : List ℕ) → Fs → Run Exit
unfolding copy_new target
cp_from buffer reads path2 filename fs = do
  inode2 ← traverse fs.disk fs.dirs root_ino (tokens (path2 ++ (slash ∷ filename))) filename
  parent ← target fs (tokens path2)
  if not (inode2 == 0)
      then complain exist_err eexist fs.disk
      else if parent == 0
      then complain dne_err enoent fs.disk
      else do fs' ← copy_new buffer reads parent filename fs; ended success fs'.disk

-- The name of the file is the last of the first path. `exists` says whether `stat` finds that path.
unfoldable pub cp_names :
    (exists : Bool) (buffer : List ℕ) (reads : Option (List (List ℕ))) (path2 : List ℕ)
    → (names : List (List ℕ)) → Fs
    → Run Exit
unfolding cp_from last_name
cp_names exists buffer reads path2 [] fs = complain dne_err enoent fs.disk
cp_names exists buffer reads path2 (first ∷ rest) fs =
    if exists
    then cp_from buffer reads path2 (last_name first rest) fs
    else complain dne_err enoent fs.disk

unfoldable pub cp_main :
    (exists : Bool) (buffer : List ℕ) (reads : Option (List (List ℕ))) (path1 path2 : List ℕ)
    → Fs
    → Run Exit
unfolding cp_names
cp_main exists buffer reads path1 path2 fs =
    if same_string path1 (slash ∷ [])
    then complain dir_err eisdir fs.disk
    else cp_names exists buffer reads path2 (tokens path1) fs

unfoldable pub ext2_cp :
    (exists : Bool) (buffer : List ℕ) (reads : Option (List (List ℕ)))
    → List (List ℕ)
    → (image : Option Memory) → Run Exit
unfolding cp_main
ext2_cp exists buffer reads (disk_name ∷ path1 ∷ path2 ∷ []) image =
    with_image image λ disk. init disk >>= cp_main exists buffer reads path1 path2
ext2_cp exists buffer reads _ image = refuse usage image
