-- ===== src/Ext2/Traverse.antt =====
-- `traverse` of helper.c: the walk along a path.
use cscc.Prelude.{
  ℕ, Bool, true, false, ◌==◌, ◌&&◌, Option, none, some, List, [], ◌∷◌, if◌then◌else◌, Memory,
}
use cscc.Ext2.Directory.{found, missing, endless, fault, scan_block, is_home, is_named, entry_inode}
use cscc.Ext2.Paths.{slash}
use cscc.Ext2.Run.{Run, done, loops, crash}

-- `strcmp(s, t) == 0`
unfoldable pub same_string : List ℕ → List ℕ → Bool
same_string [] [] = true
same_string [] (d ∷ t) = false
same_string (c ∷ s) [] = false
same_string (c ∷ s) (d ∷ t) = (c == d) && same_string s t

-- `EXT2_ROOT_INO`
abbrev pub root_ino : ℕ
root_ino = 2

-- The loop over `dirs`, for the component `cur` in the directory `inode`. The rest of the walk from
-- the inode of the entry that is found is `next`. A null `cur` is read as soon as there is a
-- block of the directory. The result 0 says that nothing was found.
unfoldable pub step_in :
    Memory
    → (cur : Option (List ℕ)) (filename : List ℕ) (next : ℕ → Run ℕ) (dirs : List ℕ) (inode : ℕ)
    → Run ℕ
step_in disk cur filename next [] inode = done 0
step_in disk cur filename next (block ∷ dirs) inode =
    let rest = step_in disk cur filename next dirs inode in
    if is_home disk inode block
    then (elim cur [
      | none ↦ crash
      | some s ↦ elim (scan_block disk s block) [
        | found r ↦
            if is_named disk filename (r.1)
            then done (entry_inode disk (r.1))
            else next (entry_inode disk (r.1))
        | missing ↦ rest
        | endless ↦ loops
        | fault ↦ crash
      ]
    ])
    else rest

-- The tokens are `cur`, where it is not null, and those that `strtok` has still to give.
unfoldable pub walk : Memory → (dirs filename : List ℕ) (tokens : List (List ℕ)) (inode : ℕ) → Run ℕ
unfolding step_in
walk disk dirs filename [] inode = step_in disk none filename (λ _. crash) dirs inode
walk disk dirs filename (cur ∷ rest) inode =
    step_in disk (some cur) filename (walk disk dirs filename rest) dirs inode

unfoldable pub traverse :
    Memory → (dirs : List ℕ) (inode : ℕ) (tokens : List (List ℕ)) (filename : List ℕ) → Run ℕ
unfolding same_string walk
traverse disk dirs inode tokens filename =
    if same_string filename (slash ∷ [])
    then done root_ino
    else walk disk dirs filename tokens inode
