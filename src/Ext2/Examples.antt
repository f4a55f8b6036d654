-- ===== src/Ext2/Examples.antt =====
-- A small image and a path, at which the theorems on the ext2 helpers are applied.
use cscc.Prelude.{ℕ, ◌<◌, ◌==◌, arith, true, ltb, if◌then◌else◌, Memory}
use cscc.Prelude.{◌≡◌, refl, List, [], ◌∷◌, ◌++◌}
use cscc.Ext2.Paths.{arr_names, count_item_in_path, get_parent_path}
use cscc.Ext2.Names.{join, trail, arr_names-join, get_parent_path-join}
use cscc.Prelude.{false, some, none}
use cscc.Ext2.Directory.{find_dir_entry}
use cscc.Ext2.Search.{First, AllEntries, find_dir_entry-First}
use cscc.Ext2.Inodes.{Fs}
use cscc.Ext2.Tools.Rm.{ext2_rm}
use cscc.Ext2.Tools.Cp.{ext2_cp}
use cscc.Ext2.Tools.Ln.{ext2_ln}
use cscc.Ext2.Tools.Errors.{
  Atomic, Unsuccessful, ext2_rm-Atomic, ext2_cp-Atomic, ext2_ln-Unsuccessful,
}
use cscc.Ext2.Blocks.{find_free_block, find_free_inode, bg_free_blocks_count, bg_free_inodes_count}
use cscc.Ext2.Free.{Taken, find_free_block-Taken, find_free_inode-Taken}

-- 128 blocks and 32 inodes; the bitmaps are blocks 3 and 4, with the first nine blocks and the
-- first twelve inodes in use, and 119 and 20 free. The table of inodes is block 5, and inode 12
-- has one link.
abbrev pub image : Memory
image a =
    if a == 1024
    then 32
    else if a == 1028
    then 128
    else if a == 2048
    then 3
    else if a == 2052
    then 4
    else if a == 2056
    then 5
    else if a == 6554
    then 1
    else if a == 2060
    then 119
    else if a == 2062
    then 20
    else if a == 3072
    then 255
    else if a == 3073
    then 1
    else if a == 4096
    then 255
    else if a == 4097
    then 15
    else 0

image-bytes : (a : ℕ) → image a < 256
image-bytes a = ground arith

find_free_block-Taken_example :
    Taken image 3072 bg_free_blocks_count 128 (λ _. true) (find_free_block image)
find_free_block-Taken_example = find_free_block-Taken image image-bytes (omega arith) (omega arith)

find_free_inode-Taken_example :
    Taken image 4096 bg_free_inodes_count 32 (λ i. ltb 10 i) (find_free_inode image)
find_free_inode-Taken_example = find_free_inode-Taken image image-bytes (omega arith) (omega arith)

-- The names "ab" and "c".
abbrev two_names : List (List ℕ)
two_names = (97 ∷ 98 ∷ []) ∷ (99 ∷ []) ∷ []

arr_names-join_example :
    (arr_names (join two_names ++ trail true) ≡ two_names)
    × (count_item_in_path (join two_names ++ trail true) ≡ 2)
arr_names-join_example = arr_names-join two_names true ((refl, (refl, tt)), ((refl, tt), tt))

get_parent_path-join_example :
    let path = join (two_names ++ ((100 ∷ []) ∷ [])) ++ trail true in
    arr_names (get_parent_path (count_item_in_path path) path) ≡ two_names
get_parent_path-join_example =
    get_parent_path-join two_names (100 ∷ []) true ((refl, (refl, tt)), ((refl, tt), tt)) (refl, tt)

-- `ext2_rm d /a`, for a path that is not there, and `ext2_cp d a /` for a file that is not there.
ext2_rm-Atomic_example :
    Atomic (some image) (ext2_rm (λ p. 97 ∷ []) 7 ((100 ∷ []) ∷ (47 ∷ 97 ∷ []) ∷ []) (some image))
ext2_rm-Atomic_example =
    ext2_rm-Atomic (λ p. 97 ∷ []) 7 ((100 ∷ []) ∷ (47 ∷ 97 ∷ []) ∷ []) (some image)

ext2_cp-Atomic_example :
    Atomic
      (some image)
      (ext2_cp false [] none ((100 ∷ []) ∷ (97 ∷ []) ∷ (47 ∷ []) ∷ []) (some image))
ext2_cp-Atomic_example =
    ext2_cp-Atomic false [] none ((100 ∷ []) ∷ (97 ∷ []) ∷ (47 ∷ []) ∷ []) (some image)

ext2_ln-Unsuccessful_example :
    Unsuccessful (ext2_ln ((100 ∷ []) ∷ (47 ∷ 97 ∷ []) ∷ (47 ∷ 98 ∷ []) ∷ []) (some image))
ext2_ln-Unsuccessful_example =
    ext2_ln-Unsuccessful ((100 ∷ []) ∷ (47 ∷ 97 ∷ []) ∷ (47 ∷ 98 ∷ []) ∷ []) (some image)

-- The globals that `init` makes.
abbrev globals : Fs
globals = record { disk = image; dirs = []; inum = 1 ∷ 11 ∷ [] }

-- A directory in block 9 with the entries "." and "a".
abbrev pub home : Memory
home a =
    if a == 9216
    then 2
    else if a == 9220
    then 12
    else if a == 9222
    then 1
    else if a == 9223
    then 2
    else if a == 9224
    then 46
    else if a == 9228
    then 12
    else if a == 9232
    then 244
    else if a == 9233
    then 3
    else if a == 9234
    then 1
    else if a == 9235
    then 1
    else if a == 9236
    then 97
    else 0

home-AllEntries : AllEntries home (9 ∷ []) ((9216 ∷ 9228 ∷ []) ∷ [])
home-AllEntries = ((refl, refl, (refl, refl)), omega arith, tt)

find_dir_entry-First_example :
    First home (97 ∷ []) (9216 ∷ 9228 ∷ []) (find_dir_entry home (9 ∷ []) (97 ∷ []))
find_dir_entry-First_example =
    find_dir_entry-First home (9 ∷ []) (97 ∷ []) ((9216 ∷ 9228 ∷ []) ∷ []) home-AllEntries
