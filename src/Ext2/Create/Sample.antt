-- ===== src/Ext2/Create/Sample.antt =====
-- A directory with two entries, at which the theorem on `create_link` is applied.
use cscc.Prelude.{ℕ, ◌==◌, ◌<◌, arith, refl, [], ◌∷◌, if◌then◌else◌, Memory, inl, some, ◌≡◌}
use cscc.Ext2.Directory.{create_link, find_dir_block_pos, total_size}
use cscc.Ext2.Create.Find.{Findable, create_link-Findable}

-- The root directory in block 9: "." with 12 bytes and ".." with the rest of the block.
abbrev pub folder : Memory
folder a =
    if a == 9216
    then 2
    else if a == 9220
    then 12
    else if a == 9222
    then 1
    else if a == 9223
    then 2
    else if a == 9224
    then 46
    else if a == 9228
    then 2
    else if a == 9232
    then 244
    else if a == 9233
    then 3
    else if a == 9234
    then 2
    else if a == 9235
    then 2
    else if a == 9236
    then 46
    else if a == 9237
    then 46
    else 0

folder-bytes : (a : ℕ) → folder a < 256
folder-bytes a = ground arith

home : find_dir_block_pos folder (9 ∷ []) 2 ≡ some 9216
unfolding find_dir_block_pos cscc.Ext2.Directory.strcmp_eq
home = refl

-- The file "ab" with inode 12.
create_link-Findable_example :
    Findable folder
      (9 ∷ [])
      (9216 ∷ 9228 ∷ [])
      ((9216 ∷ 9228 ∷ []) ∷ [])
      24
      (record { name = 97 ∷ 98 ∷ []; inode = 12; type = 1 })
      (create_link (9 ∷ []) 2 12 (97 ∷ 98 ∷ []) 1 folder)
unfolding cscc.Ext2.Blocks.round_up
create_link-Findable_example =
    create_link-Findable folder (9 ∷ []) ((9216 ∷ 9228 ∷ []) ∷ []) 9 (9216 ∷ 9228 ∷ []) 2 12
      (97 ∷ 98 ∷ []) 1 folder-bytes (omega arith) (omega arith) (omega arith) (omega arith)
      ((refl, omega arith, omega arith, (refl, omega arith, omega arith, refl)), tt)
      (inl (refl, refl, tt)) home ((λ e. cc e), ((λ e. cc e), tt))
