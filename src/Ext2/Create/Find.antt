-- ===== src/Ext2/Create/Find.antt =====
-- What `create_link` has put in, `find_dir_entry` finds.
use cscc.Prelude.{
  ℕ, ◌+◌, ◌*◌, ◌^◌, ◌≡◌, ◌≢◌, ◌<◌, ◌⊎◌, inl, inr, arith, refl, subst, List, [], ◌∷◌, length, Memory,
  Bool, true, false, some,
}
use cscc.Ext2.Blocks.{block_size}
use cscc.Ext2.Directory.{
  Search, found, total_size, ft_symlink, create_link, find_dir_block_pos, find_dir_entry,
}
use cscc.Ext2.Search.{concat, find_dir_entry-First}
use cscc.Ext2.Create.Bytes.{DirEntry, entry_at, listing}
use cscc.Ext2.Create.Grown.{Inserted, Full, Grown, Linked}
use cscc.Ext2.Create.Link.{create_link-Linked}
use cscc.Ext2.Create.Dirs.{
  Holds, DirBlocks, Absent, Once, DirBlocks-AllEntries, First-found, Absent-front, Once-Inserted,
  Once-Holds,
}

-- The outcome of `create_link` for a new name: the block of the parent has no room and the disk stays
-- as it is, or the directories have one entry more, which the search for its name returns.
abbrev pub Findable :
    Memory
    → (dirs ps : List ℕ) → List (List ℕ)
    → (total : ℕ) → DirEntry
    → Search (Bool × Memory)
    → Type 0
Findable disk dirs ps blocks total x r =
    ((r ≡ found (false, disk)) × Full total disk ps)
    ⊎ ((disk' : Memory) × (blocks' : List (List ℕ)) × (r ≡ found (true, disk'))
        × DirBlocks disk' dirs blocks'
        × Inserted x (listing disk (concat blocks)) (listing disk' (concat blocks'))
        × ((a : ℕ) × (find_dir_entry disk' dirs x.name ≡ found a) × (entry_at disk' a ≡ x)))

-- A block that has an entry of a new name is found by this name.
Grown-Findable :
    (disk disk' : Memory) (dirs ps : List ℕ) (blocks : List (List ℕ)) (b total : ℕ) (x : DirEntry)
    (r : Search (Bool × Memory))
    → DirBlocks disk dirs blocks
    → Once b ps dirs blocks
    → Absent x.name (listing disk (concat blocks))
    → r ≡ found (true, disk')
    → Grown disk (b * block_size + block_size) (b * block_size) ps x disk'
    → Findable disk dirs ps blocks total x r
Grown-Findable disk disk' dirs ps blocks b total x r good once absent is g =
    let (blocks', good', i) =
      Once-Inserted disk disk' b g.outside x ps g.entries dirs blocks good once g.block
        g.inserted in
    inr (
      disk',
      blocks',
      is,
      good',
      i,
      First-found disk' x.name (concat blocks') (find_dir_entry disk' dirs x.name) i.front i.back x
          (find_dir_entry-First disk' dirs x.name blocks'
            (DirBlocks-AllEntries disk' dirs blocks' good'))
          i.after refl (Absent-front x.name i.front i.back (subst (Absent x.name) i.before absent)),
    )

-- On an image of bytes whose directory blocks are well formed, with the block of the parent once in
-- `dirs`, and for an entry that is no symbolic link and whose name no entry has: `create_link` ends.
-- Where the block has no room it returns 0 and changes nothing; else it returns 1, the directory
-- blocks are well formed again and have all the entries that they had and the new one, and
-- `find_dir_entry` returns the address of an entry with the new name, inode and type.
pub create_link-Findable :
    (disk : Memory) (dirs : List ℕ) (blocks : List (List ℕ)) (b : ℕ) (ps : List ℕ)
    (parent inode : ℕ) (name : List ℕ) (mode : ℕ)
    → ((a : ℕ) → disk a < 256)
    → mode ≢ ft_symlink
    → length name < 256
    → inode < 2 ^ 32
    → mode < 256
    → DirBlocks disk dirs blocks
    → Once b ps dirs blocks
    → find_dir_block_pos disk dirs parent ≡ some (b * block_size)
    → Absent name (listing disk (concat blocks))
    → Findable disk dirs ps blocks
        (total_size name mode)
        (record { name = name; inode = inode; type = mode })
        (create_link dirs parent inode name mode disk)
create_link-Findable disk dirs blocks b ps parent inode name mode bytes plain short low small good
      once home absent =
    let x : DirEntry = record { name = name; inode = inode; type = mode } in
    elim (linked ps (Once-Holds disk b ps dirs blocks good once)) [
      | inl full ↦ inl full
      | inr (disk', is, g) ↦
          Grown-Findable disk disk' dirs ps blocks b (total_size name mode) x
            (create_link dirs parent inode name mode disk) good once absent is g
    ]
  where
    linked :
        (ps : List ℕ)
        → Holds disk b ps
        → Linked disk
            (b * block_size + block_size)
            (b * block_size)
            ps
            (total_size name mode)
            (record { name = name; inode = inode; type = mode })
            (create_link dirs parent inode name mode disk)
    linked [] holds = absurd (omega (arith, holds))
    linked (p ∷ ps) holds =
        create_link-Linked disk (b * block_size + block_size) inode name mode bytes plain short low
          small dirs parent (b * block_size) p ps home (omega arith) refl holds
