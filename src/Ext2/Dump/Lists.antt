-- ===== src/Ext2/Dump/Lists.antt =====
-- The inodes that readImage.c prints are those of `init`, and the directory blocks are the same.
use cscc.Prelude.{
  ℕ, zero, suc, ◌+◌, ◌*◌, ◌≡◌, refl, ap₂, ◌∙◌, arith, Bool, true, false, List, [], ◌∷◌, ◌++◌, ◌==◌,
  if◌then◌else◌, Memory,
}
use mathlib.Core.List.{map}
use cscc.Ext2.Blocks.{u16, u32}
use cscc.Ext2.Blocks.{disk_size}
use cscc.Ext2.Run.{Run, done, loops, crash, ◌>>=◌}
use cscc.Ext2.Inodes.{
  i_size, i_links_count, i_blocks, i_block, s_ifdir, has_type, inode_table, inside, words_from,
  dirs_of,
}
use cscc.Ext2.Dump.{InodeLines, mode_letter, list_blocks, list_inodes}

-- The blocks that go into `dirs` are all blocks of a directory.
abbrev kept : (letter : ℕ) → List ℕ → List ℕ
kept letter ws = if letter == b'd' then ws else []

abbrev no_blocks : List ℕ × List ℕ
no_blocks = ([], [])

abbrev filed : (letter : ℕ) → List ℕ → List ℕ × List ℕ
filed letter ws = (ws, kept letter ws)

list_blocks_lem :
    (disk : Memory) (letter fuel a : ℕ)
    → list_blocks disk letter fuel a ≡ (words_from disk fuel a >>= λ ws. done (filed letter ws))
unfolding list_blocks words_from
list_blocks_lem disk letter zero a = refl
list_blocks_lem disk letter (suc fuel) a =
    go (inside a 4) (u32 disk a == 0) (words_from disk fuel (a + 4))
      (list_blocks disk letter fuel (a + 4)) (list_blocks_lem disk letter fuel (a + 4))
  where
    go :
        (i : Run (Unit {0})) (last : Bool) (ws : Run (List ℕ)) (rest : Run (List ℕ × List ℕ))
        → rest ≡ (ws >>= λ ws. done (filed letter ws))
        → (i >>= λ _.
            if last
            then done no_blocks
            else (rest >>= λ r.
                done (u32 disk a ∷ r.0, (if letter == b'd' then u32 disk a ∷ r.1 else r.1))))
          ≡ ((i >>= λ _. if last then done [] else (ws >>= λ ws. done (u32 disk a ∷ ws))) >>= λ ws.
              done (filed letter ws))
    go crash last ws rest e = refl
    go loops last ws rest e = refl
    go (done t) true ws rest e = ground arith
    go (done t) false (done ws) rest e = ground arith
    go (done t) false loops rest e = ground arith
    go (done t) false crash rest e = ground arith

-- The letter `d` is that of the directories.
mode_letter-dir : (mode : ℕ) → (mode_letter mode == b'd') ≡ has_type s_ifdir mode
mode_letter-dir mode = ground arith

-- Both parts of what `list_inodes` returns, by what `init` does.
abbrev pub Lists : Memory → (inum : List ℕ) → Run (List ℕ) → Run (List InodeLines × List ℕ) → Type 0
Lists disk inum (done dirs) (done r) = (r.1 ≡ dirs) × (map (λ l. l.number) r.0 ≡ map suc inum)
Lists disk inum (done dirs) loops = ⊥
Lists disk inum (done dirs) crash = ⊥
Lists disk inum loops (done r) = ⊥
Lists disk inum loops loops = Unit
Lists disk inum loops crash = ⊥
Lists disk inum crash (done r) = ⊥
Lists disk inum crash loops = ⊥
Lists disk inum crash crash = Unit

abbrev listed : List InodeLines → List ℕ → Run (List InodeLines × List ℕ)
listed lines dirs = done (lines, dirs)

-- One inode more, whose blocks are the words that `init` reads.
Lists-step :
    (disk : Memory) (i : ℕ) (inum : List ℕ) (dir : Bool) (letter : ℕ) (here : Run (Unit {0}))
    (ws : Run (List ℕ)) (bs : Run (List ℕ × List ℕ)) (dirs : Run (List ℕ))
    (r : Run (List InodeLines × List ℕ)) (line : List ℕ → InodeLines)
    → (letter == b'd') ≡ dir
    → bs ≡ (ws >>= λ ws. done (filed letter ws))
    → ((blocks : List ℕ) → (line blocks).number ≡ i + 1)
    → Lists disk inum dirs r
    → Lists disk
        (i ∷ inum)
        (here >>= λ _.
          ws >>= λ blocks. dirs >>= λ rest. done (if dir then blocks ++ rest else rest))
        (here >>= λ _.
          bs >>= λ blocks. r >>= λ rest. listed (line blocks.0 ∷ rest.0) (blocks.1 ++ rest.1))
Lists-step disk i inum dir letter loops ws bs dirs r line same e number h = tt
Lists-step disk i inum dir letter crash ws bs dirs r line same e number h = tt
Lists-step disk i inum dir letter (done t) loops bs dirs r line same e number h = rw e tt
Lists-step disk i inum dir letter (done t) crash bs dirs r line same e number h = rw e tt
Lists-step disk i inum dir letter (done t) (done ws) bs dirs r line same e number h =
    rw e (go dirs r h)
  where
    go :
        (dirs : Run (List ℕ)) (r : Run (List InodeLines × List ℕ))
        → Lists disk inum dirs r
        → Lists disk
            (i ∷ inum)
            (dirs >>= λ rest. done (if dir then ws ++ rest else rest))
            (r >>= λ rest. listed (line ws ∷ rest.0) (kept letter ws ++ rest.1))
    go (done d) (done x) h = (
      ap₂ (λ b (y : List ℕ). (if b then ws else []) ++ y) same h.0 ∙ chosen dir d,
      ap₂ ◌∷◌ (number ws ∙ omega arith) h.1,
    )
      where
        chosen :
            (dir : Bool) (d : List ℕ) → (if dir then ws else []) ++ d ≡ (if dir then ws ++ d else d)
        chosen true d = refl
        chosen false d = refl
    go (done d) loops h = absurd h
    go (done d) crash h = absurd h
    go loops (done x) h = absurd h
    go loops loops h = tt
    go loops crash h = absurd h
    go crash (done x) h = absurd h
    go crash loops h = absurd h
    go crash crash h = tt

pub list_inodes-Lists :
    (disk : Memory) (inum : List ℕ) → Lists disk inum (dirs_of disk inum) (list_inodes disk inum)
unfolding dirs_of list_inodes
list_inodes-Lists disk [] = (refl, refl)
list_inodes-Lists disk (i ∷ inum) =
    let a = inode_table disk + 128 * i in
    Lists-step disk i inum (has_type s_ifdir (u16 disk a)) (mode_letter (u16 disk a)) (inside a 128)
      (words_from disk disk_size (a + i_block))
      (list_blocks disk (mode_letter (u16 disk a)) disk_size (a + i_block)) (dirs_of disk inum)
      (list_inodes disk inum)
      (λ blocks. record {
        number = i + 1;
        type = mode_letter (u16 disk a);
        size = u32 disk (a + i_size);
        links = u16 disk (a + i_links_count);
        blocks = u32 disk (a + i_blocks);
        block_list = blocks;
      })
      (mode_letter-dir (u16 disk a))
      (list_blocks_lem disk (mode_letter (u16 disk a)) disk_size (a + i_block)) (λ blocks. refl)
      (list_inodes-Lists disk inum)
