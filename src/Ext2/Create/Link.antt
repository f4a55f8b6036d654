-- ===== src/Ext2/Create/Link.antt =====
-- `create_link` as a whole: it puts an entry into a directory, and leaves the others.
use cscc.Prelude.{
  ℕ, zero, suc, ◌+◌, ◌%◌, ◌^◌, ◌≡◌, ◌≢◌, ◌≤◌, ◌<◌, inl, inr, arith, refl, ap, ◌∙◌, sym, subst, List,
  [], ◌∷◌, length, Memory, leb, if◌then◌else◌, ◌==◌, Bool, true, false, some,
}
use cscc.Ext2.Blocks.{block_size}
use cscc.Ext2.Directory.{
  Search, found, rec_len, dir_size, total_size, split_entry, ft_symlink, link_from, create_link,
  find_dir_block_pos,
}
use cscc.Ext2.Blocks.{disk_size}
use cscc.Ext2.Create.Bytes.{DirEntry, Block, is_round, not_round, Block-length}
use cscc.Ext2.Create.Split.{}
use cscc.Ext2.Create.Grown.{Linked, split-Grown, later-Grown}

module _ (disk : Memory) (finish inode : ℕ) (name : List ℕ) (mode : ℕ)
    (bytes : (a : ℕ) → disk a < 256) (plain : mode ≢ ft_symlink) (short : length name < 256)
    (low : inode < 2 ^ 32) (small : mode < 256) where
  abbrev new : DirEntry
  new = record { name = name; inode = inode; type = mode }

  -- Where an entry begins, the walk goes on or puts the new one in.
  step-Linked :
      (b : Bool) (pos : ℕ) (ps : List ℕ) (rest : Search (Bool × Memory))
      → leb (dir_size disk pos + total_size name mode) (rec_len disk pos) ≡ b
      → Block disk finish pos (pos ∷ ps)
      → Linked disk finish (pos + rec_len disk pos) ps (total_size name mode) new rest
      → Linked disk finish pos
          (pos ∷ ps)
          (total_size name mode)
          new
          (if b then found (true, split_entry inode name mode pos disk) else rest)
  step-Linked true pos ps rest room (_, fits, inside, later) h = inr (
    split_entry inode name mode pos disk,
    refl,
    split-Grown disk finish inode name mode bytes plain short low small pos ps fits inside later
        (ground (arith, room)),
  )
  step-Linked false pos ps rest room block (inl (r, full)) = inl (r, (ground (arith, room), full))
  step-Linked false pos ps rest room block (inr (out, r, g)) = inr (
    out,
    r,
    later-Grown disk finish inode name mode bytes plain short low small pos ps out block g,
  )

  link_from-Linked :
      (fuel pos p : ℕ) (ps : List ℕ)
      → length (p ∷ ps) ≤ fuel
      → finish % block_size ≡ 0
      → finish ≤ pos + block_size
      → Block disk finish pos (p ∷ ps)
      → Linked disk finish pos
          (p ∷ ps)
          (total_size name mode)
          new
          (link_from inode name mode fuel pos disk)
  unfolding link_from
  link_from-Linked zero pos p ps enough round near block = absurd (omega arith)
  link_from-Linked (suc fuel) pos p [] enough round near block =
      let after =
        if (pos + rec_len disk pos) % block_size == 0
        then found (false, disk)
        else link_from inode name mode fuel (pos + rec_len disk pos) disk in
      let ends : after ≡ found (false, disk) =
        rw (ap (λ a. a % block_size == 0) block.3 ∙ is_round finish round) refl in
      subst
        (λ q.
          Linked disk finish pos (q ∷ []) (total_size name mode) new
            (link_from inode name mode (suc fuel) pos disk))
        (sym block.0)
        (step-Linked (leb (dir_size disk pos + total_size name mode) (rec_len disk pos)) pos []
          after refl (refl, block.1, block.2, block.3) (inl (ends, tt)))
  link_from-Linked (suc fuel) pos p (q ∷ ps) enough round near block =
      let after =
        if (pos + rec_len disk pos) % block_size == 0
        then found (false, disk)
        else link_from inode name mode fuel (pos + rec_len disk pos) disk in
      let later =
        link_from-Linked fuel (pos + rec_len disk pos) q ps (omega arith) round
          (omega (arith, near)) block.3 in
      let goes_on : after ≡ link_from inode name mode fuel (pos + rec_len disk pos) disk =
        rw
          (not_round finish (pos + rec_len disk pos) round (omega (arith, block.3.1, block.3.2))
            (omega (arith, near, block.1)))
          refl in
      subst
        (λ r.
          Linked disk finish pos (r ∷ q ∷ ps) (total_size name mode) new
            (link_from inode name mode (suc fuel) pos disk))
        (sym block.0)
        (step-Linked (leb (dir_size disk pos + total_size name mode) (rec_len disk pos)) pos
          (q ∷ ps) after refl (refl, block.1, block.2, block.3)
          (subst
            (λ r. Linked disk finish (pos + rec_len disk pos) (q ∷ ps) (total_size name mode) new r)
            (sym goes_on) later))

  -- On a directory whose first block in `dirs` is well formed, `create_link` ends, for an entry that
  -- is no symbolic link. It returns 0 and changes nothing where no entry leaves room for the new one;
  -- else it returns 1, the block is well formed again, what its entries say is what they said before
  -- with the new entry at one place, and no byte outside the block changes.
  pub create_link-Linked :
      (dirs : List ℕ) (parent pos p : ℕ) (ps : List ℕ)
      → find_dir_block_pos disk dirs parent ≡ some pos
      → finish % block_size ≡ 0
      → finish ≡ pos + block_size
      → Block disk finish pos (p ∷ ps)
      → Linked disk finish pos
          (p ∷ ps)
          (total_size name mode)
          new
          (create_link dirs parent inode name mode disk)
  unfolding create_link
  create_link-Linked dirs parent pos p ps here round size block =
      rw (here, create_link)
        (link_from-Linked disk_size pos p ps
          (omega (arith, Block-length disk finish pos (p ∷ ps) block, size)) round
          (omega (arith, size)) block)
