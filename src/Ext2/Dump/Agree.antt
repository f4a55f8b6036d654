-- ===== src/Ext2/Dump/Agree.antt =====
-- What readImage.c prints is what the tools work on: the inodes and the directory blocks of `init`.
use cscc.Prelude.{
  ℕ, suc, ◌*◌, ◌%◌, ◌^◌, ◌≡◌, refl, sym, ap, ap₂, ◌∙◌, Bool, true, false, List, [], ◌∷◌, length,
  leb, Memory, subst,
}
use mathlib.Core.List.{map}
use cscc.Ext2.Blocks.{
  block_size, u16, u32, s_inodes_count, s_blocks_count, bg_block_bitmap, bg_inode_bitmap,
  bg_inode_table, bg_free_blocks_count, bg_free_inodes_count,
}
use cscc.Ext2.Inodes
use cscc.Ext2.Directory.{entry_inode}
use cscc.Ext2.Blocks.{disk_size}
use cscc.Ext2.Run.{Run, done, loops, crash, ◌>>=◌, require}
use cscc.Ext2.Inodes.{
  Fs, i_size, i_links_count, i_blocks, i_block, s_ifdir, has_type, inode_table, inside, used_from,
  words_from, dirs_of, init,
}
use cscc.Ext2.Dump.{
  InodeLines, BlockLines, EntryLine, Output, list_inodes, list_entries, list_dirs, read_image,
  bits_from, bg_used_dirs_count,
}
use cscc.Ext2.Dump.Lists.{Lists, list_inodes-Lists}

-- Every block of `dirs` is printed, in this order.
abbrev Shows : (dirs : List ℕ) → Run (List BlockLines) → Type 0
Shows dirs (done lines) = map (λ l. l.block) lines ≡ dirs
Shows dirs loops = Unit
Shows dirs crash = Unit

Shows-step :
    (block : ℕ) (dirs : List ℕ) (here : Run (Unit {0})) (entries : Run (List EntryLine))
    (r : Run (List BlockLines)) (line : List EntryLine → BlockLines)
    → ((entries : List EntryLine) → (line entries).block ≡ block)
    → Shows dirs r
    → Shows
        (block ∷ dirs)
        (here >>= λ _. entries >>= λ entries. r >>= λ rest. done (line entries ∷ rest))
Shows-step block dirs crash entries r line number h = tt
Shows-step block dirs loops entries r line number h = tt
Shows-step block dirs (done t) crash r line number h = tt
Shows-step block dirs (done t) loops r line number h = tt
Shows-step block dirs (done t) (done es) crash line number h = tt
Shows-step block dirs (done t) (done es) loops line number h = tt
Shows-step block dirs (done t) (done es) (done rest) line number h = ap₂ ◌∷◌ (number es) h

list_dirs-Shows : (disk : Memory) (dirs : List ℕ) → Shows dirs (list_dirs disk dirs)
unfolding list_dirs
list_dirs-Shows disk [] = refl
list_dirs-Shows disk (block ∷ dirs) =
    Shows-step block dirs (inside (block * block_size) 8)
      (list_entries disk disk_size (block * block_size)) (list_dirs disk dirs)
      (λ entries. record {
        block = block;
        inode = entry_inode disk (block * block_size);
        entries = entries;
      })
      (λ entries. refl) (list_dirs-Shows disk dirs)

-- What is printed stands beside what `init` builds.
pub record Agrees (disk : Memory) (out : Output) : Type 0 where
  pub fs : Fs
  pub built : init disk ≡ done fs
  pub inodes : map (λ l. l.number) out.inodes ≡ map suc fs.inum
  pub directories : map (λ l. l.block) out.directories ≡ fs.dirs

abbrev IfDone : Memory → Run Output → Type 0
IfDone disk (done out) = Agrees disk out
IfDone disk loops = Unit
IfDone disk crash = Unit

-- The rest of the two programs after the inodes in use are known.
Agrees-rest :
    (disk : Memory) (inum : List ℕ) (room : Run (Unit {0})) (dirs : Run (List ℕ))
    (inodes : Run (List InodeLines × List ℕ)) (output : List InodeLines → List BlockLines → Output)
    → Lists disk inum dirs inodes
    → init disk ≡ (
        room >>= λ _. dirs >>= λ dirs. require (leb (length dirs) 128) >>= λ _.
        done (record { disk = disk; dirs = dirs; inum = inum }))
    → ((i : List InodeLines) (d : List BlockLines) → (output i d).inodes ≡ i)
    → ((i : List InodeLines) (d : List BlockLines) → (output i d).directories ≡ d)
    → IfDone disk (
        room >>= λ _. inodes >>= λ inodes. require (leb (length inodes.1) 128) >>= λ _.
        list_dirs disk inodes.1 >>= λ directories. done (output inodes.0 directories))
Agrees-rest disk inum crash dirs inodes output h built first second = tt
Agrees-rest disk inum loops dirs inodes output h built first second = tt
Agrees-rest disk inum (done t) dirs crash output h built first second = tt
Agrees-rest disk inum (done t) dirs loops output h built first second = tt
Agrees-rest disk inum (done t) crash (done r) output h built first second = absurd h
Agrees-rest disk inum (done t) loops (done r) output h built first second = absurd h
Agrees-rest disk inum (done t) (done dirs) (done r) output h built first second =
    go (leb (length r.1) 128) refl (list_dirs disk r.1) (list_dirs-Shows disk r.1)
  where
    go :
        (b : Bool)
        → leb (length r.1) 128 ≡ b
        → (shown : Run (List BlockLines)) → Shows r.1 shown
        → IfDone disk (require b >>= λ _. shown >>= λ directories. done (output r.0 directories))
    go false e shown k = tt
    go true e crash k = tt
    go true e loops k = tt
    go true e (done lines) k =
        let fs : Fs = record { disk = disk; dirs = dirs; inum = inum } in
        let fits : leb (length dirs) 128 ≡ true =
          ap (λ (ds : List ℕ). leb (length ds) 128) (sym h.0) ∙ e in
        record {
          fs = fs;
          built = built ∙ ap (λ b. require b >>= λ _. done fs) fits;
          inodes = ap (map (λ (l : InodeLines). l.number)) (first r.0 lines) ∙ h.1;
          directories = ap (map (λ (l : BlockLines). l.block)) (second r.0 lines) ∙ k ∙ h.0;
        }

read_image-IfDone : (disk : Memory) → IfDone disk (read_image disk)
unfolding read_image init
read_image-IfDone disk =
    let inum = 1 ∷ used_from disk (u32 disk s_inodes_count) 0 in
    let output : List InodeLines → List BlockLines → Output = λ i d. record {
      inodes_count = u32 disk s_inodes_count;
      blocks_count = u32 disk s_blocks_count;
      block_bitmap = u32 disk bg_block_bitmap;
      inode_bitmap = u32 disk bg_inode_bitmap;
      inode_table = u32 disk bg_inode_table;
      free_blocks = u16 disk bg_free_blocks_count;
      free_inodes = u16 disk bg_free_inodes_count;
      used_dirs = u16 disk bg_used_dirs_count;
      block_bits =
          bits_from disk (u32 disk bg_block_bitmap * block_size % 2 ^ 32) (u32 disk s_blocks_count)
            0;
      inode_bits = bits_from disk (Inodes.inode_bitmap disk) (u32 disk s_inodes_count) 0;
      inodes = i;
      directories = d;
    } in
    Agrees-rest disk inum (require (leb (length inum) 32)) (dirs_of disk inum)
      (list_inodes disk inum) output (list_inodes-Lists disk inum) refl (λ i d. refl) (λ i d. refl)

-- Where readImage.c prints an image, `init` ends on it, and what is printed are the inodes that the
-- tools work on, by their numbers, and exactly the directory blocks that they search, in the same
-- order.
pub read_image-Agrees :
    (disk : Memory) (out : Output) → read_image disk ≡ done out → Agrees disk out
read_image-Agrees disk out e = subst (IfDone disk) e (read_image-IfDone disk)
