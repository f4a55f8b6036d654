-- ===== src/Ext2/Create/Grown.antt =====
-- `create_link` puts an entry into a directory, and leaves the others.
use cscc.Prelude.{
  ℕ, suc, ◌+◌, ◌-◌, ◌^◌, ◌≡◌, ◌≢◌, ◌≤◌, ◌<◌, ◌⊎◌, inl, inr, arith, refl, ap, ap₂, ◌∙◌, sym, subst,
  List, [], ◌∷◌, ◌++◌, length, Memory, Bool, true, false,
}
use cscc.Ext2.Directory.{
  Search, found, rec_len, name_len, dir_size, total_size, split_entry, ft_symlink,
}
use cscc.Ext2.Create.Bytes.{
  DirEntry, entry_at, listing, Block, Same, rec_len-Same, name_len-Same, entry_at-Same,
  entry_at-Kept, name_len-Kept, DirEntry_eq,
}
use cscc.Ext2.Create.Split.{
  written, written_out, written-cut, written-rest, written-named, written-typed, written-numbered,
  written-spelled, size-bounds, total-bounds, split_entry-written,
}

-- `ys` is `xs` with `x` somewhere.
pub record Inserted {A : Type 0} (x : A) (xs ys : List A) : Type 0 where
  pub front : List A
  pub back : List A
  pub before : xs ≡ front ++ back
  pub after : ys ≡ front ++ (x ∷ back)

-- No entry leaves room for `total` bytes.
abbrev pub Full : (total : ℕ) → Memory → List ℕ → Type 0
Full total disk [] = Unit
Full total disk (p ∷ ps) = (rec_len disk p < dir_size disk p + total) × Full total disk ps

-- The block has one entry more, and no byte outside of it changes.
pub record Grown (disk : Memory) (finish pos : ℕ) (ps : List ℕ) (x : DirEntry) (disk' : Memory)
    : Type 0 where
  pub entries : List ℕ
  pub block : Block disk' finish pos entries
  pub more : length entries ≡ length ps + 1
  pub inserted : Inserted x (listing disk ps) (listing disk' entries)
  pub outside : (k : ℕ) → (k < pos) ⊎ (finish ≤ k) → disk' k ≡ disk k

-- What `create_link` does to a block: nothing, where there is no room, or it puts in one entry.
abbrev pub Linked :
    Memory → (finish pos : ℕ) → List ℕ → (total : ℕ) → DirEntry → Search (Bool × Memory) → Type 0
Linked disk finish pos ps total x r =
    ((r ≡ found (false, disk)) × Full total disk ps)
    ⊎ ((disk' : Memory) × (r ≡ found (true, disk')) × Grown disk finish pos ps x disk')

pub Block-Same :
    (disk disk' : Memory) (finish a : ℕ) (ps : List ℕ)
    → Block disk finish a ps
    → Same a finish disk disk'
    → Block disk' finish a ps × (listing disk' ps ≡ listing disk ps)
Block-Same disk disk' finish a [] end same = (end, refl)
Block-Same disk disk' finish a (p ∷ ps) (at, fits, inside, rest) same =
    let here : Same a (a + (8 + name_len disk a)) disk disk' =
      λ k from to. same k from (omega arith) in
    let len = rec_len-Same disk disk' a here in
    let name = name_len-Same disk disk' a here in
    let (block, list) =
      Block-Same disk disk' finish (a + rec_len disk a) ps rest
        (λ k from to. same k (omega arith) to) in
    (
      (
        at,
        omega (arith, fits, len, name),
        omega (arith, inside, len),
        subst (λ n. Block disk' finish (a + n) ps) (sym len) block,
      ),
      ap₂ ◌∷◌
          (ap (entry_at disk') at ∙ entry_at-Same disk disk' a here ∙ ap (entry_at disk) (sym at))
          list,
    )

Inserted-later :
    {A : Type 0} (x y y' : A) (xs ys : List A)
    → y' ≡ y
    → Inserted x xs ys
    → Inserted x (y ∷ xs) (y' ∷ ys)
Inserted-later x y y' xs ys e i = record {
  front = y ∷ i.front;
  back = i.back;
  before = ap (λ l. y ∷ l) i.before;
  after = ap₂ ◌∷◌ e i.after;
}

module _ (disk : Memory) (finish inode : ℕ) (name : List ℕ) (mode : ℕ)
    (bytes : (a : ℕ) → disk a < 256) (plain : mode ≢ ft_symlink) (short : length name < 256)
    (low : inode < 2 ^ 32) (small : mode < 256) where
  abbrev pub new : DirEntry
  new = record { name = name; inode = inode; type = mode }

  -- The entry at `pos` has room.
  module _ (pos : ℕ) (ps : List ℕ) (fits : 8 + name_len disk pos ≤ rec_len disk pos)
      (inside : pos + rec_len disk pos ≤ finish)
      (rest : Block disk finish (pos + rec_len disk pos) ps)
      (room : dir_size disk pos + total_size name mode ≤ rec_len disk pos) where
    abbrev at : ℕ
    at = pos + dir_size disk pos

    abbrev free : ℕ
    free = rec_len disk pos - dir_size disk pos

    abbrev disk' : Memory
    disk' = written disk pos at (dir_size disk pos) free inode mode name

    size : (8 + name_len disk pos < dir_size disk pos) × (dir_size disk pos < 2 ^ 16)
    size = size-bounds disk pos inode name mode bytes plain room

    total : 18 + length name < total_size name mode
    total = total-bounds disk pos inode name mode bytes plain room

    apart : pos + 6 ≤ at
    apart = omega (arith, size)

    untouched :
        (k : ℕ)
        → (k < pos + 4) ⊎ (((pos + 6 ≤ k) × (k < at)) ⊎ (at + 9 + length name ≤ k))
        → disk' k ≡ disk k
    untouched = written_out disk pos at (dir_size disk pos) free inode mode name apart

    cut : rec_len disk' pos ≡ dir_size disk pos
    cut = written-cut disk pos at (dir_size disk pos) free inode mode name apart size.1

    left : rec_len disk' at ≡ free
    left =
        let b = bytes (pos + 4) in
        let c = bytes (suc (pos + 4)) in
        written-rest disk pos at (dir_size disk pos) free inode mode name apart
          (omega (arith, b, c))

    called : name_len disk' at ≡ length name
    called = written-named disk pos at (dir_size disk pos) free inode mode name apart short

    first_kept : (entry_at disk' pos ≡ entry_at disk pos) × (name_len disk' pos ≡ name_len disk pos)
    first_kept =
        let number : Same pos (pos + 4) disk disk' = λ k from to. untouched k (inl to) in
        let text : Same (pos + 6) (pos + (8 + name_len disk pos)) disk disk' =
          λ k from to. untouched k (inr (inl (from, omega (arith, size)))) in
        (entry_at-Kept disk disk' pos number text, name_len-Kept disk disk' pos number text)

    written-new : entry_at disk' at ≡ new
    written-new =
        DirEntry_eq
          (written-spelled disk pos at (dir_size disk pos) free inode mode name apart short)
          (written-numbered disk pos at (dir_size disk pos) free inode mode name apart low)
          (written-typed disk pos at (dir_size disk pos) free inode mode name apart small)

    following : Block disk' finish (at + free) ps × (listing disk' ps ≡ listing disk ps)
    following =
        let same : at + free ≡ pos + rec_len disk pos = omega (arith, total) in
        let (block, list) =
          Block-Same disk disk' finish (pos + rec_len disk pos) ps rest
            (λ k from to. untouched k (inr (inr (omega (arith, total))))) in
        (subst (λ a. Block disk' finish a ps) (sym same) block, list)

    behind : Block disk' finish at (at ∷ ps)
    behind = (
      refl,
      omega (arith, total, left, called),
      omega (arith, total, left, inside),
      subst (λ n. Block disk' finish (at + n) ps) (sym left) following.0,
    )

    pub split-Grown : Grown disk finish pos (pos ∷ ps) new (split_entry inode name mode pos disk)
    split-Grown = rw (split_entry-written disk pos inode name mode bytes plain room) record {
      entries = pos ∷ at ∷ ps;
      block = (
        refl,
        omega (arith, size, cut, first_kept.1),
        omega (arith, total, inside, cut),
        subst (λ n. Block disk' finish (pos + n) (at ∷ ps)) (sym cut) behind,
      );
      more = omega arith;
      inserted = record {
        front = entry_at disk pos ∷ [];
        back = listing disk ps;
        before = refl;
        after = ap₂ ◌∷◌ first_kept.0 (ap₂ ◌∷◌ written-new following.1);
      };
      outside = λ k out. untouched k (ground (arith, total, inside, size));
    }

  -- The entry at `pos` has no room, and a later one has.
  pub later-Grown :
      (pos : ℕ) (ps : List ℕ) (disk' : Memory)
      → Block disk finish pos (pos ∷ ps)
      → Grown disk finish (pos + rec_len disk pos) ps new disk'
      → Grown disk finish pos (pos ∷ ps) new disk'
  later-Grown pos ps disk' (_, fits, inside, rest) g =
      let here : Same pos (pos + (8 + name_len disk pos)) disk disk' =
        λ k from to. g.outside k (inl (omega arith)) in
      let len = rec_len-Same disk disk' pos here in
      let called = name_len-Same disk disk' pos here in
      record {
        entries = pos ∷ g.entries;
        block = (
          refl,
          omega (arith, fits, len, called),
          omega (arith, inside, len),
          subst (λ n. Block disk' finish (pos + n) g.entries) (sym len) g.block,
        );
        more = omega (arith, g.more);
        inserted =
            Inserted-later new (entry_at disk pos) (entry_at disk' pos) (listing disk ps)
              (listing disk' g.entries) (entry_at-Same disk disk' pos here) g.inserted;
        outside = λ k out. g.outside k (ground arith);
      }
