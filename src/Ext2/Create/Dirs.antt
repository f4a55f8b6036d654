-- ===== src/Ext2/Create/Dirs.antt =====
-- The directory blocks of an image together, where one of them has an entry more.
use cscc.Prelude.{
  ℕ, ◌+◌, ◌*◌, ◌≡◌, ◌≢◌, ◌≤◌, ◌<◌, ◌⊎◌, inl, inr, arith, refl, ap, ap₂, ◌∙◌, sym, subst, List, [],
  ◌∷◌, ◌++◌, Memory,
}
use cscc.Ext2.Blocks.{block_size}
use cscc.Ext2.Directory.{Search, found}
use cscc.Ext2.Search.{First, AllEntries, concat}
use cscc.Ext2.Create.Bytes.{DirEntry, entry_at, listing, Block, Block-Entries, Block-length}
use cscc.Ext2.Create.Grown.{Inserted, Block-Same}

-- The entries of the directory block with number `b`.
abbrev pub Holds : Memory → (b : ℕ) → List ℕ → Type 0
Holds disk b ps = Block disk (b * block_size + block_size) (b * block_size) ps

-- The blocks of `dirs` are well formed, with these entries.
abbrev pub DirBlocks : Memory → (dirs : List ℕ) → List (List ℕ) → Type 0
DirBlocks disk [] [] = Unit
DirBlocks disk (b ∷ dirs) (ps ∷ blocks) = Holds disk b ps × DirBlocks disk dirs blocks
DirBlocks disk _ _ = ⊥

-- No entry has the name.
abbrev pub Absent : (name : List ℕ) → List DirEntry → Type 0
Absent name [] = Unit
Absent name (e ∷ es) = (e.name ≢ name) × Absent name es

-- The block is not in the list.
abbrev pub Elsewhere : (b : ℕ) → List ℕ → Type 0
Elsewhere b [] = Unit
Elsewhere b (c ∷ dirs) = (c ≢ b) × Elsewhere b dirs

-- `ps` are the entries of block `b`, which is in `dirs` once.
abbrev pub Once : (b : ℕ) (ps : List ℕ) → List ℕ → List (List ℕ) → Type 0
Once b ps [] blocks = ⊥
Once b ps (c ∷ dirs) [] = ⊥
Once b ps (c ∷ dirs) (qs ∷ blocks) =
    ((c ≡ b) × (qs ≡ ps) × Elsewhere b dirs) ⊎ ((c ≢ b) × Once b ps dirs blocks)

pub Once-Holds :
    (disk : Memory) (b : ℕ) (ps dirs : List ℕ) (blocks : List (List ℕ))
    → DirBlocks disk dirs blocks
    → Once b ps dirs blocks
    → Holds disk b ps
Once-Holds disk b ps [] blocks good once = elim once [ ]
Once-Holds disk b ps (c ∷ dirs) [] good once = elim once [ ]
Once-Holds disk b ps (c ∷ dirs) (qs ∷ blocks) (here, more) (inl (at, is, others)) =
    subst (λ ps. Holds disk b ps) is (subst (λ c. Holds disk c qs) at here)
Once-Holds disk b ps (c ∷ dirs) (qs ∷ blocks) (here, more) (inr (differs, once)) =
    Once-Holds disk b ps dirs blocks more once

listing-append :
    (disk : Memory) (ps qs : List ℕ) → listing disk (ps ++ qs) ≡ listing disk ps ++ listing disk qs
listing-append disk [] qs = refl
listing-append disk (p ∷ ps) qs = ap (λ l. entry_at disk p ∷ l) (listing-append disk ps qs)

append_assoc : (xs ys zs : List DirEntry) → (xs ++ ys) ++ zs ≡ xs ++ (ys ++ zs)
append_assoc [] ys zs = refl
append_assoc (x ∷ xs) ys zs = ap (λ l. x ∷ l) (append_assoc xs ys zs)

Inserted-append :
    (x : DirEntry) (xs ys zs : List DirEntry) → Inserted x xs ys → Inserted x (xs ++ zs) (ys ++ zs)
Inserted-append x xs ys zs i = record {
  front = i.front;
  back = i.back ++ zs;
  before = ap (λ l. l ++ zs) i.before ∙ append_assoc i.front i.back zs;
  after = ap (λ l. l ++ zs) i.after ∙ append_assoc i.front (x ∷ i.back) zs;
}

Inserted-prepend :
    (x : DirEntry) (zs xs ys : List DirEntry) → Inserted x xs ys → Inserted x (zs ++ xs) (zs ++ ys)
Inserted-prepend x zs xs ys i = record {
  front = zs ++ i.front;
  back = i.back;
  before = ap (λ l. zs ++ l) i.before ∙ sym (append_assoc zs i.front i.back);
  after = ap (λ l. zs ++ l) i.after ∙ sym (append_assoc zs i.front (x ∷ i.back));
}

Inserted-along :
    {x : DirEntry} {xs xs' ys ys' : List DirEntry}
    → xs' ≡ xs
    → ys' ≡ ys
    → Inserted x xs ys
    → Inserted x xs' ys'
Inserted-along e e' i = record {
  front = i.front;
  back = i.back;
  before = e ∙ i.before;
  after = e' ∙ i.after;
}

pub DirBlocks-AllEntries :
    (disk : Memory) (dirs : List ℕ) (blocks : List (List ℕ))
    → DirBlocks disk dirs blocks
    → AllEntries disk dirs blocks
DirBlocks-AllEntries disk [] [] h = tt
DirBlocks-AllEntries disk [] (ps ∷ blocks) h = elim h [ ]
DirBlocks-AllEntries disk (b ∷ dirs) [] h = elim h [ ]
DirBlocks-AllEntries disk (b ∷ dirs) ([] ∷ blocks) (here, more) = absurd (omega (arith, here))
DirBlocks-AllEntries disk (b ∷ dirs) ((p ∷ ps) ∷ blocks) (here, more) =
    let finish = b * block_size + block_size in
    (
      Block-Entries disk finish (b * block_size) p ps (omega arith) (omega arith) here,
      omega (arith, Block-length disk finish (b * block_size) (p ∷ ps) here),
      DirBlocks-AllEntries disk dirs blocks more,
    )

cons_split :
    {x y : DirEntry} {xs ys : List DirEntry}
    → ◌≡◌ {A = List DirEntry} (x ∷ xs) (y ∷ ys)
    → (x ≡ y) × (xs ≡ ys)
cons_split h = (cc, cc)

-- The first entry of a name, where the entries before it have others.
pub First-found :
    (disk : Memory) (s ps : List ℕ) (r : Search ℕ) (front back : List DirEntry) (x : DirEntry)
    → First disk s ps r
    → listing disk ps ≡ front ++ (x ∷ back)
    → x.name ≡ s
    → Absent s front
    → (a : ℕ) × (r ≡ found a) × (entry_at disk a ≡ x)
First-found disk s [] r [] back x h e is none_before = cc
First-found disk s [] r (y ∷ front) back x h e is none_before = cc
First-found disk s (p ∷ ps) r [] back x (inl (_, at)) e is none_before = (p, at, (cons_split e).0)
First-found disk s (p ∷ ps) r [] back x (inr (other, later)) e is none_before =
    absurd (other (ap (λ (e : DirEntry). e.name) (cons_split e).0 ∙ is))
First-found disk s (p ∷ ps) r (y ∷ front) back x (inl (same, at)) e is none_before =
    absurd (none_before.0 (sym (ap (λ (e : DirEntry). e.name) (cons_split e).0) ∙ same))
First-found disk s (p ∷ ps) r (y ∷ front) back x (inr (other, later)) e is (differs, none_before) =
    First-found disk s ps r front back x later (cons_split e).1 is none_before

pub Absent-front : (s : List ℕ) (xs ys : List DirEntry) → Absent s (xs ++ ys) → Absent s xs
Absent-front s [] ys h = tt
Absent-front s (x ∷ xs) ys (differs, rest) = (differs, Absent-front s xs ys rest)

module _ (disk disk' : Memory) (b : ℕ)
    (outside : (k : ℕ)
      → (k < b * block_size) ⊎ (b * block_size + block_size ≤ k)
      → disk' k ≡ disk k) where
  other_block :
      (c : ℕ) (ps : List ℕ)
      → Holds disk c ps
      → c ≢ b
      → Holds disk' c ps × (listing disk' ps ≡ listing disk ps)
  other_block c ps here differs =
      Block-Same disk disk' (c * block_size + block_size) (c * block_size) ps here
        (λ k from to. outside k (ground (arith, differs)))

  both_kept :
      (ps qs : List ℕ)
      → listing disk' ps ≡ listing disk ps
      → listing disk' qs ≡ listing disk qs
      → listing disk' (ps ++ qs) ≡ listing disk (ps ++ qs)
  both_kept ps qs h g = listing-append disk' ps qs ∙ ap₂ ◌++◌ h g ∙ sym (listing-append disk ps qs)

  -- The other blocks say what they said.
  Elsewhere-kept :
      (dirs : List ℕ) (blocks : List (List ℕ))
      → DirBlocks disk dirs blocks
      → Elsewhere b dirs
      → DirBlocks disk' dirs blocks × (listing disk' (concat blocks) ≡ listing disk (concat blocks))
  Elsewhere-kept [] [] h e = (tt, refl)
  Elsewhere-kept [] (ps ∷ blocks) h e = elim h [ ]
  Elsewhere-kept (c ∷ dirs) [] h e = elim h [ ]
  Elsewhere-kept (c ∷ dirs) (ps ∷ blocks) (here, more) (differs, others) =
      let (block, list) = other_block c ps here differs in
      let (blocks', lists) = Elsewhere-kept dirs blocks more others in
      ((block, blocks'), both_kept ps (concat blocks) list lists)

  -- One block has an entry more, so the directories together have.
  pub Once-Inserted :
      (x : DirEntry) (ps new : List ℕ) (dirs : List ℕ) (blocks : List (List ℕ))
      → DirBlocks disk dirs blocks
      → Once b ps dirs blocks
      → Holds disk' b new
      → Inserted x (listing disk ps) (listing disk' new)
      → (blocks' : List (List ℕ)) × DirBlocks disk' dirs blocks'
        × Inserted x (listing disk (concat blocks)) (listing disk' (concat blocks'))
  Once-Inserted x ps new [] blocks h once holds i = elim once [ ]
  Once-Inserted x ps new (c ∷ dirs) [] h once holds i = elim once [ ]
  Once-Inserted x ps new (c ∷ dirs) (qs ∷ blocks) (here, more) (inl (at, is, others)) holds i =
      let (kept, list) = Elsewhere-kept dirs blocks more others in
      (
        new ∷ blocks,
        (subst (λ c. Holds disk' c new) (sym at) holds, kept),
        Inserted-along
            (ap (λ l. listing disk (l ++ concat blocks)) is
              ∙ listing-append disk ps (concat blocks))
            (listing-append disk' new (concat blocks) ∙ ap (λ l. listing disk' new ++ l) list)
            (Inserted-append x (listing disk ps) (listing disk' new) (listing disk (concat blocks))
              i),
      )
  Once-Inserted x ps new (c ∷ dirs) (qs ∷ blocks) (here, more) (inr (differs, once)) holds i =
      let (block, list) = other_block c qs here differs in
      let (blocks', kept, later) = Once-Inserted x ps new dirs blocks more once holds i in
      (
        qs ∷ blocks',
        (block, kept),
        Inserted-along (listing-append disk qs (concat blocks))
            (listing-append disk' qs (concat blocks')
              ∙ ap (λ l. l ++ listing disk' (concat blocks')) list)
            (Inserted-prepend x (listing disk qs) (listing disk (concat blocks))
              (listing disk' (concat blocks')) later),
      )
