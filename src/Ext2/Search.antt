-- ===== src/Ext2/Search.antt =====
-- The searches for an entry, on directory blocks that are well formed.
use cscc.Prelude.{
  ℕ, zero, suc, ◌+◌, ◌*◌, ◌%◌, ◌≡◌, ◌≢◌, ◌≤◌, arith, refl, ap, ◌∙◌, true, false, ◌==◌, List, [],
  ◌∷◌, ◌++◌, length, if◌then◌else◌, inl, inr, ◌⊎◌, Memory, load, sym, ap₂, subst,
}
use native.Mathlib.Decide.{ℕ_discrete}
use cscc.Ext2.Blocks.{block_size}
use cscc.Ext2.Directory.{
  Search, found, missing, endless, fault, strncmp_eq, is_named, rec_len, name_len, scan, find_in,
  find_dir_entry,
}
use cscc.Ext2.Blocks.{disk_size}

-- The name of the entry at `p`.
abbrev pub name_at : Memory → (p : ℕ) → List ℕ
name_at disk p = load disk (name_len disk p) (p + 8)

-- `ps` are the entries from `pos` to the end of the block.
abbrev pub Entries : Memory → (pos : ℕ) → (ps : List ℕ) → Type 0
Entries disk pos [] = ⊥
Entries disk pos (p ∷ []) = (p ≡ pos) × (((pos + rec_len disk pos) % block_size == 0) ≡ true)
Entries disk pos (p ∷ q ∷ ps) =
    (p ≡ pos)
    × (((pos + rec_len disk pos) % block_size == 0) ≡ false)
    × Entries disk (pos + rec_len disk pos) (q ∷ ps)

-- `r` is the first of the entries `ps` that has the name `s`.
abbrev pub First : Memory → (s ps : List ℕ) → Search ℕ → Type 0
First disk s [] r = r ≡ missing
First disk s (p ∷ ps) r =
    ((name_at disk p ≡ s) × (r ≡ found p)) ⊎ ((name_at disk p ≢ s) × First disk s ps r)

cons_inj : {x y : ℕ} {xs ys : List ℕ} → ◌≡◌ {A = List ℕ} (x ∷ xs) (y ∷ ys) → xs ≡ ys
cons_inj h = cc

head_inj : {x y : ℕ} {xs ys : List ℕ} → ◌≡◌ {A = List ℕ} (x ∷ xs) (y ∷ ys) → x ≡ y
head_inj h = cc

-- The comparison over the length of the string is equality.
strncmp_eq-load :
    (disk : Memory) (s : List ℕ) (a : ℕ)
    → ((strncmp_eq (length s) s disk a ≡ true) × (load disk (length s) a ≡ s))
      ⊎ ((strncmp_eq (length s) s disk a ≡ false) × (load disk (length s) a ≢ s))
unfolding strncmp_eq
strncmp_eq-load disk [] a = inl (refl, refl)
strncmp_eq-load disk (c ∷ s) a = elim (ℕ_discrete c (disk a)) [
  | yes e ↦ elim (strncmp_eq-load disk s (suc a)) [
    | inl (t, l) ↦ inl (ground arith, ap₂ ◌∷◌ (sym e) l)
    | inr (f, ne) ↦ inr (ground arith, λ h. ne (cons_inj h))
  ]
  | no n ↦ inr (ground arith, λ h. n (sym (head_inj h)))
]

length-load : (disk : Memory) (n a : ℕ) → length (load disk n a) ≡ n
length-load disk zero a = refl
length-load disk (suc n) a = omega (arith, length-load disk n (suc a))

pub is_named-name_at :
    (disk : Memory) (s : List ℕ) (p : ℕ)
    → ((is_named disk s p ≡ true) × (name_at disk p ≡ s))
      ⊎ ((is_named disk s p ≡ false) × (name_at disk p ≢ s))
is_named-name_at disk s p = elim (ℕ_discrete (length s) (name_len disk p)) [
  | yes e ↦ rw (← e) (elim (strncmp_eq-load disk s (p + 8)) [
    | inl (t, l) ↦ inl (ground arith, l)
    | inr (f, ne) ↦ inr (ground arith, ne)
  ])
  | no n ↦
      inr (ground arith, λ h. n (ap length (sym h) ∙ length-load disk (name_len disk p) (p + 8)))
]

-- The address in what `scan` finds.
abbrev pub entry_of : Search (ℕ × ℕ) → Search ℕ
entry_of (found r) = found (r.1)
entry_of missing = missing
entry_of endless = endless
entry_of fault = fault

First-choose :
    (disk : Memory) (s : List ℕ) (pre pos p : ℕ) (ps : List ℕ) (r : Search (ℕ × ℕ))
    → p ≡ pos
    → First disk s ps (entry_of r)
    → First disk s (p ∷ ps) (entry_of (if is_named disk s pos then found (pre, pos) else r))
First-choose disk s pre pos p ps r at later = elim (is_named-name_at disk s pos) [
  | inl (t, same) ↦ rw t (inl (ap (name_at disk) at ∙ same, ap (λ (v : ℕ). found v) (sym at)))
  | inr (f, ne) ↦ rw f (inr (λ same. ne (ap (name_at disk) (sym at) ∙ same), later))
]

-- The search through a block comes to its end, with the first entry of the name.
pub scan-First :
    (disk : Memory) (s : List ℕ) (fuel pre pos : ℕ) (ps : List ℕ)
    → Entries disk pos ps
    → length ps ≤ fuel
    → First disk s ps (entry_of (scan disk s fuel pre pos))
unfolding scan
scan-First disk s fuel pre pos [] h lt = elim h [ ]
scan-First disk s zero pre pos (p ∷ ps) h lt = absurd (omega arith)
scan-First disk s (suc fuel) pre pos (p ∷ []) (at, end) lt =
    First-choose disk s pre pos p []
      (if (pos + rec_len disk pos) % block_size == 0
        then missing
        else scan disk s fuel pos (pos + rec_len disk pos))
      at (rw end refl)
scan-First disk s (suc fuel) pre pos (p ∷ q ∷ ps) (at, more, rest) lt =
    let later = scan-First disk s fuel pos (pos + rec_len disk pos) (q ∷ ps) rest (omega arith) in
    First-choose disk s pre pos p (q ∷ ps)
      (if (pos + rec_len disk pos) % block_size == 0
        then missing
        else scan disk s fuel pos (pos + rec_len disk pos))
      at (rw more later)

-- The blocks of `dirs` have these entries, no more than an image can hold.
abbrev pub AllEntries : Memory → (dirs : List ℕ) → List (List ℕ) → Type 0
AllEntries disk [] [] = Unit
AllEntries disk (block ∷ dirs) (ps ∷ blocks) =
    Entries disk (block * block_size) ps × (length ps ≤ disk_size) × AllEntries disk dirs blocks
AllEntries disk _ _ = ⊥

abbrev pub concat : List (List ℕ) → List ℕ
concat [] = []
concat (ps ∷ blocks) = ps ++ concat blocks

abbrev next_block : Search (ℕ × ℕ) → Search (ℕ × ℕ) → Search (ℕ × ℕ)
next_block (found r) rest = found r
next_block missing rest = rest
next_block endless rest = endless
next_block fault rest = fault

hit :
    {p : ℕ} (r rest : Search (ℕ × ℕ))
    → entry_of r ≡ found p
    → entry_of (next_block r rest) ≡ found p
hit (found q) rest e = e
hit missing rest e = cc
hit endless rest e = e
hit fault rest e = e

First-append :
    (disk : Memory) (s ps qs : List ℕ) (r rest : Search (ℕ × ℕ))
    → First disk s ps (entry_of r)
    → First disk s qs (entry_of rest)
    → First disk s (ps ++ qs) (entry_of (next_block r rest))
First-append disk s [] qs (found r) rest h g = cc
First-append disk s [] qs missing rest h g = g
First-append disk s [] qs endless rest h g = cc
First-append disk s [] qs fault rest h g = cc
First-append disk s (p ∷ ps) qs r rest (inl (same, here)) g = inl (same, hit r rest here)
First-append disk s (p ∷ ps) qs r rest (inr (ne, later)) g =
    inr (ne, First-append disk s ps qs r rest later g)

next_block-elim :
    (r rest : Search (ℕ × ℕ))
    → next_block r rest
      ≡ (elim r [ found q ↦ found q | missing ↦ rest | endless ↦ endless | fault ↦ fault ])
next_block-elim (found q) rest = refl
next_block-elim missing rest = refl
next_block-elim endless rest = refl
next_block-elim fault rest = refl

entry_of-elim :
    (r : Search (ℕ × ℕ))
    → entry_of r
      ≡ (elim r [ found q ↦ found q.1 | missing ↦ missing | endless ↦ endless | fault ↦ fault ])
entry_of-elim (found q) = refl
entry_of-elim missing = refl
entry_of-elim endless = refl
entry_of-elim fault = refl

find_in-First :
    (disk : Memory) (s dirs : List ℕ) (blocks : List (List ℕ))
    → AllEntries disk dirs blocks
    → First disk s (concat blocks) (entry_of (find_in disk s dirs))
unfolding find_in
find_in-First disk s [] [] h = refl
find_in-First disk s [] (ps ∷ blocks) h = elim h [ ]
find_in-First disk s (block ∷ dirs) [] h = elim h [ ]
find_in-First disk s (block ∷ dirs) (ps ∷ blocks) (here, fits, more) =
    let r = scan disk s disk_size (block * block_size) (block * block_size) in
    let rest = find_in disk s dirs in
    subst (λ (t : Search (ℕ × ℕ)). First disk s (ps ++ concat blocks) (entry_of t))
      (next_block-elim r rest)
      (First-append disk s ps (concat blocks) r rest
        (scan-First disk s disk_size (block * block_size) (block * block_size) ps here fits)
        (find_in-First disk s dirs blocks more))

-- On directory blocks whose entries lead from one to the next up to the end of the block,
-- `find_dir_entry` ends, and finds the first entry, in the order of `dirs`, whose name is the string,
-- or null where no entry has that name.
pub find_dir_entry-First :
    (disk : Memory) (dirs s : List ℕ) (blocks : List (List ℕ))
    → AllEntries disk dirs blocks
    → First disk s (concat blocks) (find_dir_entry disk dirs s)
unfolding find_dir_entry
find_dir_entry-First disk dirs s blocks h =
    subst (λ (t : Search ℕ). First disk s (concat blocks) t) (entry_of-elim (find_in disk s dirs))
      (find_in-First disk s dirs blocks h)
