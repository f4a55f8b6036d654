-- ===== src/Ext2/Lookup.antt =====
-- What a name is among the entries of a directory, and a step of `traverse` against it.
use cscc.Prelude.{
  ℕ, ◌+◌, ◌*◌, ◌≡◌, ◌≢◌, ◌⊎◌, inl, inr, refl, sym, ap, ap₂, ◌∙◌, arith, Bool, true, false,
  Bool-cases, Option, none, some, List, [], ◌∷◌, if◌then◌else◌, Memory,
}
use cscc.Ext2.Blocks.{block_size}
use cscc.Ext2.Directory.{
  Search, found, missing, endless, fault, scan_block, is_home, is_named, entry_inode,
}
use cscc.Ext2.Blocks.{disk_size}
use cscc.Ext2.Search.{First, name_at, entry_of, is_named-name_at, scan-First}
use cscc.Ext2.Run.{Run, done, loops, crash}
use cscc.Ext2.Traverse.{same_string, step_in}
use cscc.Ext2.Create.Bytes.{DirEntry, entry_at, listing, Block-Entries, Block-length}
use cscc.Ext2.Create.Dirs.{Holds, DirBlocks}

pub same_string_refl : (s : List ℕ) → same_string s s ≡ true
unfolding same_string
same_string_refl [] = refl
same_string_refl (c ∷ s) = ground (arith, same_string_refl s)

same_string_eq : (s t : List ℕ) → same_string s t ≡ true → s ≡ t
unfolding same_string
same_string_eq [] [] h = refl
same_string_eq [] (d ∷ t) h = cc
same_string_eq (c ∷ s) [] h = cc
same_string_eq (c ∷ s) (d ∷ t) h =
    let e : c ≡ d = ground (arith, h) in
    let rest : same_string s t ≡ true = ground (arith, h) in ap₂ ◌∷◌ e (same_string_eq s t rest)

same_string_ne : (s t : List ℕ) → s ≢ t → same_string s t ≡ false
same_string_ne s t ne = elim (Bool-cases (same_string s t)) [
  | inl h ↦ absurd (ne (same_string_eq s t h))
  | inr h ↦ h
]

-- The first entry of a name.
abbrev pub first_named : (s : List ℕ) → List DirEntry → Option DirEntry
first_named s [] = none
first_named s (e ∷ es) =
    let rest = first_named s es in if same_string e.name s then some e else rest

-- The entry of the name in the directory of an inode.
abbrev pub lookup :
    Memory → (dirs : List ℕ) → List (List ℕ) → (inode : ℕ) (s : List ℕ) → Option DirEntry
lookup disk [] blocks inode s = none
lookup disk (b ∷ dirs) [] inode s = none
lookup disk (b ∷ dirs) (ps ∷ blocks) inode s =
    let rest = lookup disk dirs blocks inode s in
    if is_home disk inode b
    then (elim (first_named s (listing disk ps)) [ none ↦ rest | some e ↦ some e ])
    else rest

-- What a search for a name has found, as an entry.
abbrev Named : Memory → Search (ℕ × ℕ) → Option DirEntry → Type 0
Named disk r o =
    ((r ≡ missing) × (o ≡ none)) ⊎ ((q : ℕ × ℕ) × (r ≡ found q) × (o ≡ some (entry_at disk q.1)))

found_inj : {a b : ℕ} → ◌≡◌ {A = Search ℕ} (found a) (found b) → a ≡ b
found_inj h = cc

First-Named :
    (disk : Memory) (s ps : List ℕ) (r : Search (ℕ × ℕ))
    → First disk s ps (entry_of r)
    → Named disk r (first_named s (listing disk ps))
First-Named disk s [] (found q) h = cc
First-Named disk s [] missing h = inl (refl, refl)
First-Named disk s [] endless h = cc
First-Named disk s [] fault h = cc
First-Named disk s (p ∷ ps) (found q) (inl (same, at)) =
    rw (ap (λ n. same_string n s) same ∙ same_string_refl s)
      (inr (q, refl, ap (λ p. some (entry_at disk p)) (sym (found_inj at))))
First-Named disk s (p ∷ ps) missing (inl (same, at)) = cc
First-Named disk s (p ∷ ps) endless (inl (same, at)) = cc
First-Named disk s (p ∷ ps) fault (inl (same, at)) = cc
First-Named disk s (p ∷ ps) r (inr (other, later)) =
    rw (same_string_ne (name_at disk p) s other) (First-Named disk s ps r later)

scan_block-Named :
    (disk : Memory) (s : List ℕ) (b : ℕ) (ps : List ℕ)
    → Holds disk b ps
    → Named disk (scan_block disk s b) (first_named s (listing disk ps))
scan_block-Named disk s b [] h = absurd (omega (arith, h))
scan_block-Named disk s b (p ∷ ps) h =
    let finish = b * block_size + block_size in
    First-Named disk s (p ∷ ps) (scan_block disk s b) (
      scan-First disk s disk_size (b * block_size) (b * block_size) (p ∷ ps)
        (Block-Entries disk finish (b * block_size) p ps (omega arith) (omega arith) h)
        (omega (arith, Block-length disk finish (b * block_size) (p ∷ ps) h)))

is_named-same :
    (disk : Memory) (s : List ℕ) (p : ℕ) → is_named disk s p ≡ same_string (name_at disk p) s
is_named-same disk s p = elim (is_named-name_at disk s p) [
  | inl (t, same) ↦ t ∙ sym (ap (λ n. same_string n s) same ∙ same_string_refl s)
  | inr (f, ne) ↦ f ∙ sym (same_string_ne (name_at disk p) s ne)
]

-- What the walk does with an entry.
abbrev pub follow : (filename : List ℕ) → (ℕ → Run ℕ) → Option DirEntry → Run ℕ
follow filename next none = done 0
follow filename next (some e) = if same_string e.name filename then done e.inode else next e.inode

-- A search in a block of the directory, with what the other blocks give.
arrive :
    (disk : Memory) (filename : List ℕ) (next : ℕ → Run ℕ) (r : Search (ℕ × ℕ))
    (o : Option DirEntry) (others : Run ℕ) (later : Option DirEntry)
    → Named disk r o
    → others ≡ follow filename next later
    → (elim r as (λ _. Run ℕ) [
      | found q ↦
          if is_named disk filename q.1
          then done (entry_inode disk q.1)
          else next (entry_inode disk q.1)
      | missing ↦ others
      | endless ↦ loops
      | fault ↦ crash
    ])
      ≡ follow filename next (elim o as (λ _. Option DirEntry) [ none ↦ later | some e ↦ some e ])
arrive disk filename next r o others later (inl (e, e')) rest = rw (e, e') rest
arrive disk filename next r o others later (inr (q, e, e')) rest =
    rw (e, e')
      (ap (λ b. if b then done (entry_inode disk q.1) else next (entry_inode disk q.1))
        (is_named-same disk filename q.1))

pub step_in-follow :
    (disk : Memory) (s filename : List ℕ) (next : ℕ → Run ℕ) (dirs : List ℕ)
    (blocks : List (List ℕ)) (inode : ℕ)
    → DirBlocks disk dirs blocks
    → step_in disk (some s) filename next dirs inode
      ≡ follow filename next (lookup disk dirs blocks inode s)
unfolding step_in
step_in-follow disk s filename next [] [] inode good = refl
step_in-follow disk s filename next [] (ps ∷ blocks) inode good = elim good [ ]
step_in-follow disk s filename next (b ∷ dirs) [] inode good = elim good [ ]
step_in-follow disk s filename next (b ∷ dirs) (ps ∷ blocks) inode (here, more) =
    let rest = step_in-follow disk s filename next dirs blocks inode more in
    elim (Bool-cases (is_home disk inode b)) [
      | inl home ↦ rw home (
          arrive disk filename next (scan_block disk s b) (first_named s (listing disk ps))
            (step_in disk (some s) filename next dirs inode) (lookup disk dirs blocks inode s)
            (scan_block-Named disk s b ps here) rest)
      | inr away ↦ rw away rest
    ]

some_inj : {x e : DirEntry} → ◌≡◌ {A = Option DirEntry} (some x) (some e) → x ≡ e
some_inj h = cc

-- What a choice gives comes from one of the two.
chosen :
    (b : Bool) (x e : DirEntry) (rest : Option DirEntry)
    → (if b then some x else rest) ≡ some e
    → ((b ≡ true) × (x ≡ e)) ⊎ (rest ≡ some e)
chosen true x e rest h = inl (refl, some_inj h)
chosen false x e rest h = inr h

chosen_dir :
    (b : Bool) (o rest : Option DirEntry) (e : DirEntry)
    → (if b then (elim o as (λ _. Option DirEntry) [ none ↦ rest | some e ↦ some e ]) else rest)
      ≡ some e
    → (o ≡ some e) ⊎ (rest ≡ some e)
chosen_dir true none rest e h = inr h
chosen_dir true (some x) rest e h = inl h
chosen_dir false o rest e h = inr h

-- What is found by a name has the name.
first_named-name :
    (s : List ℕ) (es : List DirEntry) (e : DirEntry) → first_named s es ≡ some e → e.name ≡ s
first_named-name s [] e h = cc
first_named-name s (x ∷ es) e h = elim (chosen (same_string x.name s) x e (first_named s es) h) [
  | inl (same, is) ↦ ap (λ (e : DirEntry). e.name) (sym is) ∙ same_string_eq x.name s same
  | inr later ↦ first_named-name s es e later
]

pub lookup-name :
    (disk : Memory) (dirs : List ℕ) (blocks : List (List ℕ)) (inode : ℕ) (s : List ℕ) (e : DirEntry)
    → lookup disk dirs blocks inode s ≡ some e
    → e.name ≡ s
lookup-name disk [] blocks inode s e h = cc
lookup-name disk (b ∷ dirs) [] inode s e h = cc
lookup-name disk (b ∷ dirs) (ps ∷ blocks) inode s e h =
    elim (chosen_dir (is_home disk inode b) (first_named s (listing disk ps))
      (lookup disk dirs blocks inode s) e h) [
        | inl here ↦ first_named-name s (listing disk ps) e here
        | inr later ↦ lookup-name disk dirs blocks inode s e later
      ]
