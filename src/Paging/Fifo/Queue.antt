-- ===== src/Paging/Fifo/Queue.antt =====
-- The simulator with fifo.c implements first in, first out.
use cscc.Prelude.{
  Bool-cases, ◌^◌, ℕ, zero, suc, ◌+◌, ◌≡◌, ◌<◌, refl, sym, ap, ◌∙◌, arith, if◌then◌else◌, List, [],
  ◌∷◌, length, get_or, leb, update, Bool, true, false, Option, none, some, inl, inr, subst, ◌≤◌,
  ◌⊎◌,
}
use cscc.Swap.Bitmap.{Returns, Returns-map}
use cscc.Swap.Transfer.{FileCalls}
use cscc.Swap.RoundTrip.{IsFile}
use cscc.Paging.State.{Pointer, Frame, Sim}
use cscc.Paging.Policies.{fifo}
use cscc.Paging.Lookup.{pgdir_index, pgtbl_index, find_free, replay_trace}
use cscc.Paging.Serving.Mapped.{taken}
use cscc.Paging.Serving.Sound.{IsSound}
use cscc.Paging.Simulator.Replay.{InDirectory, Fits, accesses}
use cscc.Paging.Fifo.Place.{Place, place, admit, referenced}
use cscc.Paging.Fifo.Pages.{
  pte_is, holds, serve, pte_is-true, pte_is_refl, holds-taken, taken-holds, either, iff_eq,
}
use cscc.Paging.Fifo.Recent.{
  Loaded, origin, aged, admit-Loaded, back, back-lt, write_at, write_at-lt,
}
use cscc.Paging.Fifo.Refine.{Refined, replay_trace-Refined}

-- Whether a page is among the first `n` of a list.
abbrev recent : ℕ → Pointer → List Pointer → Bool
recent zero p pages = false
recent (suc n) p [] = false
recent (suc n) p (q ∷ pages) =
    let rest = recent n p pages in if pte_is p (some q) then true else rest

-- First in, first out, over the pages loaded so far: a page among the last `n` that were loaded is a
-- hit, and any other is loaded. The result has the number of hits.
abbrev first_out : (n : ℕ) → List (Option (ℕ × ℕ)) → List Pointer → ℕ × List Pointer
first_out n [] pages = (0, pages)
first_out n (none ∷ lines) pages = first_out n lines pages
first_out n (some (type, vaddr) ∷ lines) pages =
    let p : Pointer = (pgdir_index vaddr, pgtbl_index vaddr) in
    let hit = recent n p pages in
    let rest = first_out n lines (if hit then pages else p ∷ pages) in
    (rest.0 + (if hit then 1 else 0), rest.1)

choice : (b rest : Bool) → (if b then true else rest) ≡ true → (b ≡ true) ⊎ (rest ≡ true)
choice true rest h = inl refl
choice false rest h = inr h

some_inj : (q p : Pointer) → ◌≡◌ {A = Option Pointer} (some q) (some p) → q ≡ p
some_inj q p h = cc

recent_at :
    (n j : ℕ) (p : Pointer) (pages : List Pointer)
    → j < n
    → j < length pages
    → get_or pages j origin ≡ p
    → recent n p pages ≡ true
recent_at zero j p pages lt old h = absurd (omega arith)
recent_at (suc n) j p [] lt old h = absurd (omega arith)
recent_at (suc n) zero p (q ∷ pages) lt old h = rw h (rw (pte_is_refl p) refl)
recent_at (suc n) (suc j) p (q ∷ pages) lt old h =
    rw (recent_at n j p pages (omega arith) (omega arith) h) (either (pte_is p (some q)))

at_recent :
    (n : ℕ) (p : Pointer) (pages : List Pointer)
    → recent n p pages ≡ true
    → (j : ℕ) × (j < n) × (j < length pages) × (get_or pages j origin ≡ p)
at_recent zero p pages h = cc
at_recent (suc n) p [] h = cc
at_recent (suc n) p (q ∷ pages) h = elim (choice (pte_is p (some q)) (recent n p pages) h) [
  | inl here ↦ (0, omega arith, omega arith, some_inj q p (pte_is-true p (some q) here))
  | inr later ↦
      let (j, lt, old, is) = at_recent n p pages later in
      (suc j, omega (arith, lt), omega (arith, old), is)
]

-- The frames hold just the pages loaded last.
holds-recent :
    (p : Pointer) (pages : List Pointer) (x : Place)
    → Loaded pages x
    → holds x.size p x.frames ≡ recent x.size p pages
holds-recent p pages x l =
    iff_eq (holds x.size p x.frames) (recent x.size p pages)
      (λ h.
        let (f, lt, used, stands) = taken-holds x.size p x.frames h in
        let not_fresh : ¬ (length pages ≤ f) = λ fresh. cc (used, l.free f fresh lt) in
        let (j, inside, old, is) = aged pages x l f lt (omega (arith, not_fresh)) in
        recent_at x.size j p pages inside old
          (some_inj (get_or pages j origin) p (sym (ap (λ (c : Frame). c.pte) is) ∙ stands)))
      (λ h.
        let (j, inside, old, is) = at_recent x.size p pages h in
        let w = write_at (length pages) x in
        holds-taken x.size (back x.size w j) p x.frames
          (back-lt x.size w j (write_at-lt (length pages) x l.hand) inside)
          (l.stands j inside old ∙ ap (λ (q : Pointer). taken q) is))

admit_size : (p : Pointer) (x : Place) → (admit p x).size ≡ x.size
admit_size p x = go (find_free x.size 0 x.frames)
  where
    go :
        (o : Option ℕ)
        → (elim o as (λ _. Place) [
          | some f ↦ record x { frames = update x.frames f (taken p) }
          | none ↦ record {
            size = x.size;
            index = if leb x.size (x.index + 1) then 0 else x.index + 1;
            frames = update x.frames x.index (taken p);
          }
        ]).size
          ≡ x.size
    go (some f) = refl
    go none = refl

-- One reference, of a page that was loaded lately or not.
referenced-Loaded :
    (hit : Bool) (p : Pointer) (pages : List Pointer) (x : Place)
    → Loaded pages x
    → Loaded (if hit then pages else p ∷ pages) (referenced hit p x)
      × ((referenced hit p x).size ≡ x.size)
referenced-Loaded true p pages x l = (l, refl)
referenced-Loaded false p pages x l = (admit-Loaded pages x l p, admit_size p x)

-- There are no more hits than accesses.
first_out-le :
    (n : ℕ) (lines : List (Option (ℕ × ℕ))) (pages : List Pointer)
    → (first_out n lines pages).0 ≤ accesses lines
first_out-le n [] pages = omega arith
first_out-le n (none ∷ lines) pages = first_out-le n lines pages
first_out-le n (some (type, vaddr) ∷ lines) pages =
    elim (Bool-cases (recent n (pgdir_index vaddr, pgtbl_index vaddr) pages)) [
      | inl hit ↦ rw hit (omega (arith, first_out-le n lines pages))
      | inr miss ↦
          rw miss
            (omega (arith, first_out-le n lines ((pgdir_index vaddr, pgtbl_index vaddr) ∷ pages)))
    ]

-- A trace served by a coremap and a pointer is served first in, first out.
serve-first_out :
    (lines : List (Option (ℕ × ℕ))) (pages : List Pointer) (x : Place)
    → Loaded pages x
    → ((serve lines x).0 ≡ (first_out x.size lines pages).0)
      × Loaded (first_out x.size lines pages).1 (serve lines x).1
serve-first_out [] pages x l = (refl, l)
serve-first_out (none ∷ lines) pages x l = serve-first_out lines pages x l
serve-first_out (some (type, vaddr) ∷ lines) pages x l =
    let p : Pointer = (pgdir_index vaddr, pgtbl_index vaddr) in
    let hit = recent x.size p pages in
    let later = if hit then pages else p ∷ pages in
    let (loaded, size) = referenced-Loaded hit p pages x l in
    let rest = serve-first_out lines later (referenced hit p x) loaded in
    rw (holds-recent p pages x l) (
      ap (λ (k : ℕ). k + (if hit then 1 else 0))
          (rest.0 ∙ ap (λ n. (first_out n lines later).0) size),
      subst (λ n. Loaded (first_out n lines later).1 (serve lines (referenced hit p x)).1) size
          rest.1,
    )

module _ (calls : FileCalls) (h : IsFile calls) (memalign : ℕ → Bool)
    (enough : (n : ℕ) → memalign n ≡ true) where
  -- Over a regular swap file and with memory for the page tables, a trace of addresses whose directory
  -- index is below 4096, with so few accesses that the counters stay below 2^31, is replayed with FIFO
  -- to its end from every sound state whose frames hold the pages that were loaded last, of all `pages`
  -- loaded. Afterwards the frames again hold the pages loaded last, and the hits counted
  -- on the way are those of first in, first out: with `n` frames, a reference to one of the `n` pages
  -- loaded last is a hit, and any other loads its page. The number of hits is below 2^31.
  pub replay_trace-first_out :
      (lines : List (Option (ℕ × ℕ))) (pages : List Pointer) (s : Sim calls) (errors : ℕ)
      → InDirectory lines
      → Fits calls (accesses lines) s
      → IsSound calls s
      → Loaded pages (place calls s)
      → Returns
          (λ (r : ℕ × Sim calls).
            (r.1.hit_count ≡ s.hit_count + (first_out s.memsize lines pages).0)
            × Loaded (first_out s.memsize lines pages).1 (place calls r.1)
            × (r.1.hit_count < 2 ^ 31))
          (replay_trace calls (fifo calls) memalign lines s errors)
  replay_trace-first_out lines pages s errors low few v l =
      let (hits, loaded) = serve-first_out lines pages (place calls s) l in
      Returns-map (Refined calls lines s)
        (λ (r : ℕ × Sim calls).
          (r.1.hit_count ≡ s.hit_count + (first_out s.memsize lines pages).0)
          × Loaded (first_out s.memsize lines pages).1 (place calls r.1)
          × (r.1.hit_count < 2 ^ 31))
        (replay_trace calls (fifo calls) memalign lines s errors)
        (replay_trace-Refined calls h memalign enough lines s errors low v)
        (λ r done. (
          done.hits ∙ ap (λ k. s.hit_count + k) hits,
          subst (λ x. Loaded (first_out s.memsize lines pages).1 x) (sym done.after) loaded,
          omega (
            arith,
            few.1,
            done.hits ∙ ap (λ k. s.hit_count + k) hits,
            first_out-le s.memsize lines pages,
          ),
        ))
