-- ===== src/Paging/Serving/Sound.antt =====
-- The invariant of the simulator that every replacement algorithm relies on, and the interface of
-- such an algorithm.
use cscc.Prelude.{
  ℕ, ◌*◌, ◌^◌, ◌≡◌, ◌≢◌, ◌≤◌, ◌<◌, ◌⊎◌, inl, inr, refl, sym, ap, ◌∙◌, arith, subst, update,
}
use cscc.Prelude.{true, Option, none, some}
use native.Mathlib.Decide.{ℕ_discrete}
use cscc.Swap.Bitmap.{Run, ok, abort, ◌>>=◌, Returns}
use cscc.Swap.Slots.{IsValid}
use cscc.Swap.Transfer.{FileCalls, Store}
use cscc.Paging.State.{PgtblEntry, Pointer, Frame, Sim, fetch, adjust, Policy}
use cscc.Paging.Serving.Mapped.{Mapped, Written, Alike, Alike-refl, Mapped-Alike, Pointer-discrete}
use cscc.Paging.Reload.{fetch-adjust}

-- Frames are taken from the lowest, and the hand moves only when all are taken.
pub record Ready (n i : ℕ) (cm : ℕ → Frame) : Type 0 where
  pub hand : i < n
  pub lowest : (f g : ℕ) → f < n → g < f → (cm f).in_use ≡ true → (cm g).in_use ≡ true
  pub start : (i ≡ 0) ⊎ ((f : ℕ) → f < n → (cm f).in_use ≡ true)

-- Where some frame is in use, the one at the hand is.
pub Ready-hand :
    (n i f : ℕ) (cm : ℕ → Frame)
    → Ready n i cm
    → f < n
    → (cm f).in_use ≡ true
    → (cm i).in_use ≡ true
Ready-hand n i f cm r lt used = elim r.start [
  | inr full ↦ full i r.hand
  | inl first ↦ ap (λ k. (cm k).in_use) first ∙ (elim (ℕ_discrete f 0) [
    | yes same ↦ ap (λ k. (cm k).in_use) (sym same) ∙ used
    | no other ↦ r.lowest f 0 lt (omega arith) used
  ])
]

module _ (calls : FileCalls) where
  -- The memory has at most 2^20 frames, so that a frame number fits beside the status bits, and the
  -- offsets of all slots of the swap file fit an `int`.
  pub record IsSound (s : Sim calls) : Type 0 where
    pub size : s.memsize ≤ 2 ^ 20
    pub mapped : Mapped s.memsize (λ q. fetch calls q s) s.coremap
    pub ready : Ready s.memsize s.index s.coremap
    pub bitmap : IsValid s.store.swapmap
    pub slots : s.store.swapmap.nbits * 16 ≤ 2 ^ 31

  abbrev pub IsFilled : Sim calls → Type 0
  IsFilled s = (f : ℕ) → f < s.memsize → (s.coremap f).in_use ≡ true

  -- The counters of one state are those of the other.
  pub record Counted (s s' : Sim calls) : Type 0 where
    pub hits : s'.hit_count ≡ s.hit_count
    pub misses : s'.miss_count ≡ s.miss_count
    pub refs : s'.ref_count ≡ s.ref_count

  -- What a replacement algorithm may do to the simulator: move the hand, draw random numbers, and
  -- change the bits of entries that say nothing about where a page is.
  pub record Similar (s s' : Sim calls) : Type 0 where
    pub size : s'.memsize ≡ s.memsize
    pub coremap : s'.coremap ≡ s.coremap
    pub store : s'.store ≡ s.store
    pub counted : Counted s s'
    pub entries : (q : Pointer) → Alike (fetch calls q s) (fetch calls q s')

  -- The contract of a replacement algorithm. In a full memory it chooses a frame of the memory; a
  -- reference leaves the hand where it is.
  pub record IsPolicy (policy : Policy calls) : Type 0 where
    pub evicts :
        (s : Sim calls)
        → IsSound s
        → IsFilled s
        → Returns
            (λ (r : ℕ × Sim calls). (r.0 < s.memsize) × (r.1.index < s.memsize) × Similar s r.1)
            (policy.evict_fcn s)
    pub refers :
        (p : Pointer) (s : Sim calls)
        → IsSound s
        → (s.coremap s.index).in_use ≡ true
        → Returns (λ (s' : Sim calls). (s'.index ≡ s.index) × Similar s s') (policy.ref_fcn p s)

  Similar-Mapped :
      (s s' : Sim calls)
      → IsSound s
      → Similar s s'
      → Mapped s'.memsize (λ q. fetch calls q s') s'.coremap
  Similar-Mapped s s' v h =
      subst (λ n. Mapped n (λ q. fetch calls q s') s'.coremap) (sym h.size)
        (subst (λ cm. Mapped s.memsize (λ q. fetch calls q s') cm) (sym h.coremap)
          (Mapped-Alike v.mapped h.entries))

  -- A state that is similar to a sound one is sound, if the hand has not moved or the memory is full.
  pub Similar-IsSound :
      (s s' : Sim calls)
      → IsSound s
      → Similar s s'
      → Ready s.memsize s'.index s.coremap
      → IsSound s'
  Similar-IsSound s s' v h ready = record {
    size = omega (arith, v.size, h.size);
    mapped = Similar-Mapped s s' v h;
    ready =
        subst (λ n. Ready n s'.index s'.coremap) (sym h.size)
          (subst (Ready s.memsize s'.index) (sym h.coremap) ready);
    bitmap = subst (λ (st : Store calls). IsValid st.swapmap) (sym h.store) v.bitmap;
    slots = subst (λ (st : Store calls). st.swapmap.nbits * 16 ≤ 2 ^ 31) (sym h.store) v.slots;
  }

  pub Counted-trans : (s s' s'' : Sim calls) → Counted s s' → Counted s' s'' → Counted s s''
  Counted-trans s s' s'' h k = record {
    hits = k.hits ∙ h.hits;
    misses = k.misses ∙ h.misses;
    refs = k.refs ∙ h.refs;
  }

  -- What is read at another entry than the one that was changed.
  fetch-adjust_apart :
      (p q : Pointer) (g : PgtblEntry → PgtblEntry) (s : Sim calls)
      → q ≢ p
      → fetch calls q (adjust calls p g s) ≡ fetch calls q s
  fetch-adjust_apart (d, t) (d', t') g s apart = go (s.pgdir d) refl
    where
      go :
          (o : Option (ℕ → PgtblEntry))
          → s.pgdir d ≡ o
          → fetch calls (d', t') (adjust calls (d, t) g s) ≡ fetch calls (d', t') s
      go none h = ground arith
      go (some table) h = elim (ℕ_discrete d' d) [
        | yes same ↦ elim (ℕ_discrete t' t) [
          | yes equal ↦ absurd (apart (ground arith))
          | no other ↦ ground (arith, ap s.pgdir same)
        ]
        | no other ↦ ground arith
      ]

  pub adjust-Written :
      (p : Pointer) (g : PgtblEntry → PgtblEntry) (s : Sim calls) (e : PgtblEntry)
      → fetch calls p s ≡ ok e
      → Written (λ q. fetch calls q s) (λ q. fetch calls q (adjust calls p g s)) p (g e)
  adjust-Written p g s e h = record {
    here = fetch-adjust calls p g s ∙ ap (λ r. r >>= λ e. ok (g e)) h;
    there = λ q apart. fetch-adjust_apart p q g s apart;
  }

  -- A change of an entry leaves all else alone.
  pub adjust_rest :
      (p : Pointer) (g : PgtblEntry → PgtblEntry) (s : Sim calls)
      → (pages : ℕ → Option (ℕ → PgtblEntry)) × (adjust calls p g s ≡ record s { pgdir = pages })
  adjust_rest (d, t) g s = go (s.pgdir d) refl
    where
      go :
          (o : Option (ℕ → PgtblEntry))
          → s.pgdir d ≡ o
          → (pages : ℕ → Option (ℕ → PgtblEntry)) × (adjust calls (d, t) g s
              ≡ record s { pgdir = pages })
      go none h = (s.pgdir, ground arith)
      go (some table) h = (update s.pgdir d (some (update table t (g (table t)))), ground arith)

  -- A change of an entry that does not count leaves a similar state.
  pub adjust-Similar :
      (p : Pointer) (g : PgtblEntry → PgtblEntry) (s : Sim calls)
      → ((e : PgtblEntry) → fetch calls p s ≡ ok e → Alike (ok e) (ok (g e)))
      → (s' : Sim calls) → adjust calls p g s ≡ s'
      → Similar s s'
  adjust-Similar p g s keep s' is =
      let (pages, e) = adjust_rest p g s in
      let same : record s { pgdir = pages } ≡ s' = sym e ∙ is in
      record {
        size = ap (λ (s : Sim calls). s.memsize) (sym same);
        coremap = ap (λ (s : Sim calls). s.coremap) (sym same);
        store = ap (λ (s : Sim calls). s.store) (sym same);
        counted = record {
          hits = ap (λ (s : Sim calls). s.hit_count) (sym same);
          misses = ap (λ (s : Sim calls). s.miss_count) (sym same);
          refs = ap (λ (s : Sim calls). s.ref_count) (sym same);
        };
        entries = λ q. elim (Pointer-discrete q p) [
          | yes here ↦
              subst (λ s'. Alike (fetch calls q s) (fetch calls q s')) is
                (subst (λ q. Alike (fetch calls q s) (fetch calls q (adjust calls p g s)))
                  (sym here)
                  (subst (Alike (fetch calls p s)) (sym (fetch-adjust calls p g s))
                    (go (fetch calls p s) refl)))
          | no apart ↦
              subst (λ s'. Alike (fetch calls q s) (fetch calls q s')) is
                (subst (Alike (fetch calls q s)) (sym (fetch-adjust_apart p q g s apart))
                  (Alike-refl (fetch calls q s)))
        ];
      }
    where
      go : (r : Run PgtblEntry) → fetch calls p s ≡ r → Alike r (r >>= λ e. ok (g e))
      go abort k = tt
      go (ok e) k = keep e k

  pub adjust_index :
      (p : Pointer) (g : PgtblEntry → PgtblEntry) (s : Sim calls)
      → (adjust calls p g s).index ≡ s.index
  adjust_index p g s = ap (λ (s : Sim calls). s.index) (adjust_rest p g s).1
