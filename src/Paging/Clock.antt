-- ===== src/Paging/Clock.antt =====
-- The clock algorithm ends: it finds a page that was not referenced within one round.
use cscc.Prelude.{
  ℕ, zero, suc, ◌+◌, ◌-◌, ◌≡◌, ◌<◌, ◌≤◌, leb, arith, refl, ap, ◌∙◌, if◌then◌else◌, Bool, true,
  false,
}
use native.Mathlib.Decide.{ℕ_discrete}
use cscc.Swap.Bitmap.{Run, ok, abort, ◌>>=◌}
use cscc.Swap.Transfer.{FileCalls}
use cscc.Paging.State.{PgtblEntry, Pointer, has_flag, lower, pg_ref, Sim, adjust}
use cscc.Paging.Policies.{advance, clock_evict_fuel, clock_evict}
use cscc.Paging.References.{ref_at, Holds, ref_at-Holds, ref_at-lower, adjust-rest}

-- How far frame `f` is ahead of the hand `i` in a memory of `m` frames.
abbrev ahead : (i f m : ℕ) → ℕ
ahead i f m = if leb i f then f - i else f + m - i

module _ (calls : FileCalls) where
  -- The hand stands in the memory, and every frame holds a page.
  pub record IsFull (s : Sim calls) : Type 0 where
    pub hand : s.index < s.memsize
    pub pages : (f : ℕ) → f < s.memsize → (b : Bool) × (ref_at calls s f ≡ ok b)

  -- An eviction that ends: a frame of the memory, whose page has no reference bit then.
  abbrev pub Chosen : Sim calls → Run (ℕ × Sim calls) → Type 0
  Chosen s abort = ⊥
  Chosen s (ok (v, s')) =
      (v < s.memsize)
      × (ref_at calls s' v ≡ ok false)
      × IsFull s'
      × (s'.memsize ≡ s.memsize)
      × (s'.coremap ≡ s.coremap)

  -- The frames that are `fuel - 1` ahead of the hand, or more, have been passed.
  abbrev Passed : ℕ → Sim calls → Type 0
  Passed fuel s =
      (f : ℕ) → f < s.memsize → fuel ≤ ahead s.index f s.memsize + 1 → ref_at calls s f ≡ ok false

  -- The state with the bit of the page at the hand taken away, and the hand moved on.
  abbrev pub moved : Pointer → Sim calls → Sim calls
  moved p s = advance calls (adjust calls p (lower pg_ref) s)

  moved-IsFull :
      (s : Sim calls) (p : Pointer) (e : PgtblEntry)
      → Holds calls s s.index p e
      → IsFull s
      → IsFull (moved p s) × ((moved p s).memsize ≡ s.memsize) × ((moved p s).coremap ≡ s.coremap)
  moved-IsFull s p e held full =
      let rest = adjust-rest calls p (lower pg_ref) s in
      (
        record {
          hand = ground (arith, rest.1, rest.2);
          pages = λ f lt.
              let (b, h) = full.pages f (ground (arith, rest.2)) in
              let (b', h', down, same) = ref_at-lower calls s f s.index p e b held h in (b', h');
        },
        rest.2,
        rest.0,
      )

  advance-IsFull : (s : Sim calls) → IsFull s → IsFull (advance calls s)
  advance-IsFull s full = record { hand = ground arith; pages = full.pages }

  -- The last step of each call.
  abbrev pub hand_on : Run (ℕ × Sim calls) → Run (ℕ × Sim calls)
  hand_on r = r >>= λ chosen. ok (chosen.0, advance calls chosen.1)

  hand_on-Chosen :
      (s t : Sim calls) (r : Run (ℕ × Sim calls))
      → t.memsize ≡ s.memsize
      → t.coremap ≡ s.coremap
      → Chosen t r
      → Chosen s (hand_on r)
  hand_on-Chosen s t abort m c h = h
  hand_on-Chosen s t (ok (v, s')) m c (lt, low, full, size, map) =
      (omega (arith, m), low, advance-IsFull s' full, size ∙ m, map ∙ c)

  choose-Chosen :
      (s t : Sim calls) (r : Run (ℕ × Sim calls)) (b : Bool)
      → IsFull s
      → t.memsize ≡ s.memsize
      → t.coremap ≡ s.coremap
      → Chosen t r
      → ref_at calls s s.index ≡ ok b
      → Chosen s (hand_on (if b then r else ok (s.index, s)))
  choose-Chosen s t r true full m c h here = hand_on-Chosen s t r m c h
  choose-Chosen s t r false full m c h here = (full.hand, here, advance-IsFull s full, refl, refl)

  pub clock_evict-step :
      (fuel : ℕ) (s : Sim calls) (p : Pointer) (e : PgtblEntry)
      → Holds calls s s.index p e
      → clock_evict_fuel calls (suc fuel) s
        ≡ hand_on
            (if has_flag pg_ref e then clock_evict_fuel calls fuel (moved p s) else ok (s.index, s))
  unfolding clock_evict_fuel
  clock_evict-step fuel s p e held = ground (arith, held.pte, held.entry)

  moved-Passed :
      (fuel : ℕ) (s : Sim calls) (p : Pointer) (e : PgtblEntry)
      → Holds calls s s.index p e
      → IsFull s
      → Passed (suc (suc fuel)) s
      → Passed (suc fuel) (moved p s)
  moved-Passed fuel s p e held full passed f lt far =
      let rest = adjust-rest calls p (lower pg_ref) s in
      let inside : f < s.memsize = omega (arith, rest.2) in
      let (b, h) = full.pages f inside in
      let (b', h', down, same) = ref_at-lower calls s f s.index p e b held h in
      elim (ℕ_discrete f s.index) [
        | yes here ↦ h' ∙ ap (λ (x : Bool). ok x) (same here)
        | no other ↦
            h'
            ∙ ap (λ (x : Bool). ok x) (down (cc (passed f inside (ground (arith, rest.1, rest.2)))))
      ]

  clock_evict_fuel-Chosen :
      (fuel : ℕ) (s : Sim calls)
      → IsFull s
      → Passed (suc fuel) s
      → Chosen s (clock_evict_fuel calls (suc fuel) s)
  clock_evict_fuel-Chosen zero s full passed =
      let (p, e, held, flag) =
        ref_at-Holds calls s s.index false (passed s.index full.hand (ground arith)) in
      rw (clock_evict-step zero s p e held, flag)
        (full.hand, passed s.index full.hand (ground arith), advance-IsFull s full, refl, refl)
  clock_evict_fuel-Chosen (suc fuel) s full passed =
      let (b, here) = full.pages s.index full.hand in
      let (p, e, held, flag) = ref_at-Holds calls s s.index b here in
      let next = moved-IsFull s p e held full in
      let later =
        clock_evict_fuel-Chosen fuel (moved p s) next.0
          (moved-Passed fuel s p e held full passed) in
      rw (clock_evict-step (suc fuel) s p e held, flag)
        (choose-Chosen s (moved p s) (clock_evict_fuel calls (suc fuel) (moved p s)) b full next.1
          next.2 later here)

  -- In a memory whose frames all hold pages, `clock_evict` comes to its end, with a call for each
  -- frame and one more at most. It returns a frame of the memory whose page has no reference bit by
  -- then, leaves the coremap as it is, and the hand inside the memory.
  pub clock_evict-Chosen : (s : Sim calls) → IsFull s → Chosen s (clock_evict calls s)
  unfolding clock_evict
  clock_evict-Chosen s full =
      let count : s.memsize + 1 ≡ suc s.memsize = omega arith in
      rw count (clock_evict_fuel-Chosen s.memsize s full (λ f lt far. absurd (ground arith)))
