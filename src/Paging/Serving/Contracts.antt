-- ===== src/Paging/Serving/Contracts.antt =====
-- FIFO, random replacement and the clock keep the contract of a replacement algorithm.
use cscc.Prelude.{
  ℕ, zero, suc, ◌+◌, ◌%◌, ◌^◌, ◌≡◌, ◌<◌, refl, ap, ◌∙◌, arith, subst, bit, bit-bit_and, bit-bit_or,
  bit-le, clear_iff, bit_and-high, bit_or-high, if◌then◌else◌,
}
use native.Mathlib.Nat.{mod-lt}
use cscc.Prelude.{inr, Bool, true, false}
use cscc.Swap.Bitmap.{Run, ok, abort, ◌>>=◌, Returns}
use cscc.Swap.Transfer.{FileCalls}
use cscc.Paging.State.{
  PgtblEntry, Pointer, Frame, Sim, fetch, adjust, has_flag, lower, raise, pg_ref,
}
use cscc.Paging.Policies.{
  advance, fifo, fifo_evict, rand, rand_evict, clock, clock_evict, clock_evict_fuel, clock_ref,
}
use cscc.Paging.Serving.Mapped.{Alike, Alike-refl, Alike-trans, taken}
use cscc.Paging.Serving.Sound.{
  IsSound, IsFilled, Similar, Similar-IsSound, IsPolicy, adjust-Similar, adjust_index,
}
use cscc.Paging.References.{Holds-ref_at, adjust-rest}
use cscc.Paging.Clock.{clock_evict-step, IsFull, Chosen, clock_evict-Chosen}

-- Taking the reference bit away, and setting it, say nothing about where the page is.
lower-Alike : (e : PgtblEntry) → e.frame < 2 ^ 32 → Alike (ok e) (ok (lower pg_ref e))
lower-Alike e h = (
  bit_and-high e.frame 4294967291 h (omega arith),
  ground (
    arith,
    clear_iff (lower pg_ref e).frame 0,
    clear_iff e.frame 0,
    bit-bit_and e.frame 4294967291 0,
    bit-le e.frame 0,
    mask,
  ),
  refl,
)
  where
    mask : bit 4294967291 0 ≡ 1
    mask = unfold bit in refl

raise-Alike : (e : PgtblEntry) → Alike (ok e) (ok (raise pg_ref e))
raise-Alike e = (
  bit_or-high e.frame 4 (omega arith),
  ground (
    arith,
    clear_iff (raise pg_ref e).frame 0,
    clear_iff e.frame 0,
    bit-bit_or e.frame 4 0,
    bit-le e.frame 0,
    mask,
  ),
  refl,
)
  where
    mask : bit 4 0 ≡ 0
    mask = unfold bit in refl

module _ (calls : FileCalls) where
  Similar-refl : (s : Sim calls) → Similar calls s s
  Similar-refl s = record {
    size = refl;
    coremap = refl;
    store = refl;
    counted = record { hits = refl; misses = refl; refs = refl };
    entries = λ q. Alike-refl (fetch calls q s);
  }

  Similar-trans : (s t u : Sim calls) → Similar calls s t → Similar calls t u → Similar calls s u
  Similar-trans s t u h k = record {
    size = k.size ∙ h.size;
    coremap = k.coremap ∙ h.coremap;
    store = k.store ∙ h.store;
    counted = record {
      hits = k.counted.hits ∙ h.counted.hits;
      misses = k.counted.misses ∙ h.counted.misses;
      refs = k.counted.refs ∙ h.counted.refs;
    };
    entries = λ q.
        Alike-trans (fetch calls q s) (fetch calls q t) (fetch calls q u) (h.entries q)
          (k.entries q);
  }

  -- The hand and the random numbers are not looked at.
  advance-Similar : (s : Sim calls) → Similar calls s (advance calls s)
  advance-Similar s = record {
    size = refl;
    coremap = refl;
    store = refl;
    counted = record { hits = refl; misses = refl; refs = refl };
    entries = λ q. Alike-refl (fetch calls q s);
  }

  drawn-Similar : (s : Sim calls) → Similar calls s (record s { random = λ n. s.random (suc n) })
  drawn-Similar s = record {
    size = refl;
    coremap = refl;
    store = refl;
    counted = record { hits = refl; misses = refl; refs = refl };
    entries = λ q. Alike-refl (fetch calls q s);
  }

  -- FIFO keeps the contract.
  pub fifo-IsPolicy : IsPolicy calls (fifo calls)
  unfolding fifo_evict
  fifo-IsPolicy = record {
    evicts = λ s v full. (v.ready.hand, ground arith, advance-Similar s);
    refers = λ p s v used. (refl, Similar-refl s);
  }

  rand_evict_lem :
      (s : Sim calls)
      → 0 < s.memsize
      → rand_evict calls s
        ≡ ok (s.random 0 % s.memsize, record s { random = λ n. s.random (suc n) })
  unfolding rand_evict
  rand_evict_lem s pos = ground arith

  -- Random replacement keeps the contract.
  pub rand-IsPolicy : IsPolicy calls (rand calls)
  rand-IsPolicy = record {
    evicts = λ s v full. rw (rand_evict_lem s (omega (arith, v.ready.hand))) (
      mod-lt (s.random 0) {m = s.memsize} (omega (arith, v.ready.hand)),
      v.ready.hand,
      drawn-Similar s,
    );
    refers = λ p s v used. (refl, Similar-refl s);
  }

  -- The clock, where it returns, leaves a similar state.
  abbrev Leaves : Sim calls → Run (ℕ × Sim calls) → Type 0
  Leaves s abort = Unit
  Leaves s (ok (v, s')) = Similar calls s s'

  -- A change that leaves a similar state keeps a full one sound and full, if the hand stays inside.
  full-IsSound :
      (s s' : Sim calls)
      → IsSound calls s
      → IsFilled calls s
      → s'.index < s.memsize
      → Similar calls s s'
      → IsSound calls s' × IsFilled calls s'
  full-IsSound s s' v full lt like =
      let still : IsFilled calls s' = λ f inside.
        ap (λ (cm : ℕ → Frame). (cm f).in_use) like.coremap ∙ full f (omega (arith, like.size)) in
      (
        Similar-IsSound calls s s' v like (record {
          hand = lt;
          lowest = λ f g inside before used. full g (omega arith);
          start = inr full;
        }),
        still,
      )

  moved-Similar :
      (s : Sim calls) (p : Pointer) (e : PgtblEntry)
      → fetch calls p s ≡ ok e
      → e.frame < 2 ^ 32
      → Similar calls s (advance calls (adjust calls p (lower pg_ref) s))
  moved-Similar s p e there small =
      Similar-trans s (adjust calls p (lower pg_ref) s) _
        (adjust-Similar calls p (lower pg_ref) s
          (λ x found.
            let one : e ≡ x = cc in
            lower-Alike x (subst (λ (e : PgtblEntry). e.frame < 2 ^ 32) one small))
          (adjust calls p (lower pg_ref) s) refl)
        (advance-Similar (adjust calls p (lower pg_ref) s))

  hand_on-Leaves :
      (s t : Sim calls) (r : Run (ℕ × Sim calls))
      → Similar calls s t
      → Leaves t r
      → Leaves s (r >>= λ chosen. ok (chosen.0, advance calls chosen.1))
  hand_on-Leaves s t abort like h = tt
  hand_on-Leaves s t (ok (v, s')) like h =
      Similar-trans s s' (advance calls s') (Similar-trans s t s' like h) (advance-Similar s')

  choose-Leaves :
      (s t : Sim calls) (r : Run (ℕ × Sim calls)) (b : Bool)
      → Similar calls s t
      → Leaves t r
      → Leaves s
          ((if b then r else ok (s.index, s)) >>= λ chosen. ok (chosen.0, advance calls chosen.1))
  choose-Leaves s t r true like h = hand_on-Leaves s t r like h
  choose-Leaves s t r false like h = advance-Similar s

  clock_evict_fuel-Leaves :
      (fuel : ℕ) (s : Sim calls)
      → IsSound calls s
      → IsFilled calls s
      → Leaves s (clock_evict_fuel calls fuel s)
  clock_evict_fuel-Leaves zero s v full = unfold clock_evict_fuel in tt
  clock_evict_fuel-Leaves (suc fuel) s v full =
      let (p, e, stood, there, valid, named) =
        v.mapped.held s.index v.ready.hand (full s.index v.ready.hand) in
      let t = advance calls (adjust calls p (lower pg_ref) s) in
      let like : Similar calls s t =
        moved-Similar s p e there (omega (arith, named, v.size, v.ready.hand)) in
      let rest = adjust-rest calls p (lower pg_ref) s in
      let hand : t.index < s.memsize = ground (arith, rest.1, rest.2, v.ready.hand) in
      let after = full-IsSound s t v full hand like in
      rw
        (clock_evict-step calls fuel s p e
          (record { pte = ap (λ (c : Frame). c.pte) stood; entry = there }))
        (choose-Leaves s t (clock_evict_fuel calls fuel t) (has_flag pg_ref e) like
          (clock_evict_fuel-Leaves fuel t after.0 after.1))

  filled-IsFull : (s : Sim calls) → IsSound calls s → IsFilled calls s → IsFull calls s
  filled-IsFull s v full = record {
    hand = v.ready.hand;
    pages = λ f lt.
        let (q, e, stood, there, valid, named) = v.mapped.held f lt (full f lt) in
        (
          has_flag pg_ref e,
          Holds-ref_at calls s f q e
              (record { pte = ap (λ (c : Frame). c.pte) stood; entry = there }),
        );
  }

  clock_evict-Similar :
      (s : Sim calls)
      → IsSound calls s
      → IsFilled calls s
      → Returns
          (λ (r : ℕ × Sim calls). (r.0 < s.memsize) × (r.1.index < s.memsize) × Similar calls s r.1)
          (clock_evict calls s)
  clock_evict-Similar s v full =
      go (clock_evict calls s) (clock_evict-Chosen calls s (filled-IsFull s v full))
        (unfold clock_evict in clock_evict_fuel-Leaves (s.memsize + 1) s v full)
    where
      go :
          (r : Run (ℕ × Sim calls))
          → Chosen calls s r
          → Leaves s r
          → Returns
              (λ (r : ℕ × Sim calls).
                (r.0 < s.memsize) × (r.1.index < s.memsize) × Similar calls s r.1)
              r
      go abort c l = c
      go (ok (v, s')) c l = (c.0, omega (arith, c.2.hand, c.3), l)

  clock_ref_lem :
      (s : Sim calls) (p q : Pointer) (e : PgtblEntry)
      → s.coremap s.index ≡ taken q
      → fetch calls q s ≡ ok e
      → clock_ref calls p s ≡ ok (adjust calls q (raise pg_ref) s)
  unfolding clock_ref
  clock_ref_lem s p q e stood there = ground (arith, ap (λ (c : Frame). c.pte) stood, there)

  -- A reference raises the bit of the page at the hand.
  clock_ref-Similar :
      (p : Pointer) (s : Sim calls)
      → IsSound calls s
      → (s.coremap s.index).in_use ≡ true
      → Returns
          (λ (s' : Sim calls). (s'.index ≡ s.index) × Similar calls s s')
          (clock_ref calls p s)
  clock_ref-Similar p s v used =
      let (q, e, stood, there, valid, named) = v.mapped.held s.index v.ready.hand used in
      rw (clock_ref_lem s p q e stood there) (
        adjust_index calls q (raise pg_ref) s,
        adjust-Similar calls q (raise pg_ref) s (λ x found. raise-Alike x)
            (adjust calls q (raise pg_ref) s) refl,
      )

  -- The clock keeps the contract.
  pub clock-IsPolicy : IsPolicy calls (clock calls)
  clock-IsPolicy = record {
    evicts = λ s v full. clock_evict-Similar s v full;
    refers = λ p s v used. clock_ref-Similar p s v used;
  }
