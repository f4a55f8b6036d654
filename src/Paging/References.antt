-- ===== src/Paging/References.antt =====
-- The reference bits of the pages in the frames, and what a change of one entry does to them.
use cscc.Prelude.{
  ℕ, ◌≡◌, ◌==◌, arith, refl, ap, ◌∙◌, if◌then◌else◌, Bool, true, false, Option, none, some, bit,
  bit-bit_and, clear_iff, ◌&&◌, subst, sym,
}
use cscc.Swap.Bitmap.{Run, ok, abort, ◌>>=◌}
use cscc.Swap.Transfer.{FileCalls}
use cscc.Paging.State.{PgtblEntry, Pointer, Frame, has_flag, lower, pg_ref, Sim, fetch, adjust}

-- A bit that was taken away is not there.
lower-clear : (e : PgtblEntry) → has_flag pg_ref (lower pg_ref e) ≡ false
lower-clear e =
    ground (arith, clear_iff (lower pg_ref e).frame 2, bit-bit_and e.frame 4294967291 2, mask)
  where
    mask : bit 4294967291 2 ≡ 0
    mask = unfold bit in refl

some_inj : (p q : Pointer) → ◌≡◌ {A = Option Pointer} (some p) (some q) → p ≡ q
some_inj p q h = cc

module _ (calls : FileCalls) where
  -- Whether the page in a frame was referenced; a frame without a page is a fault.
  abbrev pub ref_at : Sim calls → ℕ → Run Bool
  ref_at s f = elim (s.coremap f).pte [
    | none ↦ abort
    | some q ↦ fetch calls q s >>= λ e. ok (has_flag pg_ref e)
  ]

  -- What is read after a change of the entry at `p`.
  abbrev changed : Pointer → Pointer → (PgtblEntry → PgtblEntry) → PgtblEntry → PgtblEntry
  changed (d, t) (d', t') g e = if (d' == d) && (t' == t) then g e else e

  changed-clear :
      (p q : Pointer) (e : PgtblEntry)
      → has_flag pg_ref e ≡ false
      → has_flag pg_ref (changed p q (lower pg_ref) e) ≡ false
  changed-clear (d, t) (d', t') e h = pick ((d' == d) && (t' == t))
    where
      pick : (b : Bool) → has_flag pg_ref (if b then lower pg_ref e else e) ≡ false
      pick true = lower-clear e
      pick false = h

  changed-same :
      (p q : Pointer) (e : PgtblEntry)
      → p ≡ q
      → has_flag pg_ref (changed p q (lower pg_ref) e) ≡ false
  changed-same (d, t) q e same =
      subst (λ (q : Pointer). has_flag pg_ref (changed (d, t) q (lower pg_ref) e) ≡ false) same
        (rw here (lower-clear e))
    where
      here : ((d == d) && (t == t)) ≡ true
      here = ground arith

  fetch-adjust_other :
      (p q : Pointer) (g : PgtblEntry → PgtblEntry) (s : Sim calls) (e : PgtblEntry)
      → fetch calls q s ≡ ok e
      → fetch calls q (adjust calls p g s) ≡ ok (changed p q g e)
  fetch-adjust_other (d, t) (d', t') g s e h = go (s.pgdir d) (s.pgdir d') refl refl
    where
      go :
          (o o' : Option (ℕ → PgtblEntry))
          → s.pgdir d ≡ o
          → s.pgdir d' ≡ o'
          → fetch calls (d', t') (adjust calls (d, t) g s) ≡ ok (changed (d, t) (d', t') g e)
      go none none a b = ground arith
      go none (some table) a b = ground (arith, ap s.pgdir)
      go (some table) none a b = ground arith
      go (some table) (some table') a b = ground arith

  -- A change of an entry leaves the coremap, the hand and the size of the memory alone.
  pub adjust-rest :
      (p : Pointer) (g : PgtblEntry → PgtblEntry) (s : Sim calls)
      → ((adjust calls p g s).coremap ≡ s.coremap)
        × ((adjust calls p g s).index ≡ s.index)
        × ((adjust calls p g s).memsize ≡ s.memsize)
  adjust-rest (d, t) g s = go (s.pgdir d) refl
    where
      go :
          (o : Option (ℕ → PgtblEntry))
          → s.pgdir d ≡ o
          → ((adjust calls (d, t) g s).coremap ≡ s.coremap)
            × ((adjust calls (d, t) g s).index ≡ s.index)
            × ((adjust calls (d, t) g s).memsize ≡ s.memsize)
      go none e = ground arith
      go (some table) e = ground arith

  -- The page that a frame holds, and its entry.
  pub record Holds (s : Sim calls) (f : ℕ) (q : Pointer) (e : PgtblEntry) : Type 0 where
    pub pte : (s.coremap f).pte ≡ some q
    pub entry : fetch calls q s ≡ ok e

  pub Holds-ref_at :
      (s : Sim calls) (f : ℕ) (q : Pointer) (e : PgtblEntry)
      → Holds s f q e
      → ref_at s f ≡ ok (has_flag pg_ref e)
  Holds-ref_at s f q e h = ground (arith, h.pte, h.entry)

  pub ref_at-Holds :
      (s : Sim calls) (f : ℕ) (b : Bool)
      → ref_at s f ≡ ok b
      → (q : Pointer) × (e : PgtblEntry) × Holds s f q e × (has_flag pg_ref e ≡ b)
  ref_at-Holds s f b h = go (s.coremap f).pte refl
    where
      go :
          (o : Option Pointer)
          → (s.coremap f).pte ≡ o
          → (q : Pointer) × (e : PgtblEntry) × Holds s f q e × (has_flag pg_ref e ≡ b)
      go none a = cc
      go (some q) a = entry (fetch calls q s) refl
        where
          same : (e : PgtblEntry) → Holds s f q e → has_flag pg_ref e ≡ b
          same e held = cc (Holds-ref_at s f q e held)

          entry :
              (r : Run PgtblEntry)
              → fetch calls q s ≡ r
              → (q : Pointer) × (e : PgtblEntry) × Holds s f q e × (has_flag pg_ref e ≡ b)
          entry abort c = cc
          entry (ok e) c =
              (q, e, record { pte = a; entry = c }, same e (record { pte = a; entry = c }))

  -- After the bit of the page in one frame is taken away: no frame loses its page, no bit comes
  -- up, and that frame's is down.
  pub ref_at-lower :
      (s : Sim calls) (f g : ℕ) (p : Pointer) (e : PgtblEntry) (b : Bool)
      → Holds s g p e
      → ref_at s f ≡ ok b
      → (b' : Bool) × (ref_at (adjust calls p (lower pg_ref) s) f ≡ ok b')
        × (b ≡ false → b' ≡ false)
        × (f ≡ g → b' ≡ false)
  ref_at-lower s f g p e b held h =
      let (q, e', there, flag) = ref_at-Holds s f b h in
      let after : Holds (adjust calls p (lower pg_ref) s) f q (changed p q (lower pg_ref) e') =
        record {
          pte = ap (λ (c : ℕ → Frame). (c f).pte) (adjust-rest p (lower pg_ref) s).0 ∙ there.pte;
          entry = fetch-adjust_other p q (lower pg_ref) s e' there.entry;
        } in
      let shared : f ≡ g → (s.coremap f).pte ≡ some q → p ≡ q =
        λ same here. some_inj p q (sym held.pte ∙ ap (λ k. (s.coremap k).pte) (sym same) ∙ here) in
      (
        has_flag pg_ref (changed p q (lower pg_ref) e'),
        Holds-ref_at (adjust calls p (lower pg_ref) s) f q (changed p q (lower pg_ref) e') after,
        λ low. changed-clear p q e' (flag ∙ low),
        λ same. changed-same p q e' (shared same there.pte),
      )
