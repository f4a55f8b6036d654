-- ===== src/Paging/Serving/Mapped.antt =====
-- The page tables and the coremap of pagetable.c as one mapping of pages to frames.
use cscc.Prelude.{ℕ, ◌≡◌, ◌≢◌, ◌<◌, ◌⊎◌, inl, inr, refl, sym, ap, ◌∙◌, arith, subst}
use cscc.Prelude.{true, false, some}
use native.Mathlib.Decide.{ℕ_discrete}
use cscc.Swap.Bitmap.{Run, ok, abort}
use cscc.Swap.Transfer.{invalid_swap}
use cscc.Swap.Kept.{IsOffset}
use cscc.Paging.State.{PgtblEntry, Pointer, Frame, has_flag, pg_valid, frame_of}

-- A frame that holds the page of an entry.
abbrev pub taken : Pointer → Frame
taken q = record { in_use = true; pte = some q }

-- Two frames hold the pages of one entry only if they are one.
pub taken-inj : (p q : Pointer) → taken p ≡ taken q → p ≡ q
taken-inj p q h = cc

-- Over the entries `at`, the valid ones name frames among the first `n`, and the coremap points back
-- from each such frame; a frame in use holds the page of a valid entry that names it.
pub record Mapped (n : ℕ) (at : Pointer → Run PgtblEntry) (cm : ℕ → Frame) : Type 0 where
  pub located :
      (q : Pointer) (e : PgtblEntry)
      → at q ≡ ok e
      → has_flag pg_valid e ≡ true
      → (frame_of e < n) × (cm (frame_of e) ≡ taken q)
  pub held :
      (f : ℕ)
      → f < n
      → (cm f).in_use ≡ true
      → (q : Pointer) × (e : PgtblEntry) × (cm f ≡ taken q)
        × (at q ≡ ok e)
        × (has_flag pg_valid e ≡ true)
        × (frame_of e ≡ f)
  pub offsets : (q : Pointer) (e : PgtblEntry) → at q ≡ ok e → IsOffset e.swap_off

-- The entries after a write of `e` at `p`.
pub record Written (at at' : Pointer → Run PgtblEntry) (p : Pointer) (e : PgtblEntry) : Type 0 where
  pub here : at' p ≡ ok e
  pub there : (q : Pointer) → q ≢ p → at' q ≡ at q

pub Pointer-discrete : Discrete Pointer
Pointer-discrete = hlevel ℕ_discrete

ok_inj : (e e' : PgtblEntry) → ◌≡◌ {A = Run PgtblEntry} (ok e) (ok e') → e ≡ e'
ok_inj e e' h = cc

module _ {n : ℕ} {at at' : Pointer → Run PgtblEntry} {cm cm' : ℕ → Frame} (m : Mapped n at cm)
    (f : ℕ) (p : Pointer) (e' : PgtblEntry) (w : Written at at' p e') (off : IsOffset e'.swap_off)
    (others : (g : ℕ) → g ≢ f → cm' g ≡ cm g) where
  offsets-Written : (q : Pointer) (e : PgtblEntry) → at' q ≡ ok e → IsOffset e.swap_off
  offsets-Written q e h = elim (Pointer-discrete q p) [
    | yes same ↦
        let is : e' ≡ e = ok_inj e' e (sym w.here ∙ ap at' (sym same) ∙ h) in
        subst (λ (e : PgtblEntry). IsOffset e.swap_off) is off
    | no other ↦ m.offsets q e (sym (w.there q other) ∙ h)
  ]

  -- A page whose entry was not valid comes into a frame that was free.
  module _ (e : PgtblEntry) (was : at p ≡ ok e) (invalid : has_flag pg_valid e ≡ false)
      (inside : f < n) (free : (cm f).in_use ≡ false) (claimed : cm' f ≡ taken p)
      (valid : has_flag pg_valid e' ≡ true) (named : frame_of e' ≡ f) where
    pub settle : Mapped n at' cm'
    settle = record {
      located = λ q x h v. elim (Pointer-discrete q p) [
        | yes same ↦
            let is : e' ≡ x = ok_inj e' x (sym w.here ∙ ap at' (sym same) ∙ h) in
            let place : frame_of x ≡ f = ap (λ (e : PgtblEntry). frame_of e) (sym is) ∙ named in
            (omega arith, ap cm' place ∙ claimed ∙ ap (λ (q : Pointer). taken q) (sym same))
        | no other ↦
            let (lt, back) = m.located q x (sym (w.there q other) ∙ h) v in
            (lt, others (frame_of x) (λ same. ground (arith, ap cm same)) ∙ back)
      ];
      held = λ g lt used. elim (ℕ_discrete g f) [
        | yes same ↦ (p, e', ap cm' same ∙ claimed, w.here, valid, named ∙ sym same)
        | no other ↦
            let (q, x, back, there, v, place) =
              m.held g lt (ap (λ (c : Frame). c.in_use) (sym (others g other)) ∙ used) in
            (q, x, others g other ∙ back, w.there q (λ same. cc (ap at same)) ∙ there, v, place)
      ];
      offsets = offsets-Written;
    }

  -- The page in a frame goes out: its entry is no longer valid, and the frame is free.
  module _ (inside : f < n) (stood : cm f ≡ taken p) (freed : (cm' f).in_use ≡ false)
      (invalid : has_flag pg_valid e' ≡ false) where
    pub vacate : Mapped n at' cm'
    vacate = record {
      located = λ q x h v. elim (Pointer-discrete q p) [
        | yes same ↦ let is : e' ≡ x = ok_inj e' x (sym w.here ∙ ap at' (sym same) ∙ h) in cc
        | no other ↦
            let (lt, back) = m.located q x (sym (w.there q other) ∙ h) v in
            (
              lt,
              others (frame_of x) (λ same. other (taken-inj q p (sym back ∙ ap cm same ∙ stood)))
                  ∙ back,
            )
      ];
      held = λ g lt used. elim (ℕ_discrete g f) [
        | yes same ↦ cc (ap cm' same)
        | no other ↦
            let (q, x, back, there, v, place) =
              m.held g lt (ap (λ (c : Frame). c.in_use) (sym (others g other)) ∙ used) in
            let (q', x', back', there', v', place') =
              m.held f inside (ap (λ (c : Frame). c.in_use) stood) in
            (
              q,
              x,
              others g other ∙ back,
              w.there q (λ same.
                    let one : q' ≡ q = taken-inj q' p (sym back' ∙ stood) ∙ sym same in
                    let is : x ≡ x' = ok_inj x x' (sym there ∙ ap at (sym one) ∙ there') in
                    other (sym place ∙ ap (λ (e : PgtblEntry). frame_of e) is ∙ place'))
                  ∙ there,
              v,
              place,
            )
      ];
      offsets = offsets-Written;
    }

-- Entries that differ at most in the bits for dirty, referenced and on swap.
abbrev pub Alike : Run PgtblEntry → Run PgtblEntry → Type 0
Alike abort abort = Unit {0}
Alike abort (ok e') = ⊥
Alike (ok e) abort = ⊥
Alike (ok e) (ok e') =
    (frame_of e' ≡ frame_of e)
    × (has_flag pg_valid e' ≡ has_flag pg_valid e)
    × (e'.swap_off ≡ e.swap_off)

pub Alike-refl : (r : Run PgtblEntry) → Alike r r
Alike-refl abort = tt
Alike-refl (ok e) = (refl, refl, refl)

pub Alike-trans : (r r' r'' : Run PgtblEntry) → Alike r r' → Alike r' r'' → Alike r r''
Alike-trans abort abort abort h k = tt
Alike-trans abort abort (ok e'') h k = elim k [ ]
Alike-trans abort (ok e') r'' h k = elim h [ ]
Alike-trans (ok e) abort r'' h k = elim h [ ]
Alike-trans (ok e) (ok e') abort h k = elim k [ ]
Alike-trans (ok e) (ok e') (ok e'') h k = (k.0 ∙ h.0, k.1 ∙ h.1, k.2 ∙ h.2)

Alike-back :
    (r : Run PgtblEntry) (e' : PgtblEntry)
    → Alike r (ok e')
    → (e : PgtblEntry) × (r ≡ ok e) × Alike (ok e) (ok e')
Alike-back abort e' h = elim h [ ]
Alike-back (ok e) e' h = (e, refl, h)

Alike-forth :
    (r : Run PgtblEntry) (e : PgtblEntry)
    → Alike (ok e) r
    → (e' : PgtblEntry) × (r ≡ ok e') × Alike (ok e) (ok e')
Alike-forth abort e h = elim h [ ]
Alike-forth (ok e') e h = (e', refl, h)

-- A mapping does not look at the other bits.
module _ {n : ℕ} {at at' : Pointer → Run PgtblEntry} {cm : ℕ → Frame} (m : Mapped n at cm) where
  pub Mapped-Alike : ((q : Pointer) → Alike (at q) (at' q)) → Mapped n at' cm
  Mapped-Alike alike = record {
    located = λ q e' h v.
        let (e, was, (place, valid, off)) =
          Alike-back (at q) e' (subst (Alike (at q)) h (alike q)) in
        let (lt, back) = m.located q e was (sym valid ∙ v) in (omega (arith), ap cm place ∙ back);
    held = λ f lt used.
        let (q, e, back, was, v, named) = m.held f lt used in
        let (e', there, (place, valid, off)) =
          Alike-forth (at' q) e (subst (λ r. Alike r (at' q)) was (alike q)) in
        (q, e', back, there, valid ∙ v, place ∙ named);
    offsets = λ q e' h.
        let (e, was, (place, valid, off)) =
          Alike-back (at q) e' (subst (Alike (at q)) h (alike q)) in
        subst IsOffset (sym off) (m.offsets q e was);
  }

  -- Entries that were not there before map nothing, if they are not valid.
  pub Mapped-extend :
      (e : PgtblEntry)
      → has_flag pg_valid e ≡ false
      → e.swap_off ≡ invalid_swap
      → ((q : Pointer) → (at' q ≡ at q) ⊎ ((at q ≡ abort) × (at' q ≡ ok e)))
      → Mapped n at' cm
  Mapped-extend e invalid off step = record {
    located = λ q x h v. elim (step q) [
      | inl same ↦ m.located q x (sym same ∙ h) v
      | inr new ↦ let is : e ≡ x = ok_inj e x (sym new.1 ∙ h) in cc
    ];
    held = λ f lt used.
        let (q, x, back, was, v, named) = m.held f lt used in
        let there : at' q ≡ ok x = elim (step q) [ inl same ↦ same ∙ was | inr new ↦ cc ] in
        (q, x, back, there, v, named);
    offsets = λ q x h. elim (step q) [
      | inl same ↦ m.offsets q x (sym same ∙ h)
      | inr new ↦
          let is : e ≡ x = ok_inj e x (sym new.1 ∙ h) in
          inl (ap (λ (e : PgtblEntry). e.swap_off) (sym is) ∙ off)
    ];
  }
