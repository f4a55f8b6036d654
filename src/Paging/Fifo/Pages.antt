-- ===== src/Paging/Fifo/Pages.antt =====
-- Which pages the coremap of a sound state holds, and the simulator as a coremap and a pointer.
use cscc.Prelude.{
  ℕ, zero, suc, ◌+◌, ◌≡◌, ◌<◌, refl, sym, ap, ◌∙◌, arith, ◌==◌, ◌&&◌, if◌then◌else◌, List, [], ◌∷◌,
  ◌⊎◌, inl, inr,
}
use cscc.Prelude.{Bool, true, false, Option, none, some}
use native.Mathlib.Decide.{ℕ_discrete}
use cscc.Swap.Bitmap.{Run, ok, abort}
use cscc.Swap.Transfer.{FileCalls}
use cscc.Paging.State.{PgtblEntry, Pointer, Frame, Sim, fetch, has_flag, pg_valid, frame_of}
use cscc.Paging.Lookup.{pgdir_index, pgtbl_index}
use cscc.Paging.Serving.Mapped.{taken}
use cscc.Paging.Serving.Sound.{IsSound}
use cscc.Paging.Serving.Serve.{is_valid, resident}
use cscc.Paging.Fifo.Place.{Place, referenced}

abbrev pub pte_is : Pointer → Option Pointer → Bool
pte_is p none = false
pte_is (d, t) (some (d', t')) = (d' == d) && (t' == t)

-- Whether one of the first `n` frames holds the page at `p`.
abbrev pub holds : ℕ → Pointer → (ℕ → Frame) → Bool
holds zero p frames = false
holds (suc n) p frames =
    let rest = holds n p frames in
    if (frames n).in_use && pte_is p (frames n).pte then true else rest

-- A trace served by a coremap and a pointer alone: the number of hits, and what is left.
abbrev pub serve : List (Option (ℕ × ℕ)) → Place → ℕ × Place
serve [] x = (0, x)
serve (none ∷ lines) x = serve lines x
serve (some (type, vaddr) ∷ lines) x =
    let p : Pointer = (pgdir_index vaddr, pgtbl_index vaddr) in
    let hit = holds x.size p x.frames in
    let rest = serve lines (referenced hit p x) in (rest.0 + (if hit then 1 else 0), rest.1)

pub pte_is-true : (p : Pointer) (o : Option Pointer) → pte_is p o ≡ true → o ≡ some p
pte_is-true p none h = cc
pte_is-true (d, t) (some (d', t')) h =
    let e : d' ≡ d = ground (arith, h) in let e' : t' ≡ t = ground (arith, h) in cc

pub pte_is_refl : (p : Pointer) → pte_is p (some p) ≡ true
pte_is_refl (d, t) = ground arith

pub either : (b : Bool) → (if b then true else true) ≡ true
either true = refl
either false = refl

pub holds-taken :
    (n f : ℕ) (p : Pointer) (frames : ℕ → Frame)
    → f < n
    → frames f ≡ taken p
    → holds n p frames ≡ true
holds-taken zero f p frames lt h = absurd (omega arith)
holds-taken (suc n) f p frames lt h = elim (ℕ_discrete f n) [
  | yes same ↦
      let used : (frames n).in_use ≡ true =
        ap (λ g. (frames g).in_use) (sym same) ∙ ap (λ (c : Frame). c.in_use) h in
      let is : pte_is p (frames n).pte ≡ true =
        ap (λ g. pte_is p (frames g).pte) (sym same)
        ∙ ap (λ (c : Frame). pte_is p c.pte) h
        ∙ pte_is_refl p in
      rw used (rw is refl)
  | no other ↦
      let before : holds n p frames ≡ true = holds-taken n f p frames (omega arith) h in
      rw before (either ((frames n).in_use && pte_is p (frames n).pte))
]

both :
    (b c rest : Bool)
    → (if b && c then true else rest) ≡ true
    → ((b ≡ true) × (c ≡ true)) ⊎ (rest ≡ true)
both true true rest h = inl (refl, refl)
both true false rest h = inr h
both false c rest h = inr h

pub taken-holds :
    (n : ℕ) (p : Pointer) (frames : ℕ → Frame)
    → holds n p frames ≡ true
    → (f : ℕ) × (f < n) × ((frames f).in_use ≡ true) × ((frames f).pte ≡ some p)
taken-holds zero p frames h = cc
taken-holds (suc n) p frames h =
    elim (both (frames n).in_use (pte_is p (frames n).pte) (holds n p frames) h) [
      | inl here ↦ (n, omega arith, here.0, pte_is-true p (frames n).pte here.1)
      | inr below ↦
          let (f, lt, used, stands) = taken-holds n p frames below in
          (f, omega (arith, lt), used, stands)
    ]

is_valid-true :
    (r : Run PgtblEntry)
    → is_valid r ≡ true
    → (e : PgtblEntry) × (r ≡ ok e) × (has_flag pg_valid e ≡ true)
is_valid-true abort h = cc
is_valid-true (ok e) h = (e, refl, h)

some_inj : (q p : Pointer) → ◌≡◌ {A = Option Pointer} (some q) (some p) → q ≡ p
some_inj q p h = cc

pub iff_eq : (b c : Bool) → (b ≡ true → c ≡ true) → (c ≡ true → b ≡ true) → b ≡ c
iff_eq true c f g = sym (f refl)
iff_eq false true f g = g refl
iff_eq false false f g = refl

module _ (calls : FileCalls) where
  -- In a sound state the valid entries are those whose pages stand in frames.
  pub resident-holds :
      (p : Pointer) (s : Sim calls)
      → IsSound calls s
      → resident calls p s ≡ holds s.memsize p s.coremap
  resident-holds p s v =
      iff_eq (resident calls p s) (holds s.memsize p s.coremap)
        (λ h.
          let (e, there, valid) = is_valid-true (fetch calls p s) h in
          let (lt, back) = v.mapped.located p e there valid in
          holds-taken s.memsize (frame_of e) p s.coremap lt back)
        (λ h.
          let (f, lt, used, stands) = taken-holds s.memsize p s.coremap h in
          let (q, e, back, there, valid, named) = v.mapped.held f lt used in
          let same : q ≡ p = some_inj q p (sym (ap (λ (c : Frame). c.pte) back) ∙ stands) in
          ap (λ q. resident calls q s) (sym same) ∙ ap is_valid there ∙ valid)
