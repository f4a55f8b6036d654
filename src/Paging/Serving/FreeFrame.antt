-- ===== src/Paging/Serving/FreeFrame.antt =====
-- The lowest free frame, as `allocate_frame` looks for it.
use cscc.Prelude.{ℕ, zero, suc, ◌+◌, ◌≡◌, ◌≢◌, ◌≤◌, ◌<◌, inl, inr, ap, ◌∙◌, arith, update}
use cscc.Prelude.{true, false, Option, none, some, Bool-cases}
use native.Mathlib.Decide.{ℕ_discrete}
use cscc.Paging.State.{Pointer, Frame}
use cscc.Paging.Lookup.{find_free}
use cscc.Paging.Serving.Mapped.{taken}
use cscc.Paging.Serving.Sound.{Ready}

-- What the search for a free frame finds, among `rounds` frames from `i` on.
abbrev pub Lowest : (rounds i : ℕ) → (ℕ → Frame) → Option ℕ → Type 0
Lowest rounds i cm none = (g : ℕ) → i ≤ g → g < i + rounds → (cm g).in_use ≡ true
Lowest rounds i cm (some f) =
    (i ≤ f)
    × (f < i + rounds)
    × ((cm f).in_use ≡ false)
    × ((g : ℕ) → i ≤ g → g < f → (cm g).in_use ≡ true)

Lowest-skip :
    (rounds i : ℕ) (cm : ℕ → Frame) (o : Option ℕ)
    → (cm i).in_use ≡ true
    → Lowest rounds (suc i) cm o
    → Lowest (suc rounds) i cm o
Lowest-skip rounds i cm none used h = λ g from to. elim (ℕ_discrete g i) [
  | yes same ↦ ap (λ k. (cm k).in_use) same ∙ used
  | no other ↦ h g (omega arith) (omega arith)
]
Lowest-skip rounds i cm (some f) used h = (
  omega arith,
  omega arith,
  h.2,
  λ g from to. elim (ℕ_discrete g i) [
    | yes same ↦ ap (λ k. (cm k).in_use) same ∙ used
    | no other ↦ h.3 g (omega arith) to
  ],
)

pub find_free-Lowest : (rounds i : ℕ) (cm : ℕ → Frame) → Lowest rounds i cm (find_free rounds i cm)
unfolding find_free
find_free-Lowest zero i cm = λ g from to. absurd (omega arith)
find_free-Lowest (suc rounds) i cm = elim (Bool-cases (cm i).in_use) [
  | inl used ↦ rw used (
      Lowest-skip rounds i cm (find_free rounds (suc i) cm) used
        (find_free-Lowest rounds (suc i) cm))
  | inr free ↦ rw free (omega arith, omega arith, free, λ g from to. absurd (omega arith))
]

pub update_self : (cm : ℕ → Frame) (f : ℕ) (x : Frame) → update cm f x f ≡ x
update_self cm f x = ground arith

pub update-apart : (cm : ℕ → Frame) (f g : ℕ) (x : Frame) → g ≢ f → update cm f x g ≡ cm g
update-apart cm f g x apart = ground arith

-- A frame more is in use, the lowest that was free or one that was in use before.
pub Ready-claim :
    (n i f : ℕ) (cm : ℕ → Frame) (p : Pointer)
    → f < n
    → Ready n i cm
    → ((g : ℕ) → g < f → (cm g).in_use ≡ true)
    → Ready n i (update cm f (taken p))
Ready-claim n i f cm p lt r below = record {
  hand = r.hand;
  lowest = λ g k inside before used. elim (ℕ_discrete g f) [
    | yes same ↦ ground (arith, below k (omega arith))
    | no other ↦ ground (arith, r.lowest g k inside before)
  ];
  start = elim r.start [
    | inl first ↦ inl first
    | inr full ↦ inr (λ g inside. ground (arith, full g inside))
  ];
}
