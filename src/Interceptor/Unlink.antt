-- ===== src/Interceptor/Unlink.antt =====
-- What the list operations of interceptor.c do to a list of pids.
use cscc.Prelude.{
  subst, suc, ◌≡◌, true, false, List, [], ◌∷◌, length, none, some, arith, ap, refl, ◌∙◌, sym,
  if◌then◌else◌,
}
use cscc.Prelude.{ℤ, ◌==ℤ◌, ==ℤ_iff, Bool-cases, inl, inr, Option, ◌||◌}
use cscc.Interceptor.Pids.{has_pid, unlink_first}
use cscc.Interceptor.WellFormed.{IsDistinct}

-- What `unlink_first` returns, by whether the list has the pid.
abbrev pub Unlinked : ℤ → List ℤ → Option (List ℤ) → Type 0
Unlinked pid xs none = has_pid pid xs ≡ false
Unlinked pid xs (some r) =
    (has_pid pid xs ≡ true)
    × (length xs ≡ suc (length r))
    × ((q : ℤ) → (q ==ℤ pid) ≡ false → has_pid q r ≡ has_pid q xs)
    × (IsDistinct xs → IsDistinct r × (has_pid pid r ≡ false))

has_pid-other :
    (q x pid : ℤ) (xs : List ℤ)
    → (x ==ℤ pid) ≡ true
    → (q ==ℤ pid) ≡ false
    → has_pid q xs ≡ has_pid q (x ∷ xs)
unfolding has_pid
has_pid-other q x pid xs e n = ground (arith, ==ℤ_iff x q, ==ℤ_iff x pid, ==ℤ_iff q pid)

absent_of_distinct :
    (x pid : ℤ) (xs : List ℤ) → (x ==ℤ pid) ≡ true → has_pid x xs ≡ false → has_pid pid xs ≡ false
absent_of_distinct x pid xs e h = rw (← (==ℤ_iff x pid).0 e) h

IsDistinct-Unlinked :
    (pid x : ℤ) (xs r : List ℤ)
    → (x ==ℤ pid) ≡ false
    → Unlinked pid xs (some r)
    → IsDistinct (x ∷ xs)
    → IsDistinct (x ∷ r) × (has_pid pid (x ∷ r) ≡ false)
unfolding has_pid
IsDistinct-Unlinked pid x xs r ne (_, _, others, rest) (new, d) =
    ((others x ne ∙ new, (rest d).0), rw ne (rest d).1)

has_pid-here : (x pid : ℤ) (xs : List ℤ) → (x ==ℤ pid) ≡ true → has_pid pid (x ∷ xs) ≡ true
unfolding has_pid
has_pid-here x pid xs e = rw e

has_pid-there :
    (x pid : ℤ) (xs : List ℤ) → (x ==ℤ pid) ≡ false → has_pid pid (x ∷ xs) ≡ has_pid pid xs
unfolding has_pid
has_pid-there x pid xs e = rw e

Unlinked-here : (pid x : ℤ) (xs : List ℤ) → (x ==ℤ pid) ≡ true → Unlinked pid (x ∷ xs) (some xs)
Unlinked-here pid x xs e = (
  has_pid-here x pid xs e,
  refl,
  λ q n. has_pid-other q x pid xs e n,
  λ d. (d.1, absent_of_distinct x pid xs e d.0),
)

Unlinked-there :
    (pid x : ℤ) (xs : List ℤ) (o : Option (List ℤ))
    → (x ==ℤ pid) ≡ false
    → Unlinked pid xs o
    → Unlinked pid (x ∷ xs) (elim o [ none ↦ none | some r ↦ some (x ∷ r) ])
unfolding has_pid
Unlinked-there pid x xs none n h = has_pid-there x pid xs n ∙ h
Unlinked-there pid x xs (some r) n h = (
  has_pid-there x pid xs n ∙ h.0,
  ap suc h.1,
  λ q m. ap (λ b. (x ==ℤ q) || b) (h.2 q m),
  λ d. IsDistinct-Unlinked pid x xs r n h d,
)

-- `unlink_first` takes away one node for the pid, if there is one, and no other.
pub unlink_first-Unlinked : (pid : ℤ) (xs : List ℤ) → Unlinked pid xs (unlink_first pid xs)
unfolding unlink_first has_pid
unlink_first-Unlinked pid [] = refl
unlink_first-Unlinked pid (x ∷ xs) = elim (Bool-cases (x ==ℤ pid)) [
  | inl e ↦
      subst (λ b. Unlinked pid (x ∷ xs) (if b then some xs else rest)) (sym e)
        (Unlinked-here pid x xs e)
  | inr n ↦
      subst (λ b. Unlinked pid (x ∷ xs) (if b then some xs else rest)) (sym n)
        (Unlinked-there pid x xs (unlink_first pid xs) n (unlink_first-Unlinked pid xs))
]
  where
    rest : Option (List ℤ)
    rest = elim (unlink_first pid xs) [ none ↦ none | some r ↦ some (x ∷ r) ]
