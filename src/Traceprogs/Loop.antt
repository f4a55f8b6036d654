-- ===== src/Traceprogs/Loop.antt =====
-- The loops `for (i = 0; i < n; i++)`, and what they do to one part of the state.
use cscc.Prelude.{ℕ, zero, suc, ◌+◌, ◌*◌, ◌≡◌, ◌≢◌, ◌<◌, refl, ap, ◌∙◌, arith}
use native.Mathlib.Decide.{ℕ_discrete, dec_lt}
use native.Mathlib.Nat.{mul-le-mul_right}

-- The body runs on 0, 1, …, `n - 1`.
unfoldable pub loop : {S : Type 0} → (n : ℕ) → (ℕ → S → S) → S → S
loop zero body s = s
loop (suc n) body s = body n (loop n body s)

module _ {S V : Type 0} (obs : S → V) (body : ℕ → S → S) where
  -- A body that keeps the part.
  pub loop-stays :
      (n : ℕ) (s : S)
      → ((i : ℕ) → i < n → (s : S) → obs (body i s) ≡ obs s)
      → obs (loop n body s) ≡ obs s
  unfolding loop
  loop-stays zero s h = refl
  loop-stays (suc n) s h =
      h n (omega arith) (loop n body s) ∙ loop-stays n s (λ i lt. h i (omega arith))

  -- A body that acts on the part by itself.
  pub loop-acts :
      (g : ℕ → V → V) (n : ℕ) (s : S)
      → ((i : ℕ) → i < n → (s : S) → obs (body i s) ≡ g i (obs s))
      → obs (loop n body s) ≡ loop n g (obs s)
  unfolding loop
  loop-acts g zero s h = refl
  loop-acts g (suc n) s h =
      h n (omega arith) (loop n body s) ∙ ap (g n) (loop-acts g n s (λ i lt. h i (omega arith)))

  -- A body that changes the part in one round only.
  pub loop-once :
      (g : V → V) (k n : ℕ) (s : S)
      → k < n
      → ((i : ℕ) → i < n → i ≢ k → (s : S) → obs (body i s) ≡ obs s)
      → ((s : S) → obs (body k s) ≡ g (obs s))
      → obs (loop n body s) ≡ g (obs s)
  unfolding loop
  loop-once g k zero s lt others here = absurd (omega arith)
  loop-once g k (suc n) s lt others here = elim (ℕ_discrete n k) [
    | yes same ↦
        ap (λ i. obs (body i (loop n body s))) same
        ∙ here (loop n body s)
        ∙ ap g (loop-stays n s (λ i below. others i (omega arith) (omega arith)))
    | no other ↦
        others n (omega arith) other (loop n body s)
        ∙ loop-once g k n s (omega arith) (λ i below. others i (omega arith)) here
  ]

-- The same for two loops, one in the other.
module _ {S V : Type 0} (obs : S → V) (body : ℕ → ℕ → S → S) (m n : ℕ) where
  pub pair-stays :
      (s : S)
      → ((x y : ℕ) → x < m → y < n → (s : S) → obs (body x y s) ≡ obs s)
      → obs (loop m (λ x. loop n (body x)) s) ≡ obs s
  pair-stays s h =
      loop-stays obs (λ x. loop n (body x)) m s
        (λ x lt s. loop-stays obs (body x) n s (λ y lt'. h x y lt lt'))

  pub pair-once :
      (g : V → V) (x y : ℕ) (s : S)
      → x < m
      → y < n
      → ((x' y' : ℕ)
          → x' < m
          → y' < n
          → ¬ ((x' ≡ x) × (y' ≡ y))
          → (s : S) → obs (body x' y' s) ≡ obs s)
      → ((s : S) → obs (body x y s) ≡ g (obs s))
      → obs (loop m (λ x. loop n (body x)) s) ≡ g (obs s)
  pair-once g x y s lt lt' others here =
      loop-once obs (λ x. loop n (body x)) g x m s lt
        (λ x' low other s.
          loop-stays obs (body x') n s (λ y' low'. others x' y' low low' (λ same. other same.0)))
        (λ s.
          loop-once obs (body x) g y n s lt'
            (λ y' low' other. others x y' lt low' (λ same. other same.1)) here)

module _ {S : Type 0} (body : ℕ → S → S) where
  pub loop-add :
      (m n : ℕ) (s : S) → loop (m + n) body s ≡ loop n (λ k. body (m + k)) (loop m body s)
  unfolding loop
  loop-add m zero s = let e : m + 0 ≡ m = omega arith in ap (λ k. loop k body s) e
  loop-add m (suc n) s =
      let e : m + suc n ≡ suc (m + n) = omega arith in
      ap (λ k. loop k body s) e ∙ ap (body (m + n)) (loop-add m n s)

  -- A loop in blocks of `b` rounds.
  pub loop_blocks :
      (m b : ℕ) (s : S) → loop (m * b) body s ≡ loop m (λ i. loop b (λ k. body (i * b + k))) s
  unfolding loop
  loop_blocks zero b s = let e : 0 * b ≡ 0 = omega arith in ap (λ k. loop k body s) e
  loop_blocks (suc m) b s =
      let e : suc m * b ≡ m * b + b = omega arith in
      ap (λ k. loop k body s) e
      ∙ loop-add (m * b) b s
      ∙ ap (loop b (λ k. body (m * b + k))) (loop_blocks m b s)

-- Numbers with one digit below `m`.
pub radix-ne : (m x y x' y' : ℕ) → y < m → y' < m → x ≢ x' → x * m + y ≢ x' * m + y'
radix-ne m x y x' y' lt lt' ne same = elim (dec_lt x x') [
  | yes below ↦
      let far = mul-le-mul_right {m = x + 1} {n = x'} m (omega arith) in absurd (omega (arith, far))
  | no above ↦
      let far = mul-le-mul_right {m = x' + 1} {n = x} m (omega arith) in absurd (omega (arith, far))
]

pub radix-lt : (m n x y : ℕ) → x < n → y < m → x * m + y < n * m
radix-lt m n x y lt lt' = grind arith

pub radix-inj : (m x y x' y' : ℕ) → y < m → y' < m → x * m + y ≡ x' * m + y' → (x ≡ x') × (y ≡ y')
radix-inj m x y x' y' lt lt' same = elim (ℕ_discrete x x') [
  | yes e ↦ let e' : x * m ≡ x' * m = ap (λ k. k * m) e in (e, omega (arith, same))
  | no ne ↦ absurd (radix-ne m x y x' y' lt lt' ne same)
]
