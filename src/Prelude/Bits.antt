-- ===== src/Prelude/Bits.antt =====
-- The digits of a word, and what `&`, `|` and `~` do to each. The tactics take `bit_and` and
-- `bit_or` for unknowns; these lemmas give them their meaning, digit by digit.
use Prim.Native.Nat.{ℕ, zero, suc, ◌+◌, ◌-◌, ◌*◌, ◌/◌, ◌%◌, ◌^◌, ◌≤◌, ◌<◌, min, max, digits}
use Prim.Native.Nat.{bit_and, bit_or, bit_and-bitwise, bit_or-bitwise}
use mathlib.Core.Path.{◌≡◌, refl, sym, ap, ◌∙◌}
use native.Mathlib.Nat.{pow-suc, mul_assoc}
use native.Mathlib.Omega.{arith}
use cscc.Prelude.Tests.{◌==◌, if◌then◌else◌}

-- Digit `k`, from the lowest.
unfoldable pub bit : ℕ → ℕ → ℕ
bit a zero = a % 2
bit a (suc k) = bit (a / 2) k

-- `digits` spends one unit of fuel on each digit of the first word, and any fuel beyond the word's
-- value is left over. `rest` is what a word of no digits gives.
module _ (rest : ℕ → ℕ) (join : ℕ → ℕ → ℕ)
    (law : (v : ℕ) → rest v ≡ rest (v / 2) * 2 + join 0 (v % 2)) where
  one_more : (fuel w v : ℕ) → w ≤ fuel → digits rest join (suc fuel) w v ≡ digits rest join fuel w v
  one_more zero zero v fits = refl
  one_more (suc fuel) zero v fits = refl
  one_more zero (suc w) v fits = elim fits [ ]
  one_more (suc fuel) (suc w) v fits =
      ap (λ (high : ℕ). high * 2 + join (suc w % 2) (v % 2))
        (one_more fuel (suc w / 2) (v / 2) (omega arith))

  left_over : (extra w v : ℕ) → digits rest join (extra + w) w v ≡ digits rest join w w v
  left_over zero w v = ap (λ k. digits rest join k w v) (omega arith)
  left_over (suc extra) w v =
      let fuel : suc extra + w ≡ suc (extra + w) = omega arith in
      ap (λ k. digits rest join k w v) fuel
      ∙ one_more (extra + w) w v (omega arith)
      ∙ left_over extra w v

  lowest :
      (w v : ℕ)
      → digits rest join w w v ≡ digits rest join (w / 2) (w / 2) (v / 2) * 2 + join (w % 2) (v % 2)
  lowest zero v = law v
  lowest (suc w) v =
      ap (λ (high : ℕ). high * 2 + join (suc w % 2) (v % 2))
        (ap (λ k. digits rest join k (suc w / 2) (v / 2)) (omega arith)
          ∙ left_over (w - suc w / 2) (suc w / 2) (v / 2))

pub bit_and_lowest : (w v : ℕ) → bit_and w v ≡ bit_and (w / 2) (v / 2) * 2 + min (w % 2) (v % 2)
bit_and_lowest w v =
    bit_and-bitwise w v
    ∙ lowest (λ _. zero) min (λ _. omega arith) w v
    ∙ ap (λ (high : ℕ). high * 2 + min (w % 2) (v % 2)) (sym (bit_and-bitwise (w / 2) (v / 2)))

pub bit_or_lowest : (w v : ℕ) → bit_or w v ≡ bit_or (w / 2) (v / 2) * 2 + max (w % 2) (v % 2)
bit_or_lowest w v =
    bit_or-bitwise w v
    ∙ lowest (λ y. y) max (λ _. omega arith) w v
    ∙ ap (λ (high : ℕ). high * 2 + max (w % 2) (v % 2)) (sym (bit_or-bitwise (w / 2) (v / 2)))

pub bit-bit_and : (a b k : ℕ) → bit (bit_and a b) k ≡ min (bit a k) (bit b k)
unfolding bit
bit-bit_and a b zero = omega (arith, bit_and_lowest a b)
bit-bit_and a b (suc k) =
    ap (λ t. bit t k) (omega (arith, bit_and_lowest a b)) ∙ bit-bit_and (a / 2) (b / 2) k

pub bit-bit_or : (a b k : ℕ) → bit (bit_or a b) k ≡ max (bit a k) (bit b k)
unfolding bit
bit-bit_or a b zero = omega (arith, bit_or_lowest a b)
bit-bit_or a b (suc k) =
    ap (λ t. bit t k) (omega (arith, bit_or_lowest a b)) ∙ bit-bit_or (a / 2) (b / 2) k

pub bit-le : (a k : ℕ) → bit a k ≤ 1
unfolding bit
bit-le a zero = omega arith
bit-le a (suc k) = bit-le (a / 2) k

pub bit-zero : (k : ℕ) → bit 0 k ≡ 0
unfolding bit
bit-zero zero = refl
bit-zero (suc k) = bit-zero k

pub bit-pow : (j k : ℕ) → bit (2 ^ j) k ≡ (if j == k then 1 else 0)
unfolding bit
bit-pow zero zero = refl
bit-pow zero (suc k) = bit-zero k ∙ ground arith
bit-pow (suc j) zero = ground (arith, pow-suc 2 j)
bit-pow (suc j) (suc k) =
    ap (λ t. bit t k) (omega (arith, pow-suc 2 j)) ∙ bit-pow j k ∙ ground arith

-- The complement of a word of `n` digits.
pub bit-complement : (n m k : ℕ) → m < 2 ^ n → k < n → bit (2 ^ n - 1 - m) k + bit m k ≡ 1
unfolding bit
bit-complement zero m k h lt = absurd (omega arith)
bit-complement (suc n) m zero h lt = omega (arith, pow-suc 2 n)
bit-complement (suc n) m (suc k) h lt =
    ap (λ t. bit t k + bit (m / 2) k) (omega (arith, pow-suc 2 n))
    ∙ bit-complement n (m / 2) k (omega (arith, pow-suc 2 n)) (omega arith)

none-bit_and : (v : ℕ) → bit_and 0 v ≡ 0
none-bit_and v = bit_and-bitwise 0 v

bit_and-zero : (n a : ℕ) → a ≤ n → bit_and a 0 ≡ 0
bit_and-zero n zero h = none-bit_and 0
bit_and-zero zero (suc a) h = absurd (omega arith)
bit_and-zero (suc n) (suc a) h =
    omega (arith, bit_and_lowest (suc a) 0, bit_and-zero n (suc a / 2) (omega arith))

-- `a & (1 << k)` is 0 exactly if digit `k` is.
pub bit_and-pow : (a k : ℕ) → bit_and a (2 ^ k) ≡ bit a k * 2 ^ k
unfolding bit
bit_and-pow a zero = omega (arith, bit_and_lowest a 1, bit_and-zero (a / 2) (a / 2) (omega arith))
bit_and-pow a (suc k) =
    let lower : bit_and (a / 2) (2 ^ k) ≡ bit (a / 2) k * 2 ^ k = bit_and-pow (a / 2) k in
    let half : bit_and (a / 2) (2 ^ suc k / 2) ≡ bit_and (a / 2) (2 ^ k) =
      ap (bit_and (a / 2)) (omega (arith, pow-suc 2 k)) in
    let twice : bit (a / 2) k * 2 ^ suc k ≡ bit (a / 2) k * 2 ^ k * 2 =
      ap (λ t. bit (a / 2) k * t) (pow-suc 2 k) ∙ sym (mul_assoc (bit (a / 2) k) (2 ^ k) 2) in
    omega (arith, pow-suc 2 k, bit_and_lowest a (2 ^ suc k), half, lower, twice)

pub bit_or-lt : (n a b : ℕ) → a < 2 ^ n → b < 2 ^ n → bit_or a b < 2 ^ n
bit_or-lt zero zero b h g = omega (arith, bit_or-bitwise 0 b)
bit_or-lt zero (suc a) b h g = absurd (omega arith)
bit_or-lt (suc n) a b h g = omega (
  arith,
  pow-suc 2 n,
  bit_or_lowest a b,
  bit_or-lt n (a / 2) (b / 2) (omega (arith, pow-suc 2 n)) (omega (arith, pow-suc 2 n)),
)

pub bit_and-le : (n a b : ℕ) → a ≤ n → bit_and a b ≤ a
bit_and-le zero zero b h = omega (arith, none-bit_and b)
bit_and-le zero (suc a) b h = absurd (omega arith)
bit_and-le (suc n) zero b h = omega (arith, none-bit_and b)
bit_and-le (suc n) (suc a) b h =
    omega (arith, bit_and_lowest (suc a) b, bit_and-le n (suc a / 2) (b / 2) (omega arith))

-- A word whose digits are all 1 is the greatest.
pub all_ones : (n a : ℕ) → a < 2 ^ n → ((k : ℕ) → k < n → bit a k ≡ 1) → a ≡ 2 ^ n - 1
unfolding bit
all_ones zero a h ones = omega arith
all_ones (suc n) a h ones = omega (
  arith,
  pow-suc 2 n,
  ones 0 (omega arith),
  all_ones n (a / 2) (omega (arith, pow-suc 2 n)) (λ k lt. ones (suc k) (omega arith)),
)

pub pow-pos : (k : ℕ) → 0 < 2 ^ k
pow-pos zero = omega arith
pow-pos (suc k) = omega (arith, pow-suc 2 k, pow-pos k)

pub pow-lt : (j n : ℕ) → j < n → 2 ^ j < 2 ^ n
pow-lt j zero h = absurd (omega arith)
pow-lt zero (suc n) h = omega (arith, pow-suc 2 n, pow-pos n)
pow-lt (suc j) (suc n) h = omega (arith, pow-suc 2 j, pow-suc 2 n, pow-lt j n (omega arith))

-- The test `(a & (1 << k)) == 0` reads digit `k`.
pub clear_iff : (a k : ℕ) → (bit_and a (2 ^ k) == 0) ≡ (bit a k == 0)
clear_iff a k = go (bit a k) (bit_and-pow a k) (bit-le a k)
  where
    go : (d : ℕ) → bit_and a (2 ^ k) ≡ d * 2 ^ k → d ≤ 1 → (bit_and a (2 ^ k) == 0) ≡ (d == 0)
    go zero e h = rw e (ground arith)
    go (suc zero) e h = ground (arith, pow-pos k)
    go (suc (suc d)) e h = absurd (omega arith)

-- Every digit of the word with all bits set is 1.
pub bit-all_ones : (n k : ℕ) → k < n → bit (2 ^ n - 1) k ≡ 1
bit-all_ones n k h =
    let same : bit (2 ^ n - 1) k ≡ bit (2 ^ n - 1 - 0) k = ap (λ t. bit t k) (omega arith) in
    omega (arith, same, bit-complement n 0 k (pow-pos n) h, bit-zero k)

-- `a >> k`, a digit at a time.
shr : ℕ → ℕ → ℕ
shr zero a = a
shr (suc k) a = shr k (a / 2)

shr-bit_or : (k a b : ℕ) → shr k (bit_or a b) ≡ bit_or (shr k a) (shr k b)
unfolding shr
shr-bit_or zero a b = refl
shr-bit_or (suc k) a b =
    ap (shr k) (omega (arith, bit_or_lowest a b)) ∙ shr-bit_or k (a / 2) (b / 2)

bit_or-zero : (n a : ℕ) → a ≤ n → bit_or a 0 ≡ a
bit_or-zero n zero h = bit_or-bitwise 0 0
bit_or-zero zero (suc a) h = elim h [ ]
bit_or-zero (suc n) (suc a) h =
    omega (arith, bit_or_lowest (suc a) 0, bit_or-zero n (suc a / 2) (omega arith))

-- An `or` with a number of fewer than twelve digits leaves the digits above alone.
pub bit_or-high : (a b : ℕ) → b < 2 ^ 12 → bit_or a b / 2 ^ 12 ≡ a / 2 ^ 12
bit_or-high a b h =
    twelve (bit_or a b)
    ∙ shr-bit_or 12 a b
    ∙ ap (bit_or (shr 12 a)) (sym (twelve b) ∙ small)
    ∙ bit_or-zero (shr 12 a) (shr 12 a) (omega arith)
    ∙ sym (twelve a)
  where
    twelve : (x : ℕ) → x / 2 ^ 12 ≡ shr 12 x
    twelve x = unfold shr in omega arith

    small : b / 2 ^ 12 ≡ 0
    small = omega arith

shr-bit_and : (k a b : ℕ) → shr k (bit_and a b) ≡ bit_and (shr k a) (shr k b)
unfolding shr
shr-bit_and zero a b = refl
shr-bit_and (suc k) a b =
    ap (shr k) (omega (arith, bit_and_lowest a b)) ∙ shr-bit_and k (a / 2) (b / 2)

-- An `and` with all ones changes nothing.
bit_and-ones : (n a : ℕ) → a < 2 ^ n → bit_and a (2 ^ n - 1) ≡ a
bit_and-ones zero a h = let none : a ≡ 0 = omega arith in rw none (none-bit_and 0)
bit_and-ones (suc n) a h =
    let half : bit_and (a / 2) ((2 ^ suc n - 1) / 2) ≡ bit_and (a / 2) (2 ^ n - 1) =
      ap (bit_and (a / 2)) (omega (arith, pow-suc 2 n)) in
    omega (
      arith,
      pow-suc 2 n,
      pow-pos n,
      bit_and_lowest a (2 ^ suc n - 1),
      half,
      bit_and-ones n (a / 2) (omega (arith, pow-suc 2 n)),
    )

-- An `and` with a word that has all digits above the lowest twelve leaves those digits alone.
pub bit_and-high :
    (a m : ℕ) → a < 2 ^ 32 → m / 2 ^ 12 ≡ 2 ^ 20 - 1 → bit_and a m / 2 ^ 12 ≡ a / 2 ^ 12
bit_and-high a m h full =
    twelve (bit_and a m)
    ∙ shr-bit_and 12 a m
    ∙ ap (bit_and (shr 12 a)) (sym (twelve m) ∙ full)
    ∙ bit_and-ones 20 (shr 12 a) (omega (arith, twelve a))
    ∙ sym (twelve a)
  where
    twelve : (x : ℕ) → x / 2 ^ 12 ≡ shr 12 x
    twelve x = unfold shr in omega arith
