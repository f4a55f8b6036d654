-- ===== src/Swap/Slots.antt =====
-- A bitmap as the set of the slots in use.
use cscc.Prelude.{ℕ, zero, suc, ◌+◌, ◌*◌, ◌/◌, ◌%◌, ◌^◌, ◌≤◌, ◌<◌, ◌≡◌, arith, refl}
use cscc.Prelude.{length, get_or, set, length-set, get_or-set}
use cscc.Prelude.{
  bit, bit_and, bit_or, bit-bit_or, bit-pow, bit-le, bit_or-lt, pow-lt, clear_iff, ap, ◌∙◌,
}
use cscc.Prelude.{◌==◌, if◌then◌else◌, Option, none, some, Bool-cases, inl, inr}
use native.Mathlib.Decide.{ℕ_discrete}
use cscc.Swap.Bitmap.{Bitmap, find_offset}

-- 1 if slot `i` is in use, else 0.
unfoldable pub used : Bitmap → ℕ → ℕ
used b i = bit (get_or b.v (i / 32) 0) (i % 32)

-- The words are 32-bit numbers, as many as the slots need, and the spare digits of the last word
-- are marked.
pub record IsValid (b : Bitmap) : Type 0 where
  pub small : b.nbits + 31 < 2 ^ 32
  pub size : length b.v ≡ (b.nbits + 31) / 32
  pub words : (ix : ℕ) → get_or b.v ix 0 < 2 ^ 32
  pub spare : (i : ℕ) → b.nbits ≤ i → i < 32 * length b.v → used b i ≡ 1

-- A slot marked: the digit of its word is set.
abbrev pub marked : Bitmap → (ix offset : ℕ) → Bitmap
marked b ix offset = record b { v = set b.v ix (bit_or (get_or b.v ix 0) (2 ^ offset)) }

pub used-marked :
    (b : Bitmap) (ix offset j : ℕ)
    → ix < length b.v
    → offset < 32
    → used (marked b ix offset) j ≡ (if j == ix * 32 + offset then 1 else used b j)
unfolding used
used-marked b ix offset j h lt = ground (
  arith,
  get_or-set b.v ix (j / 32) (bit_or (get_or b.v ix 0) (2 ^ offset)) 0 h,
  bit-bit_or (get_or b.v ix 0) (2 ^ offset) (j % 32),
  bit-pow offset (j % 32),
  bit-le (get_or b.v ix 0) (j % 32),
)

-- Marking a slot below `nbits` keeps the bitmap valid.
pub marked-IsValid :
    (b : Bitmap) (ix offset : ℕ)
    → ix < length b.v
    → offset < 32
    → IsValid b
    → IsValid (marked b ix offset)
marked-IsValid b ix offset h lt v = record {
  small = v.small;
  size = length-set b.v ix (bit_or (get_or b.v ix 0) (2 ^ offset)) ∙ v.size;
  words = λ j. ground (
    arith,
    get_or-set b.v ix j (bit_or (get_or b.v ix 0) (2 ^ offset)) 0 h,
    v.words j,
    bit_or-lt 32 (get_or b.v ix 0) (2 ^ offset) (v.words ix) (pow-lt offset 32 lt),
  );
  spare = λ i low high. ground (
    arith,
    used-marked b ix offset i h lt,
    v.spare i low,
    length-set b.v ix (bit_or (get_or b.v ix 0) (2 ^ offset)),
  );
}

-- What the inner loop of `bitmap_alloc` finds: the first clear digit, if there is one.
abbrev pub Found : (rounds offset w : ℕ) → Option ℕ → Type 0
Found rounds offset w none = (k : ℕ) → offset ≤ k → k < offset + rounds → bit w k ≡ 1
Found rounds offset w (some o) =
    (offset ≤ o)
    × (o < offset + rounds)
    × (bit w o ≡ 0)
    × ((k : ℕ) → offset ≤ k → k < o → bit w k ≡ 1)

Found-here : (rounds offset w : ℕ) → bit w offset ≡ 0 → Found (suc rounds) offset w (some offset)
Found-here rounds offset w e = (omega arith, omega arith, e, λ k low high. absurd (omega arith))

Found-later :
    (rounds offset w : ℕ) (o : Option ℕ)
    → bit w offset ≡ 1
    → Found rounds (suc offset) w o
    → Found (suc rounds) offset w o
Found-later rounds offset w none e h = λ k low high. elim (ℕ_discrete k offset) [
  | yes same ↦ ap (bit w) same ∙ e
  | no other ↦ h k (omega arith) (omega arith)
]
Found-later rounds offset w (some o) e h = (
  omega arith,
  omega arith,
  h.2,
  λ k low high. elim (ℕ_discrete k offset) [
    | yes same ↦ ap (bit w) same ∙ e
    | no other ↦ h.3 k (omega arith) high
  ],
)

pub find_offset-Found : (rounds offset w : ℕ) → Found rounds offset w (find_offset rounds offset w)
unfolding find_offset
find_offset-Found zero offset w = λ k low high. absurd (omega arith)
find_offset-Found (suc rounds) offset w = elim (Bool-cases (bit_and w (2 ^ offset) == 0)) [
  | inl e ↦ rw e (Found-here rounds offset w (ground (arith, clear_iff w offset)))
  | inr n ↦ rw n (
      Found-later rounds offset w (find_offset rounds (suc offset) w)
        (ground (arith, clear_iff w offset, bit-le w offset))
        (find_offset-Found rounds (suc offset) w))
]

pub used-slot : (b : Bitmap) (ix k : ℕ) → k < 32 → used b (ix * 32 + k) ≡ bit (get_or b.v ix 0) k
unfolding used
used-slot b ix k h =
    let word : (ix * 32 + k) / 32 ≡ ix = omega arith in
    let digit : (ix * 32 + k) % 32 ≡ k = omega arith in rw (word, digit) refl
