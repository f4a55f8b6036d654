-- ===== src/Swap/Create.antt =====
-- `bitmap_create` makes a valid bitmap in which every slot is free.
use cscc.Prelude.{ℕ, zero, suc, ◌+◌, ◌-◌, ◌*◌, ◌/◌, ◌%◌, ◌^◌, ◌≤◌, ◌<◌, ◌≡◌, arith, ◌∙◌}
use cscc.Prelude.{
  length, set, get_or-set, length-set, replicate, length-replicate, get_or-replicate,
}
use cscc.Prelude.{bit, bit_or, bit-bit_or, bit-pow, bit-le, bit-zero, bit_or-lt, pow-lt}
use cscc.Prelude.{Bool-cases, inl, inr, ltb→lt, ltb, leb, ◌&&◌, if◌then◌else◌, some, true}
use cscc.Swap.Bitmap.{Bitmap, ok, mark_from, bitmap_create}
use cscc.Swap.Slots.{used, IsValid}

bit-mark_from :
    (rounds j w k : ℕ)
    → bit (mark_from rounds j w) k ≡ (if leb j k && ltb k (j + rounds) then 1 else bit w k)
unfolding mark_from
bit-mark_from zero j w k = ground arith
bit-mark_from (suc rounds) j w k = ground (
  arith,
  bit-mark_from rounds (suc j) (bit_or w (2 ^ j)) k,
  bit-bit_or w (2 ^ j) k,
  bit-pow j k,
  bit-le w k,
)

mark_from-lt : (rounds j w : ℕ) → j + rounds ≤ 32 → w < 2 ^ 32 → mark_from rounds j w < 2 ^ 32
unfolding mark_from
mark_from-lt zero j w h lt = lt
mark_from-lt (suc rounds) j w h lt =
    mark_from-lt rounds (suc j) (bit_or w (2 ^ j)) (omega arith)
      (bit_or-lt 32 w (2 ^ j) lt (pow-lt j 32 (omega arith)))

-- The bitmap that `bitmap_create` returns where the last word has spare digits.
abbrev pub spare : ℕ → ℕ
spare nbits = nbits - ((nbits + 31) / 32 - 1) * 32

abbrev pub tail : ℕ → ℕ
tail nbits = mark_from (32 - spare nbits) (spare nbits) 0

abbrev pub padded : ℕ → Bitmap
padded nbits = record {
  nbits = nbits;
  v = set (replicate ((nbits + 31) / 32) 0) ((nbits + 31) / 32 - 1) (tail nbits);
}

abbrev pub exact : ℕ → Bitmap
exact nbits = record { nbits = nbits; v = replicate ((nbits + 31) / 32) 0 }

abbrev pub fresh : ℕ → Bitmap
fresh nbits = if ltb (nbits / 32) ((nbits + 31) / 32) then padded nbits else exact nbits

bitmap_create-fresh :
    (nbits : ℕ) → nbits + 31 < 2 ^ 32 → bitmap_create true true nbits ≡ ok (some (fresh nbits))
unfolding bitmap_create
bitmap_create-fresh nbits small = ground arith

used-padded :
    (nbits i : ℕ)
    → nbits / 32 < (nbits + 31) / 32
    → used (padded nbits) i ≡ (if leb nbits i && ltb i (32 * ((nbits + 31) / 32)) then 1 else 0)
unfolding used
used-padded nbits i h = ground (
  arith,
  get_or-set (replicate ((nbits + 31) / 32) 0) ((nbits + 31) / 32 - 1) (i / 32) (tail nbits) 0,
  length-replicate {A = ℕ} ((nbits + 31) / 32) 0,
  get_or-replicate {A = ℕ} ((nbits + 31) / 32) (i / 32) 0,
  bit-mark_from (32 - spare nbits) (spare nbits) 0 (i % 32),
  bit-zero (i % 32),
)

used-exact : (nbits i : ℕ) → used (exact nbits) i ≡ 0
unfolding used
used-exact nbits i =
    rw (get_or-replicate {A = ℕ} ((nbits + 31) / 32) (i / 32) 0) (bit-zero (i % 32))

padded-IsValid :
    (nbits : ℕ) → nbits + 31 < 2 ^ 32 → nbits / 32 < (nbits + 31) / 32 → IsValid (padded nbits)
padded-IsValid nbits small h = record {
  small = small;
  size = words;
  words = λ ix. ground (
    arith,
    get_or-set (replicate ((nbits + 31) / 32) 0) ((nbits + 31) / 32 - 1) ix (tail nbits) 0,
    length-replicate {A = ℕ} ((nbits + 31) / 32) 0,
    get_or-replicate {A = ℕ} ((nbits + 31) / 32) ix 0,
    mark_from-lt (32 - spare nbits) (spare nbits) 0 (omega arith) (omega arith),
  );
  spare = λ i low high. ground (arith, used-padded nbits i h, words);
}
  where
    words : length (padded nbits).v ≡ (nbits + 31) / 32
    words =
        length-set (replicate ((nbits + 31) / 32) 0) ((nbits + 31) / 32 - 1) (tail nbits)
        ∙ length-replicate ((nbits + 31) / 32) 0

exact-IsValid :
    (nbits : ℕ) → nbits + 31 < 2 ^ 32 → (nbits + 31) / 32 ≤ nbits / 32 → IsValid (exact nbits)
exact-IsValid nbits small h = record {
  small = small;
  size = length-replicate ((nbits + 31) / 32) 0;
  words = λ ix. omega (arith, get_or-replicate {A = ℕ} ((nbits + 31) / 32) ix 0);
  spare = λ i low high. absurd (omega (arith, length-replicate {A = ℕ} ((nbits + 31) / 32) 0));
}

pub fresh-IsValid : (nbits : ℕ) → nbits + 31 < 2 ^ 32 → IsValid (fresh nbits)
fresh-IsValid nbits small = elim (Bool-cases (ltb (nbits / 32) ((nbits + 31) / 32))) [
  | inl e ↦ rw e (padded-IsValid nbits small (ltb→lt (nbits / 32) ((nbits + 31) / 32) e))
  | inr n ↦ rw n (exact-IsValid nbits small (ground arith))
]

-- For fewer than 2^32 - 31 slots, and with memory for both parts, `bitmap_create` passes its
-- assertions and makes a valid bitmap of that many slots, all free.
pub bitmap_create-IsValid :
    (nbits : ℕ)
    → nbits + 31 < 2 ^ 32
    → (b : Bitmap) × (bitmap_create true true nbits ≡ ok (some b))
      × (b.nbits ≡ nbits)
      × IsValid b
      × ((i : ℕ) → i < nbits → used b i ≡ 0)
bitmap_create-IsValid nbits small = (
  fresh nbits,
  bitmap_create-fresh nbits small,
  ground arith,
  fresh-IsValid nbits small,
  λ i lt. ground (arith, used-padded nbits i, used-exact nbits i),
)
