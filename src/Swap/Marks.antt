-- ===== src/Swap/Marks.antt =====
-- `bitmap_mark`, `bitmap_unmark`, `bitmap_isset` and `bitmap_create` on the set of used slots.
use cscc.Prelude.{
  ℕ, ◌+◌, ◌-◌, ◌*◌, ◌/◌, ◌%◌, ◌^◌, ◌≤◌, ◌<◌, ◌≡◌, ◌≢◌, ◌↔◌, arith, refl, sym, ap, ◌∙◌,
}
use cscc.Prelude.{length, get_or, set, get_or-set, length-set}
use cscc.Prelude.{
  bit, bit_and, bit-bit_and, bit-pow, bit-le, bit-complement, bit_and-le, pow-lt, clear_iff,
}
use cscc.Prelude.{◌==◌, ltb, ltb→lt, Bool, if◌then◌else◌, ◌⊎◌, inl, inr, true, false, not}
use cscc.Swap.Bitmap.{assert, Bitmap, Run, ok, abort, bitmap_mark, bitmap_unmark, bitmap_isset}
use cscc.Swap.Slots.{used, IsValid, marked, used-marked, marked-IsValid}

-- A slot unmarked: the digit of its word is cleared.
abbrev cleared : Bitmap → (ix offset : ℕ) → Bitmap
cleared b ix offset = record b {
  v = set b.v ix (bit_and (get_or b.v ix 0) (2 ^ 32 - 1 - 2 ^ offset));
}

mask-bit :
    (offset k : ℕ)
    → offset < 32
    → k < 32
    → bit (2 ^ 32 - 1 - 2 ^ offset) k ≡ (if k == offset then 0 else 1)
mask-bit offset k h lt =
    ground (arith, bit-complement 32 (2 ^ offset) k (pow-lt offset 32 h) lt, bit-pow offset k)

used-cleared :
    (b : Bitmap) (ix offset j : ℕ)
    → ix < length b.v
    → offset < 32
    → used (cleared b ix offset) j ≡ (if j == ix * 32 + offset then 0 else used b j)
unfolding used
used-cleared b ix offset j h lt = ground (
  arith,
  get_or-set b.v ix (j / 32) (bit_and (get_or b.v ix 0) (2 ^ 32 - 1 - 2 ^ offset)) 0 h,
  bit-bit_and (get_or b.v ix 0) (2 ^ 32 - 1 - 2 ^ offset) (j % 32),
  mask-bit offset (j % 32) lt (omega arith),
  bit-le (get_or b.v ix 0) (j % 32),
)

cleared-IsValid :
    (b : Bitmap) (ix offset : ℕ)
    → ix < length b.v
    → offset < 32
    → ix * 32 + offset < b.nbits
    → IsValid b
    → IsValid (cleared b ix offset)
cleared-IsValid b ix offset h lt below v = record {
  small = v.small;
  size = length-set b.v ix (bit_and (get_or b.v ix 0) (2 ^ 32 - 1 - 2 ^ offset)) ∙ v.size;
  words = λ j. ground (
    arith,
    get_or-set b.v ix j (bit_and (get_or b.v ix 0) (2 ^ 32 - 1 - 2 ^ offset)) 0 h,
    v.words j,
    v.words ix,
    bit_and-le (get_or b.v ix 0) (get_or b.v ix 0) (2 ^ 32 - 1 - 2 ^ offset) (omega arith),
  );
  spare = λ i low high. ground (
    arith,
    used-cleared b ix offset i h lt,
    v.spare i low,
    length-set b.v ix (bit_and (get_or b.v ix 0) (2 ^ 32 - 1 - 2 ^ offset)),
  );
}

-- What a change of slot `i` to `value` promises; `old` is what the slot must hold before.
abbrev pub Changed : Bitmap → (i old value : ℕ) → Run Bitmap → Type 0
Changed b i old value abort = (b.nbits ≤ i) ⊎ (used b i ≢ old)
Changed b i old value (ok b') =
    (i < b.nbits)
    × (used b i ≡ old)
    × ((j : ℕ) → used b' j ≡ (if j == i then value else used b j))
    × IsValid b'

-- Clearing a slot of a valid bitmap: `bitmap_unmark` aborts exactly if the slot lies beyond `nbits`
-- or is free; else it frees that slot and no other, and the bitmap is valid again.
pub bitmap_unmark-Changed : (b : Bitmap) (i : ℕ) → IsValid b → Changed b i 1 0 (bitmap_unmark b i)
unfolding bitmap_unmark
bitmap_unmark-Changed b i v =
    go (ltb i b.nbits) refl (bit_and (get_or b.v (i / 32) 0) (2 ^ (i % 32)) == 0) refl
  where
    digit : used b i ≡ bit (get_or b.v (i / 32) 0) (i % 32)
    digit = unfold used in refl

    test : (bit_and (get_or b.v (i / 32) 0) (2 ^ (i % 32)) == 0) ≡ (used b i == 0)
    test = clear_iff (get_or b.v (i / 32) 0) (i % 32) ∙ ap (λ d. d == 0) (sym digit)

    small : used b i ≤ 1
    small = rw digit (bit-le (get_or b.v (i / 32) 0) (i % 32))

    go :
        (below : Bool)
        → ltb i b.nbits ≡ below
        → (clear : Bool) → (bit_and (get_or b.v (i / 32) 0) (2 ^ (i % 32)) == 0) ≡ clear
        → Changed b i 1 0 (assert below (assert (not clear) (ok (cleared b (i / 32) (i % 32)))))
    go false e clear d = inl (ground arith)
    go true e true d = inr (ground (arith, test))
    go true e false d = (
      ltb→lt i b.nbits e,
      ground (arith, test, small),
      (λ j. ground (arith, used-cleared b (i / 32) (i % 32) j, v.size)),
      cleared-IsValid b (i / 32) (i % 32) (omega (arith, v.size, ltb→lt i b.nbits e)) (omega arith)
          (omega (arith, ltb→lt i b.nbits e)) v,
    )

-- Marking a slot: `bitmap_mark` aborts exactly if the slot lies beyond `nbits` or is in use; else it
-- marks that slot and no other, and the bitmap is valid again.
bitmap_mark-Changed : (b : Bitmap) (i : ℕ) → IsValid b → Changed b i 0 1 (bitmap_mark b i)
unfolding bitmap_mark
bitmap_mark-Changed b i v =
    go (ltb i b.nbits) refl (bit_and (get_or b.v (i / 32) 0) (2 ^ (i % 32)) == 0) refl
  where
    test : (bit_and (get_or b.v (i / 32) 0) (2 ^ (i % 32)) == 0) ≡ (used b i == 0)
    test = unfold used in clear_iff (get_or b.v (i / 32) 0) (i % 32)

    go :
        (below : Bool)
        → ltb i b.nbits ≡ below
        → (clear : Bool) → (bit_and (get_or b.v (i / 32) 0) (2 ^ (i % 32)) == 0) ≡ clear
        → Changed b i 0 1 (assert below (assert clear (ok (marked b (i / 32) (i % 32)))))
    go false e clear d = inl (ground arith)
    go true e false d = inr (ground (arith, test))
    go true e true d = (
      ltb→lt i b.nbits e,
      ground (arith, test),
      (λ j. ground (arith, used-marked b (i / 32) (i % 32) j, v.size)),
      marked-IsValid b (i / 32) (i % 32) (omega (arith, v.size, ltb→lt i b.nbits e)) (omega arith)
          v,
    )

-- `bitmap_isset` is zero exactly if the slot is free.
pub bitmap_isset-used : (b : Bitmap) (i : ℕ) → (bitmap_isset b i ≡ 0) ↔ (used b i ≡ 0)
unfolding bitmap_isset used
bitmap_isset-used b i = (
  (λ h. ground (arith, clear_iff (get_or b.v (i / 32) 0) (i % 32))),
  λ h. ground (arith, clear_iff (get_or b.v (i / 32) 0) (i % 32)),
)
