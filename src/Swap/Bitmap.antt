-- ===== src/Swap/Bitmap.antt =====
-- The bitmap of swap.c, which manages the slots of the swap file.
use cscc.Prelude.{ℕ, zero, suc, ◌+◌, ◌-◌, ◌*◌, ◌/◌, ◌%◌, ◌^◌, bit_and, bit_or, Option, none, some}
use cscc.Prelude.{List, get_or, set, replicate, Bool, true, false, not, ◌&&◌, ltb, ◌==◌}
use cscc.Prelude.{if◌then◌else◌}

-- A call returns, or the process ends in it: an `assert` fails, a bad pointer is followed, or the code
-- calls `exit(1)`.
pub data Run (A : Type 0) : Type 0 where
  ok : A → Run A
  abort : Run A

abbrev pub assert : {A : Type 0} → Bool → Run A → Run A
assert true r = r
assert false r = abort

infixl 5 ◌>>=◌
abbrev pub ◌>>=◌ : {A B : Type 0} → Run A → (A → Run B) → Run B
ok a >>= f = f a
abort >>= f = abort

-- A call that returns, with what holds of its result.
abbrev pub Returns : {A : Type 0} → (A → Type 0) → Run A → Type 0
Returns P (ok a) = P a
Returns P abort = ⊥

pub Returns-bind :
    {A B : Type 0} (P : A → Type 0) (Q : B → Type 0) (m : Run A) (f : A → Run B)
    → Returns P m
    → ((a : A) → P a → Returns Q (f a))
    → Returns Q (m >>= f)
Returns-bind P Q (ok a) f h k = k a h
Returns-bind P Q abort f h k = h

pub Returns-map :
    {A : Type 0} (P Q : A → Type 0) (m : Run A) → Returns P m → ((a : A) → P a → Q a) → Returns Q m
Returns-map P Q (ok a) h k = k a h
Returns-map P Q abort h k = h

-- `struct bitmap`: the words are 32-bit numbers, lowest slots first.
pub record Bitmap : Type 0 where
  pub nbits : ℕ
  pub v : List ℕ

abbrev pub bits_per_word : ℕ
bits_per_word = 32

abbrev pub word_allbits : ℕ
word_allbits = 0xffffffff

-- `DIVROUNDUP(nbits, BITS_PER_WORD)`, in unsigned arithmetic.
abbrev pub words_for : ℕ → ℕ
words_for nbits = (nbits + 32 - 1) % 2 ^ 32 / 32

-- `for (j = ...; j < 32; j++) w |= 1 << j`, over the `rounds` that are left.
unfoldable pub mark_from : (rounds j : ℕ) → ℕ → ℕ
mark_from zero j w = w
mark_from (suc rounds) j w = mark_from rounds (suc j) (bit_or w (2 ^ j))

-- `bitmap_create`; the flags say whether the two calls of `malloc` succeed.
unfoldable pub bitmap_create : (malloc1 malloc2 : Bool) → ℕ → Run (Option Bitmap)
unfolding mark_from
bitmap_create malloc1 malloc2 nbits =
    let words = words_for nbits in
    let v = replicate words 0 in
    let ix = words - 1 in
    let overbits = nbits - ix * 32 in
    let last = mark_from (32 - overbits) overbits 0 in
    if not malloc1
    then ok none
    else if not malloc2
    then ok none
    else if ltb (nbits / 32) words
    then assert (nbits / 32 == words - 1) (
        assert (ltb 0 overbits && ltb overbits 32)
          (ok (some (record { nbits = nbits; v = set v ix last }))))
    else ok (some (record { nbits = nbits; v = v }))

-- The inner loop of `bitmap_alloc`: the first clear digit of `w` from `offset` on.
unfoldable pub find_offset : (rounds offset : ℕ) → ℕ → Option ℕ
find_offset zero offset w = none
find_offset (suc rounds) offset w =
    let rest = find_offset rounds (suc offset) w in
    if bit_and w (2 ^ offset) == 0 then some offset else rest

-- What `bitmap_alloc` does with the digit that it found in word `ix`.
abbrev pub take_slot : Bitmap → (ix offset : ℕ) → Run (Option (ℕ × Bitmap))
take_slot b ix offset = assert (ltb (ix * 32 + offset) b.nbits) (
    ok (
      some (ix * 32 + offset, record b { v = set b.v ix (bit_or (get_or b.v ix 0) (2 ^ offset)) })))

-- The outer loop, from word `ix` on. The result is the slot and the new bitmap, or none (the
-- function returns 1).
unfoldable pub alloc_from : (rounds ix : ℕ) → Bitmap → Run (Option (ℕ × Bitmap))
unfolding find_offset
alloc_from zero ix b = ok none
alloc_from (suc rounds) ix b =
    let rest = alloc_from rounds (suc ix) b in
    if get_or b.v ix 0 == word_allbits then rest else (elim (find_offset 32 0 (get_or b.v ix 0)) [
      | none ↦ abort
      | some offset ↦ take_slot b ix offset
    ])

unfoldable pub bitmap_alloc : Bitmap → Run (Option (ℕ × Bitmap))
bitmap_alloc b = alloc_from (words_for b.nbits) 0 b

-- `bitmap_translate`: the word of a slot, and its mask.
abbrev pub bitmap_translate : ℕ → ℕ × ℕ
bitmap_translate bitno = (bitno / 32, 2 ^ (bitno % 32))

unfoldable pub bitmap_mark : Bitmap → ℕ → Run Bitmap
bitmap_mark b index =
    let (ix, mask) = bitmap_translate index in
    let w = get_or b.v ix 0 in
    assert (ltb index b.nbits)
      (assert (bit_and w mask == 0) (ok (record b { v = set b.v ix (bit_or w mask) })))

-- `~mask`, over 32 bits, is `2 ^ 32 - 1 - mask`.
unfoldable pub bitmap_unmark : Bitmap → ℕ → Run Bitmap
bitmap_unmark b index =
    let (ix, mask) = bitmap_translate index in
    let w = get_or b.v ix 0 in
    assert (ltb index b.nbits) (
      assert (not (bit_and w mask == 0))
        (ok (record b { v = set b.v ix (bit_and w (2 ^ 32 - 1 - mask)) })))

unfoldable pub bitmap_isset : Bitmap → ℕ → ℕ
bitmap_isset b index = let (ix, mask) = bitmap_translate index in bit_and (get_or b.v ix 0) mask
