-- ===== src/Swap/Alloc.antt =====
-- `bitmap_alloc` takes the lowest free slot.
use cscc.Prelude.{ℕ, zero, suc, ◌+◌, ◌-◌, ◌*◌, ◌≤◌, ◌<◌, ◌≡◌, arith, ap, ◌∙◌}
use cscc.Prelude.{length, get_or, bit, bit-all_ones, all_ones, ◌==◌, ltb, ltb→lt, if◌then◌else◌}
use cscc.Prelude.{Option, none, some, Bool-cases, inl, inr, true, false}
use native.Mathlib.Decide.{dec_lt}
use cscc.Swap.Bitmap.{
  Bitmap, Run, ok, abort, find_offset, take_slot, alloc_from, bitmap_alloc, word_allbits,
}
use cscc.Swap.Bitmap.{words_for}
use cscc.Swap.Slots.{
  used, IsValid, used-marked, marked-IsValid, Found, find_offset-Found, used-slot,
}

-- What an allocation that looks at the slots from `start` on promises.
abbrev pub Allocated : Bitmap → (start : ℕ) → Run (Option (ℕ × Bitmap)) → Type 0
Allocated b start abort = ⊥
Allocated b start (ok none) = (j : ℕ) → start ≤ j → j < b.nbits → used b j ≡ 1
Allocated b start (ok (some (i, b'))) =
    (i < b.nbits)
    × (used b i ≡ 0)
    × ((j : ℕ) → start ≤ j → j < i → used b j ≡ 1)
    × ((j : ℕ) → used b' j ≡ (if j == i then 1 else used b j))
    × IsValid b'

-- A slot of word `ix` that is clear lies below `nbits`, and may be taken.
take_slot-Allocated :
    (b : Bitmap) (ix o : ℕ)
    → IsValid b
    → ix < length b.v
    → Found 32 0 (get_or b.v ix 0) (some o)
    → Allocated b (ix * 32) (take_slot b ix o)
take_slot-Allocated b ix o v h (low, high, clear, before) = rw fits (
  ltb→lt (ix * 32 + o) b.nbits fits,
  free,
  (λ j from to. earlier j from to),
  (λ j. used-marked b ix o j h high),
  marked-IsValid b ix o h high v,
)
  where
    free : used b (ix * 32 + o) ≡ 0
    free = used-slot b ix o high ∙ clear

    fits : ltb (ix * 32 + o) b.nbits ≡ true
    fits = ground (arith, v.spare (ix * 32 + o), free)

    earlier : (j : ℕ) → ix * 32 ≤ j → j < ix * 32 + o → used b j ≡ 1
    earlier j from to =
        ap (used b) (omega arith)
        ∙ used-slot b ix (j - ix * 32) (omega arith)
        ∙ before (j - ix * 32) (omega arith) (omega arith)

-- All slots of a full word are in use.
full_word :
    (b : Bitmap) (ix j : ℕ)
    → get_or b.v ix 0 ≡ word_allbits
    → ix * 32 ≤ j
    → j < suc ix * 32
    → used b j ≡ 1
full_word b ix j e from to =
    ap (used b) (omega arith)
    ∙ used-slot b ix (j - ix * 32) (omega arith)
    ∙ ap (λ w. bit w (j - ix * 32)) e
    ∙ bit-all_ones 32 (j - ix * 32) (omega arith)

-- A search that starts one full word earlier.
Allocated-skip :
    (b : Bitmap) (ix : ℕ) (r : Run (Option (ℕ × Bitmap)))
    → get_or b.v ix 0 ≡ word_allbits
    → Allocated b (suc ix * 32) r
    → Allocated b (ix * 32) r
Allocated-skip b ix abort e h = h
Allocated-skip b ix (ok none) e h = λ j from to. elim (dec_lt j (suc ix * 32)) [
  | yes here ↦ full_word b ix j e from here
  | no later ↦ h j (omega arith) to
]
Allocated-skip b ix (ok (some (i, b'))) e h = (
  h.0,
  h.1,
  (λ j from to. elim (dec_lt j (suc ix * 32)) [
    | yes here ↦ full_word b ix j e from here
    | no later ↦ h.2 j (omega arith) to
  ]),
  h.3,
  h.4,
)

alloc_from-Allocated :
    (rounds ix : ℕ) (b : Bitmap)
    → IsValid b
    → rounds + ix ≡ length b.v
    → Allocated b (ix * 32) (alloc_from rounds ix b)
unfolding alloc_from
alloc_from-Allocated zero ix b v e = λ j from to. absurd (omega (arith, v.size))
alloc_from-Allocated (suc rounds) ix b v e = elim (Bool-cases (get_or b.v ix 0 == word_allbits)) [
  | inl full ↦ rw full (
      Allocated-skip b ix (alloc_from rounds (suc ix) b) (ground arith)
        (alloc_from-Allocated rounds (suc ix) b v (omega arith)))
  | inr room ↦
      rw room
        (go (find_offset 32 0 (get_or b.v ix 0)) (find_offset-Found 32 0 (get_or b.v ix 0)) room)
]
  where
    go :
        (o : Option ℕ)
        → Found 32 0 (get_or b.v ix 0) o
        → (get_or b.v ix 0 == word_allbits) ≡ false
        → Allocated b (ix * 32) (elim o [ none ↦ abort | some offset ↦ take_slot b ix offset ])
    go none h room = absurd (
        ground (
          arith,
          all_ones 32 (get_or b.v ix 0) (v.words ix) (λ k lt. h k (omega arith) (omega arith)),
          room,
        ))
    go (some o) h room = take_slot-Allocated b ix o v (omega arith) h

-- Of a valid bitmap `bitmap_alloc` never aborts: it takes the lowest free slot, which lies below
-- `nbits`, marks that one and no other, and leaves a valid bitmap; or it reports that all are in use.
pub bitmap_alloc-Allocated : (b : Bitmap) → IsValid b → Allocated b 0 (bitmap_alloc b)
unfolding bitmap_alloc
bitmap_alloc-Allocated b v =
    alloc_from-Allocated (words_for b.nbits) 0 b v (omega (arith, v.size, v.small))
