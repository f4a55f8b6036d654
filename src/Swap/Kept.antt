-- ===== src/Swap/Kept.antt =====
-- What `swap_pageout` leaves of the bitmap, with an offset or without one.
use cscc.Prelude.{
  ℕ, zero, suc, ◌*◌, ◌%◌, ◌^◌, ◌≤◌, ◌<◌, ◌≡◌, ◌⊎◌, inl, inr, refl, arith, Bool, true, false, ◌==ℤ◌,
  Option, none, some, ℤ, pos, if◌then◌else◌, get_or, ◌==◌, Bool-cases,
}
use cscc.Swap.Bitmap.{
  Bitmap, Run, ok, abort, Returns, take_slot, alloc_from, find_offset, bitmap_alloc, word_allbits,
  words_for,
}
use cscc.Swap.Slots.{IsValid}
use cscc.Swap.Alloc.{Allocated, bitmap_alloc-Allocated}
use cscc.Swap.Transfer.{
  FileCalls, Store, invalid_swap, simpagesize, to_int, write_out, swap_pageout,
}
use cscc.Swap.RoundTrip.{IsFile, written, write_out_lem}

-- What stands in the swap offset of a page: no slot, or a position in the file.
abbrev pub IsOffset : ℤ → Type 0
IsOffset o = (o ≡ invalid_swap) ⊎ ((i : ℕ) × (o ≡ pos i))

-- An allocation that leaves the number of slots at `n`, where it returns one.
abbrev Sized : ℕ → Run (Option (ℕ × Bitmap)) → Type 0
Sized n abort = Unit
Sized n (ok none) = Unit
Sized n (ok (some (i, b))) = b.nbits ≡ n

alloc_from-Sized : (rounds ix : ℕ) (b : Bitmap) → Sized b.nbits (alloc_from rounds ix b)
unfolding alloc_from
alloc_from-Sized zero ix b = tt
alloc_from-Sized (suc rounds) ix b = elim (Bool-cases (get_or b.v ix 0 == word_allbits)) [
  | inl full ↦ rw full (alloc_from-Sized rounds (suc ix) b)
  | inr room ↦ rw room (go (find_offset 32 0 (get_or b.v ix 0)))
]
  where
    go :
        (o : Option ℕ)
        → Sized b.nbits (elim o [ none ↦ abort | some offset ↦ take_slot b ix offset ])
    go none = tt
    go (some o) = ground arith

bitmap_alloc-Sized : (b : Bitmap) → Sized b.nbits (bitmap_alloc b)
unfolding bitmap_alloc
bitmap_alloc-Sized b = alloc_from-Sized (words_for b.nbits) 0 b

slot_offset : (i n : ℕ) → i < n → n * 16 ≤ 2 ^ 31 → to_int (i * simpagesize % 2 ^ 32) ≡ pos (i * 16)
slot_offset i n lt fits = ground arith

-- What is left: a valid bitmap of as many slots, and a result that may stand in an entry.
abbrev pub Kept : (calls : FileCalls) → Store calls → Store calls × ℤ → Type 0
Kept calls s r = IsValid r.0.swapmap × (r.0.swapmap.nbits ≡ s.swapmap.nbits) × IsOffset r.1

module _ (calls : FileCalls) (h : IsFile calls) where
  write_out-Kept :
      (frame o : ℕ) (s : Store calls) (n : ℕ)
      → IsValid s.swapmap
      → s.swapmap.nbits ≡ n
      → Returns
          (λ (r : Store calls × ℤ). IsValid r.0.swapmap × (r.0.swapmap.nbits ≡ n) × IsOffset r.1)
          (write_out calls frame (pos o) s)
  write_out-Kept frame o s n v size =
      rw (write_out_lem calls h frame o s) (v, size, go ((written calls h frame o s).1 ==ℤ pos 16))
    where
      go : (whole : Bool) → IsOffset (if whole then pos o else invalid_swap)
      go true = inr (o, refl)
      go false = inl refl

  fresh_slot-Kept :
      (frame : ℕ) (s : Store calls)
      → IsValid s.swapmap
      → s.swapmap.nbits * 16 ≤ 2 ^ 31
      → Returns (Kept calls s) (swap_pageout calls frame invalid_swap s)
  unfolding swap_pageout
  fresh_slot-Kept frame s v fits =
      go (bitmap_alloc s.swapmap) (bitmap_alloc-Allocated s.swapmap v)
        (bitmap_alloc-Sized s.swapmap)
    where
      go :
          (r : Run (Option (ℕ × Bitmap)))
          → Allocated s.swapmap 0 r
          → Sized s.swapmap.nbits r
          → Returns (Kept calls s) (elim r [
            | abort ↦ abort
            | ok none ↦ ok (s, invalid_swap)
            | ok (some (idx, b)) ↦
                write_out calls frame
                  (to_int (idx * simpagesize % 2 ^ 32))
                  (record s { swapmap = b })
          ])
      go abort a size = a
      go (ok none) a size = (v, refl, inl refl)
      go (ok (some (idx, b))) a size =
          let offset : to_int (idx * simpagesize % 2 ^ 32) ≡ pos (idx * 16) =
            slot_offset idx s.swapmap.nbits a.0 fits in
          rw offset
            (write_out-Kept frame (idx * 16) (record s { swapmap = b }) s.swapmap.nbits a.4 size)

  -- Writing out a page, with a slot or without, does not abort, and keeps the bitmap valid and as
  -- large as it was.
  pub swap_pageout-Kept :
      (frame : ℕ) (off : ℤ) (s : Store calls)
      → IsOffset off
      → IsValid s.swapmap
      → s.swapmap.nbits * 16 ≤ 2 ^ 31
      → Returns (Kept calls s) (swap_pageout calls frame off s)
  unfolding swap_pageout
  swap_pageout-Kept frame off s (inl e) v fits = rw e (fresh_slot-Kept frame s v fits)
  swap_pageout-Kept frame off s (inr (o, e)) v fits =
      rw e (write_out-Kept frame o s s.swapmap.nbits v refl)
