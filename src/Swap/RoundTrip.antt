-- ===== src/Swap/RoundTrip.antt =====
-- A page that was written out comes back as it was.
use cscc.Prelude.{
  ℕ, zero, suc, ◌+◌, ◌-◌, ◌*◌, ◌%◌, ◌^◌, ◌≤◌, ◌<◌, ◌≡◌, ◌⊎◌, inl, inr, arith, refl, ap, ap₂, ◌∙◌,
  sym,
}
use cscc.Prelude.{List, [], ◌∷◌, length, get_or, ℤ, pos, ◌==ℤ◌, ==ℤ_iff, Option, none, some}
use cscc.Prelude.{◌==◌, if◌then◌else◌, Bool, true, false}
use cscc.Prelude.{Memory, load, store}
use cscc.Swap.Bitmap.{Bitmap, Run, ok, abort, bitmap_alloc}
use cscc.Swap.Slots.{used, IsValid}
use cscc.Swap.Alloc.{Allocated, bitmap_alloc-Allocated}
use cscc.Swap.Transfer.{
  simpagesize, invalid_swap, to_int, FileCalls, Store, frame_ptr, swap_pagein, write_out,
  swap_pageout,
}

-- The documented behaviour of a regular file: a seek to a position that is not negative arrives
-- there, and what was written whole at a position is read back from it.
pub record IsFile (calls : FileCalls) : Type 0 where
  pub arrives : (o : ℕ) (f : calls.File) → (calls.lseek (pos o) f).1 ≡ pos o
  pub read_back :
      (o : ℕ) (bytes : List ℕ) (f : calls.File)
      → (calls.write bytes (calls.lseek (pos o) f).0).1 ≡ pos (length bytes)
      → let g = (calls.lseek (pos o) (calls.write bytes (calls.lseek (pos o) f).0).0).0 in
        ((calls.read (length bytes) g).1 ≡ bytes)
        × ((calls.read (length bytes) g).2 ≡ pos (length bytes))

length-load : (mem : Memory) (n a : ℕ) → length (load mem n a) ≡ n
length-load mem zero a = refl
length-load mem (suc n) a = ap suc (length-load mem n (suc a))

load-eq :
    (mem : Memory) (a : ℕ) (bytes : List ℕ)
    → ((i : ℕ) → i < length bytes → mem (a + i) ≡ get_or bytes i 0)
    → load mem (length bytes) a ≡ bytes
load-eq mem a [] h = refl
load-eq mem a (x ∷ xs) h =
    ap₂ ◌∷◌ (ap mem (omega arith) ∙ h 0 (omega arith))
      (load-eq mem (suc a) xs (λ i lt. ap mem (omega arith) ∙ h (suc i) (omega arith)))

pub load-store :
    (mem : Memory) (a : ℕ) (bytes : List ℕ) → load (store mem a bytes) (length bytes) a ≡ bytes
load-store mem a bytes = load-eq (store mem a bytes) a bytes at
  where
    at : (i : ℕ) → i < length bytes → store mem a bytes (a + i) ≡ get_or bytes i 0
    at i lt =
        let same : a + i - a ≡ i = omega arith in ground (arith, ap (λ k. get_or bytes k 0) same)

-- What `swap_pageout` promises for a page that has no slot yet.
abbrev pub PagedOut : (calls : FileCalls) → Store calls → Run (Store calls × ℤ) → Type 0
PagedOut calls s abort = ⊥
PagedOut calls s (ok (s', r)) =
    (s'.physmem ≡ s.physmem)
    × IsValid s'.swapmap
    × ((r ≡ invalid_swap)
        ⊎ ((i : ℕ) × (r ≡ pos (i * 16))
            × (i < s.swapmap.nbits)
            × (used s.swapmap i ≡ 0)
            × ((j : ℕ) → used s'.swapmap j ≡ (if j == i then 1 else used s.swapmap j))))

module _ (calls : FileCalls) (h : IsFile calls) where
  -- The file after the page of `frame` was written at `o`, and the count that `write` returned.
  abbrev pub written : (frame o : ℕ) → Store calls → calls.File × ℤ
  written frame o s =
      calls.write (load s.physmem 16 (frame_ptr calls frame)) (calls.lseek (pos o) s.file).0

  pub write_out_lem :
      (frame o : ℕ) (s : Store calls)
      → write_out calls frame (pos o) s
        ≡ ok (
          record s { file = (written frame o s).0 },
          if (written frame o s).1 ==ℤ pos 16 then pos o else invalid_swap,
        )
  unfolding write_out
  write_out_lem frame o s = ground (arith, h.arrives o s.file, ==ℤ_iff (pos o) (pos o))

  write_out-PagedOut :
      (frame i : ℕ) (s : Store calls) (b : Bitmap)
      → IsValid b
      → i < s.swapmap.nbits
      → i * 16 < 2 ^ 31
      → used s.swapmap i ≡ 0
      → ((j : ℕ) → used b j ≡ (if j == i then 1 else used s.swapmap j))
      → PagedOut calls s
          (write_out calls frame (to_int (i * simpagesize % 2 ^ 32)) (record s { swapmap = b }))
  write_out-PagedOut frame i s b v below fits free others =
      rw (offset, write_out_lem frame (i * 16) (record s { swapmap = b }))
        (refl, v, go ((written frame (i * 16) (record s { swapmap = b })).1 ==ℤ pos 16))
    where
      offset : to_int (i * simpagesize % 2 ^ 32) ≡ pos (i * 16)
      offset = ground arith

      go :
          (whole : Bool)
          → ((if whole then pos (i * 16) else invalid_swap) ≡ invalid_swap)
            ⊎ ((k : ℕ) × ((if whole then pos (i * 16) else invalid_swap) ≡ pos (k * 16))
                × (k < s.swapmap.nbits)
                × (used s.swapmap k ≡ 0)
                × ((j : ℕ) → used b j ≡ (if j == k then 1 else used s.swapmap j)))
      go true = inr (i, refl, below, free, others)
      go false = inl refl

  -- Writing out a page that has no slot in the swap file never aborts, if the offsets of all slots
  -- fit an `int`, and leaves the memory as it was and the bitmap valid. Either it reports
  -- `INVALID_SWAP`, or it returns the offset of a slot that was free, and the bitmap has this slot
  -- more and no other.
  pub swap_pageout-PagedOut :
      (frame : ℕ) (s : Store calls)
      → IsValid s.swapmap
      → s.swapmap.nbits * 16 ≤ 2 ^ 31
      → PagedOut calls s (swap_pageout calls frame invalid_swap s)
  unfolding swap_pageout
  swap_pageout-PagedOut frame s v fits =
      go (bitmap_alloc s.swapmap) (bitmap_alloc-Allocated s.swapmap v)
    where
      go :
          (r : Run (Option (ℕ × Bitmap)))
          → Allocated s.swapmap 0 r
          → PagedOut calls s (elim r [
            | abort ↦ abort
            | ok none ↦ ok (s, invalid_swap)
            | ok (some (idx, b)) ↦
                write_out calls frame
                  (to_int (idx * simpagesize % 2 ^ 32))
                  (record s { swapmap = b })
          ])
      go abort a = a
      go (ok none) a = (refl, v, inl refl)
      go (ok (some (idx, b))) a =
          write_out-PagedOut frame idx s b a.4 a.0 (omega (arith, a.0)) a.1 a.3

  -- A page written out whole to an offset, and read into any frame from there, is in that frame byte
  -- for byte; the two calls succeed.
  pub swap_pagein-swap_pageout :
      (from to o : ℕ) (s : Store calls)
      → (calls.write (load s.physmem 16 (frame_ptr calls from)) (calls.lseek (pos o) s.file).0).1
        ≡ pos 16
      → (s₁ s₂ : Store calls) × (swap_pageout calls from (pos o) s ≡ ok (s₁, pos o))
        × (swap_pagein calls to (pos o) s₁ ≡ ok (s₂, pos 0))
        × (load s₂.physmem 16 (frame_ptr calls to) ≡ load s.physmem 16 (frame_ptr calls from))
  unfolding swap_pageout swap_pagein
  swap_pagein-swap_pageout from to o s whole =
      let out = record s { file = (written from o s).0 } in
      let again = (calls.lseek (pos o) (written from o s).0).0 in
      let bytes = load s.physmem 16 (frame_ptr calls from) in
      let back =
        h.read_back o bytes s.file
          (whole ∙ ap pos (sym (length-load s.physmem 16 (frame_ptr calls from)))) in
      (
        out,
        record out {
          physmem = store s.physmem (frame_ptr calls to) (calls.read 16 again).1;
          file = (calls.read 16 again).0;
        },
        ground (arith, write_out_lem from o s, whole),
        ground (arith, h.arrives o (written from o s).0, back.1, ==ℤ_iff (pos o) (pos o)),
        rw back.0 (load-store s.physmem (frame_ptr calls to) bytes),
      )
