-- ===== src/Swap/Examples.antt =====
-- Small bitmaps, and a swap file held in memory, at which the theorems on swap.c are applied.
use cscc.Prelude.{true, ◌-◌, ℕ, ◌^◌, ◌<◌, ◌≡◌, arith, refl, some, [], ◌∷◌, length}
use cscc.Prelude.{pos, pos_part}
use cscc.Prelude.{load, store}
use cscc.Swap.Bitmap.{Bitmap, ok, bitmap_create, bitmap_alloc, alloc_from, find_offset}
use cscc.Swap.Slots.{used, IsValid}
use cscc.Swap.Alloc.{Allocated, bitmap_alloc-Allocated}
use cscc.Swap.Create.{fresh, fresh-IsValid, bitmap_create-IsValid}
use cscc.Swap.Transfer.{FileCalls, Store, swap_pageout, swap_pagein, frame_ptr}
use cscc.Swap.RoundTrip.{IsFile, load-store, swap_pagein-swap_pageout}

-- Slots 0 and 2 of forty are in use.
abbrev forty : Bitmap
forty = record { nbits = 40; v = 5 ∷ (2 ^ 32 - 2 ^ 8) ∷ [] }

-- Eight slots and 24 spare digits.
abbrev pub eight : Bitmap
eight = fresh 8

pub eight-IsValid : IsValid eight
eight-IsValid = fresh-IsValid 8 (omega arith)

bitmap_create-IsValid_example :
    (b : Bitmap) × (bitmap_create true true 8 ≡ ok (some b))
    × (b.nbits ≡ 8)
    × IsValid b
    × ((i : ℕ) → i < 8 → used b i ≡ 0)
bitmap_create-IsValid_example = bitmap_create-IsValid 8 (omega arith)

bitmap_alloc-Allocated_example : Allocated eight 0 (bitmap_alloc eight)
bitmap_alloc-Allocated_example = bitmap_alloc-Allocated eight eight-IsValid

-- The lowest free slot of `forty` is 1.
alloc_run : bitmap_alloc forty ≡ ok (some (1, record forty { v = 7 ∷ (2 ^ 32 - 2 ^ 8) ∷ [] }))
unfolding bitmap_alloc alloc_from find_offset
alloc_run = refl

-- A file that is a memory with a position, and never fails.
abbrev pub ram : FileCalls
ram = record {
  File = ℕ × (ℕ → ℕ);
  lseek = λ o f. ((pos_part o, f.1), pos (pos_part o));
  read = λ n f. (f, load f.1 n f.0, pos n);
  write = λ bytes f. ((f.0, store f.1 f.0 bytes), pos (length bytes));
  errno = λ f. 0;
}

pub ram-IsFile : IsFile ram
ram-IsFile = record {
  arrives = λ o f. refl;
  read_back = λ o bytes f _. (load-store f.1 o bytes, refl);
}

abbrev stored : Store ram
stored = record { physmem = λ a. a; swapmap = eight; file = (0, λ _. 0) }

swap_pagein-swap_pageout_example :
    (s₁ s₂ : Store ram) × (swap_pageout ram 2 (pos 48) stored ≡ ok (s₁, pos 48))
    × (swap_pagein ram 5 (pos 48) s₁ ≡ ok (s₂, pos 0))
    × (load s₂.physmem 16 (frame_ptr ram 5) ≡ load stored.physmem 16 (frame_ptr ram 2))
swap_pagein-swap_pageout_example = swap_pagein-swap_pageout ram ram-IsFile 2 5 48 stored refl
