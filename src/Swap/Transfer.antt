-- ===== src/Swap/Transfer.antt =====
-- `swap_pagein` and `swap_pageout` of swap.c, between the simulated memory and the swap file.
use cscc.Prelude.{ℕ, ◌-◌, ◌*◌, ◌%◌, ◌^◌, true, false, not, ltb}
use cscc.Prelude.{List, ℤ, pos, negsuc, negate, ◌==ℤ◌, if◌then◌else◌, none, some}
use cscc.Prelude.{Memory, load, store}
use cscc.Swap.Bitmap.{Bitmap, Run, ok, abort, assert, bitmap_alloc}

-- `SIMPAGESIZE`
abbrev pub simpagesize : ℕ
simpagesize = 16

-- `INVALID_SWAP`
abbrev pub invalid_swap : ℤ
invalid_swap = negsuc 0

-- The conversion of an unsigned 32-bit number to `int`.
abbrev pub to_int : ℕ → ℤ
to_int n = if ltb n (2 ^ 31) then pos n else negsuc (2 ^ 32 - 1 - n)

-- The system calls on the swap file. `lseek` gives the position or -1; `read` at most so many
-- bytes, with their number or -1; `write` the number written or -1. `errno` is what the last
-- failure set.
pub record FileCalls : Type 1 where
  pub File : Type 0
  pub lseek : ℤ → File → File × ℤ
  pub read : ℕ → File → File × List ℕ × ℤ
  pub write : List ℕ → File → File × ℤ
  pub errno : File → ℕ

module _ (calls : FileCalls) where
  open calls use {File, lseek, read, write, errno}

  -- What swap.c reads and writes: the simulated memory, the bitmap and the swap file.
  pub record Store : Type 0 where
    pub physmem : Memory
    pub swapmap : Bitmap
    pub file : File

  abbrev pub frame_ptr : ℕ → ℕ
  frame_ptr frame = frame * simpagesize % 2 ^ 32

  -- The result is `-errno` of a failed seek, or the count of a short read, or 0.
  unfoldable pub swap_pagein : (frame : ℕ) (swap_offset : ℤ) → Store → Run (Store × ℤ)
  swap_pagein frame swap_offset s =
      let (f, position) = lseek swap_offset s.file in
      let (g, bytes, bytes_read) = read simpagesize f in
      let filled = record s { physmem = store s.physmem (frame_ptr frame) bytes; file = g } in
      assert (not (swap_offset ==ℤ invalid_swap)) (
        if not (position ==ℤ swap_offset)
        then assert (position ==ℤ negsuc 0) (ok (record s { file = f }, negate (errno f)))
        else if not (bytes_read ==ℤ pos simpagesize)
        then ok (filled, bytes_read)
        else ok (filled, pos 0))

  -- The part of `swap_pageout` after the slot is known.
  unfoldable pub write_out : (frame : ℕ) (swap_offset : ℤ) → Store → Run (Store × ℤ)
  write_out frame swap_offset s =
      let (f, position) = lseek swap_offset s.file in
      let (g, bytes_written) = write (load s.physmem simpagesize (frame_ptr frame)) f in
      assert (not (swap_offset ==ℤ invalid_swap)) (
        if not (position ==ℤ swap_offset)
        then assert (position ==ℤ negsuc 0) (ok (record s { file = f }, invalid_swap))
        else if not (bytes_written ==ℤ pos simpagesize)
        then ok (record s { file = g }, invalid_swap)
        else ok (record s { file = g }, swap_offset))

  -- The result is the offset in the swap file, or `INVALID_SWAP`.
  unfoldable pub swap_pageout : (frame : ℕ) (swap_offset : ℤ) → Store → Run (Store × ℤ)
  unfolding write_out
  swap_pageout frame swap_offset s = elim (swap_offset ==ℤ invalid_swap) [
    | false ↦ write_out frame swap_offset s
    | true ↦ elim (bitmap_alloc s.swapmap) [
      | abort ↦ abort
      | ok none ↦ ok (s, invalid_swap)
      | ok (some (idx, b)) ↦
          write_out frame (to_int (idx * simpagesize % 2 ^ 32)) (record s { swapmap = b })
    ]
  ]
