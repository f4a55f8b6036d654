-- ===== src/Paging/Reload.antt =====
-- What a miss does: the page that comes in is always a new one.
use cscc.Prelude.{
  ap, bit_or, bit_or-high, ◌∙◌, ℕ, ◌+◌, ◌*◌, ◌%◌, ◌^◌, ◌≡◌, arith, refl, bit, clear_iff,
}
use cscc.Prelude.{false, Option, none, some, if◌then◌else◌, Bool-cases, inl, inr, ℤ}
use cscc.Swap.Bitmap.{Run, ok, abort, ◌>>=◌}
use cscc.Swap.Transfer.{FileCalls, swap_pagein}
use cscc.Paging.State.{
  PgtblEntry, Pointer, has_flag, pg_onswap, frame_of, Sim, fetch, adjust, Policy,
}
use cscc.Paging.Lookup.{allocate_frame, init_frame, load_page, touched, is_write}

-- The entry that a miss writes has no status bit.
shifted-clear :
    (f : ℕ) (off : ℤ)
    → has_flag pg_onswap (record { frame = f * 2 ^ 12 % 2 ^ 32; swap_off = off }) ≡ false
shifted-clear f off = ground (arith, clear_iff (f * 2 ^ 12 % 2 ^ 32) 3, low)
  where
    low : bit (f * 2 ^ 12 % 2 ^ 32) 3 ≡ 0
    low = unfold bit in omega arith

module _ (calls : FileCalls) where
  -- The entry of the page after `p->frame = frame << PAGE_SHIFT`.
  abbrev pub mapped : Pointer → ℕ → Sim calls → Sim calls
  mapped p f s = adjust calls p (λ e. record e { frame = f * 2 ^ 12 % 2 ^ 32 }) s

  -- What was written to an entry is read back.
  pub fetch-adjust :
      (p : Pointer) (g : PgtblEntry → PgtblEntry) (s : Sim calls)
      → fetch calls p (adjust calls p g s) ≡ (fetch calls p s >>= λ e. ok (g e))
  fetch-adjust (d, t) g s = go (s.pgdir d) refl
    where
      go :
          (o : Option (ℕ → PgtblEntry))
          → s.pgdir d ≡ o
          → fetch calls (d, t) (adjust calls (d, t) g s) ≡ (fetch calls (d, t) s >>= λ e. ok (g e))
      go none e = ground arith
      go (some table) e = ground arith

  fetch-mapped :
      (p : Pointer) (f : ℕ) (s : Sim calls) (onswap fresh : PgtblEntry → Run (Sim calls))
      → (fetch calls p (mapped p f s) >>= λ e. if has_flag pg_onswap e then onswap e else fresh e)
        ≡ (fetch calls p (mapped p f s) >>= fresh)
  fetch-mapped p f s onswap fresh =
      rw (fetch-adjust p (λ e. record e { frame = f * 2 ^ 12 % 2 ^ 32 }) s) (go (fetch calls p s))
    where
      go :
          (r : Run PgtblEntry)
          → ((r >>= λ e. ok (record e { frame = f * 2 ^ 12 % 2 ^ 32 })) >>= λ e.
              if has_flag pg_onswap e then onswap e else fresh e)
            ≡ ((r >>= λ e. ok (record e { frame = f * 2 ^ 12 % 2 ^ 32 })) >>= fresh)
      go abort = refl
      go (ok e) =
          ap
            (λ b.
              if b
              then onswap (record e { frame = f * 2 ^ 12 % 2 ^ 32 })
              else fresh (record e { frame = f * 2 ^ 12 % 2 ^ 32 }))
            (shifted-clear f e.swap_off)

  -- A miss never reads the swap file, also where the page was written there: the frame number is
  -- stored over PG_ONSWAP before that bit is tested. The page is always the one that `init_frame`
  -- makes, with its version at 0.
  pub load_page-fresh :
      (policy : Policy calls) (p : Pointer) (vaddr : ℕ) (s : Sim calls)
      → load_page calls policy p vaddr s ≡ (
          allocate_frame calls policy p (record s { miss_count = s.miss_count + 1 }) >>= λ got.
          fetch calls p (mapped p got.0 got.1) >>= λ _.
          ok (init_frame calls got.0 vaddr (mapped p got.0 got.1)))
  unfolding load_page
  load_page-fresh policy p vaddr s =
      go (allocate_frame calls policy p (record s { miss_count = s.miss_count + 1 }))
    where
      go :
          (r : Run (ℕ × Sim calls))
          → (r >>= λ got.
              let s' = mapped p got.0 got.1 in
              fetch calls p s' >>= λ entry.
              if has_flag pg_onswap entry
              then (swap_pagein calls got.0 entry.swap_off s'.store >>= λ filled.
                  ok (record s' { store = filled.0 }))
              else ok (init_frame calls got.0 vaddr s'))
            ≡ (r >>= λ got. fetch calls p (mapped p got.0 got.1) >>= λ _.
                ok (init_frame calls got.0 vaddr (mapped p got.0 got.1)))
      go abort = refl
      go (ok (f, s')) = fetch-mapped p f s' _ _

-- The status bits of a reference leave the frame number alone.
pub frame_of-touched : (type : ℕ) (e : PgtblEntry) → frame_of (touched type e) ≡ frame_of e
frame_of-touched type e = elim (Bool-cases (is_write type)) [
  | inl w ↦ rw w (
      bit_or-high (bit_or (bit_or e.frame 1) 4) 2 (omega arith)
      ∙ bit_or-high (bit_or e.frame 1) 4 (omega arith)
      ∙ bit_or-high e.frame 1 (omega arith))
  | inr r ↦
      rw r (bit_or-high (bit_or e.frame 1) 4 (omega arith) ∙ bit_or-high e.frame 1 (omega arith))
]
