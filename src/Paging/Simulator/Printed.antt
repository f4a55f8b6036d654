-- ===== src/Paging/Simulator/Printed.antt =====
-- `print_pagedirectory` returns, and shows no page.
use cscc.Prelude.{
  ℤ, pos, Bool-cases, inl, inr, ◌⊎◌, ◌+◌, ◌<◌, ap, ◌∙◌, refl, ℕ, zero, suc, ◌*◌, ◌%◌, ◌^◌, ◌≡◌,
  arith, List, [], ◌∷◌, ◌++◌, Option, none, some, false, bit, clear_iff,
}
use cscc.Swap.Bitmap.{Run, ok, ◌>>=◌, Returns, Returns-bind, Returns-map}
use cscc.Swap.Transfer.{invalid_swap}
use cscc.Paging.State.{PgtblEntry, has_flag, pg_valid, pg_onswap}
use cscc.Paging.Simulator.Print.{
  Line, invalid, in_frame, on_swap, no_tables, table, Range, widen, flush, aligned, last_byte,
  first_byte, entries_from, print_pagetbl, tables_from, print_pagedirectory,
}

-- A line that is about no page.
abbrev pub IsBlank : Line → Type 0
IsBlank (invalid first last) = Unit
IsBlank (in_frame i dirty frame) = ⊥
IsBlank (on_swap i offset) = ⊥
IsBlank (no_tables first last) = Unit
IsBlank (table i) = Unit

abbrev pub AllBlank : List Line → Type 0
AllBlank [] = Unit
AllBlank (line ∷ lines) = IsBlank line × AllBlank lines

AllBlank-append : (xs ys : List Line) → AllBlank xs → AllBlank ys → AllBlank (xs ++ ys)
AllBlank-append [] ys h k = k
AllBlank-append (x ∷ xs) ys h k = (h.0, AllBlank-append xs ys h.1 k)

-- No entry is valid or on swap.
abbrev Unshown : (ℕ → PgtblEntry) → Type 0
Unshown at = (k : ℕ) → (has_flag pg_valid (at k) ≡ false) × (has_flag pg_onswap (at k) ≡ false)

-- The assertion of the loop holds, and where no entry is shown, the lines are blank.
entries_from-Blank :
    (rounds i : ℕ) (range : Range) (at : ℕ → PgtblEntry)
    → Returns (λ lines. Unshown at → AllBlank lines) (entries_from rounds i range at)
unfolding entries_from
entries_from-Blank zero i none at = λ hidden. tt
entries_from-Blank zero i (some (first, last)) at = λ hidden. (tt, tt)
entries_from-Blank (suc rounds) i range at =
    let blank : List Line → Type 0 = λ lines. Unshown at → AllBlank lines in
    let later = entries_from-Blank rounds (suc i) none at in
    elim (Bool-cases (has_flag pg_valid (at i))) [
      | inl valid ↦ rw valid (
          Returns-bind blank blank (entries_from rounds (suc i) none at) _ later
            (λ rest _ hidden. absurd (cc ((hidden i).0, valid))))
      | inr unmarked ↦ elim (Bool-cases (has_flag pg_onswap (at i))) [
        | inl there ↦
            rw (unmarked, there)
              (Returns-bind blank blank (entries_from rounds (suc i) none at) _ later
                (λ rest _ hidden. absurd (cc ((hidden i).1, there))))
        | inr absent ↦ rw (unmarked, absent) (entries_from-Blank rounds (suc i) (widen i range) at)
      ]
    ]

-- The offsets of a directory are INVALID_SWAP, or their highest byte is 0.
abbrev pub AllSmall : (ℕ → Option (ℕ → PgtblEntry)) → Type 0
AllSmall pgdir =
    (d t : ℕ) (pgtbl : ℕ → PgtblEntry)
    → pgdir d ≡ some pgtbl
    → ((pgtbl t).swap_off ≡ invalid_swap) ⊎ ((o : ℕ) × ((pgtbl t).swap_off ≡ pos o) × (o < 2 ^ 56))

last_byte-small :
    (off : ℤ) → (off ≡ invalid_swap) ⊎ ((o : ℕ) × (off ≡ pos o) × (o < 2 ^ 56)) → last_byte off ≡ 0
last_byte-small off (inl is) = ap last_byte is
last_byte-small off (inr (o, is, lt)) = ap last_byte is ∙ omega (arith, lt)

-- Entries whose low bytes come from such offsets have no status bit where they are read.
aligned-Unshown :
    (pgtbl : ℕ → PgtblEntry)
    → ((k : ℕ) → last_byte (pgtbl k).swap_off ≡ 0)
    → Unshown (aligned pgtbl)
aligned-Unshown pgtbl small k =
    let (valid, onswap) = low_clear (pgtbl k).frame (first_byte pgtbl k) (first k) in
    (
      ground (arith, clear_iff (aligned pgtbl k).frame 0, valid),
      ground (arith, clear_iff (aligned pgtbl k).frame 3, onswap),
    )
  where
    first : (k : ℕ) → first_byte pgtbl k ≡ 0
    first zero = refl
    first (suc k) = small k

    low_clear :
        (f b : ℕ) → b ≡ 0 → (bit (f * 256 % 2 ^ 32 + b) 0 ≡ 0) × (bit (f * 256 % 2 ^ 32 + b) 3 ≡ 0)
    low_clear f b e = (unfold bit in omega (arith, e), unfold bit in omega (arith, e))

flush-Blank : (range : Range) → AllBlank (flush no_tables range)
flush-Blank none = tt
flush-Blank (some (first, last)) = (tt, tt)

-- The lines of one table, between those before and those after it.
shown-Blank :
    (Small : Type 0) (i : ℕ) (range : Range) (pgtbl : ℕ → PgtblEntry) (later : Run (List Line))
    → (Small → (k : ℕ) → last_byte (pgtbl k).swap_off ≡ 0)
    → Returns (λ lines. Small → AllBlank lines) later
    → Returns
        (λ lines. Small → AllBlank lines)
        (print_pagetbl (aligned pgtbl) >>= λ lines.
          later >>= λ rest. ok (flush no_tables range ++ table i ∷ (lines ++ rest)))
unfolding print_pagetbl
shown-Blank Small i range pgtbl later small h =
    Returns-bind (λ lines. Unshown (aligned pgtbl) → AllBlank lines)
      (λ lines. Small → AllBlank lines) (print_pagetbl (aligned pgtbl)) _
      (entries_from-Blank 4096 0 none (aligned pgtbl))
      λ lines blank.
        Returns-bind (λ lines. Small → AllBlank lines) (λ lines. Small → AllBlank lines) later _ h
          λ rest still is.
            AllBlank-append (flush no_tables range) (table i ∷ (lines ++ rest)) (flush-Blank range)
              (tt, AllBlank-append lines rest (blank (aligned-Unshown pgtbl (small is))) (still is))

tables_from-Blank :
    (rounds i : ℕ) (range : Range) (pgdir : ℕ → Option (ℕ → PgtblEntry))
    → Returns (λ lines. AllSmall pgdir → AllBlank lines) (tables_from rounds i range pgdir)
unfolding tables_from
tables_from-Blank zero i range pgdir = λ small. tt
tables_from-Blank (suc rounds) i range pgdir =
    go (pgdir i) refl (tables_from-Blank rounds (suc i) (widen i range) pgdir)
      (tables_from-Blank rounds (suc i) none pgdir)
  where
    go :
        (o : Option (ℕ → PgtblEntry))
        → pgdir i ≡ o
        → Returns
            (λ lines. AllSmall pgdir → AllBlank lines)
            (tables_from rounds (suc i) (widen i range) pgdir)
        → Returns (λ lines. AllSmall pgdir → AllBlank lines) (tables_from rounds (suc i) none pgdir)
        → Returns
            (λ lines. AllSmall pgdir → AllBlank lines)
            (elim o [
              | none ↦ tables_from rounds (suc i) (widen i range) pgdir
              | some pgtbl ↦ print_pagetbl (aligned pgtbl) >>= λ lines.
                  tables_from rounds (suc i) none pgdir >>= λ rest.
                  ok (flush no_tables range ++ table i ∷ (lines ++ rest))
            ])
    go none is skipped rest = skipped
    go (some pgtbl) is skipped rest =
        shown-Blank (AllSmall pgdir) i range pgtbl (tables_from rounds (suc i) none pgdir)
          (λ small k. last_byte-small (pgtbl k).swap_off (small i k pgtbl is)) rest

-- The assertion in the loop holds for all page tables.
pub print_pagedirectory-Returns :
    (pgdir : ℕ → Option (ℕ → PgtblEntry))
    → Returns (λ lines. AllSmall pgdir → AllBlank lines) (print_pagedirectory pgdir)
unfolding print_pagedirectory
print_pagedirectory-Returns pgdir = tables_from-Blank 4096 0 none pgdir

-- `print_pagedirectory` returns, and prints no line about a page that is in a frame or on swap,
-- whatever the frames and the status bits of the entries are: it reads the entries a byte off from
-- where they are kept. The swap offsets are taken to be INVALID_SWAP or below 2^56.
pub print_pagedirectory-Blank :
    (pgdir : ℕ → Option (ℕ → PgtblEntry))
    → AllSmall pgdir
    → Returns AllBlank (print_pagedirectory pgdir)
print_pagedirectory-Blank pgdir small =
    Returns-map (λ lines. AllSmall pgdir → AllBlank lines) AllBlank (print_pagedirectory pgdir)
      (print_pagedirectory-Returns pgdir) (λ lines blank. blank small)
