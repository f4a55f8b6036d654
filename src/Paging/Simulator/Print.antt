-- ===== src/Paging/Simulator/Print.antt =====
-- `print_pagetbl` and `print_pagedirectory` of pagetable.c.
use cscc.Prelude.{
  ℕ, zero, suc, ◌+◌, ◌-◌, ◌*◌, ◌/◌, ◌%◌, ◌^◌, pos, negsuc, not, ◌&&◌, Bool, Option, none, some,
  List, [], ◌∷◌, ◌++◌, if◌then◌else◌, ℤ,
}
use cscc.Swap.Bitmap.{Run, ok, assert, ◌>>=◌}
use cscc.Paging.State.{
  PgtblEntry, has_flag, pg_valid, pg_dirty, pg_onswap, frame_of, ptrs_per_pgdir,
}

abbrev pub ptrs_per_pgtbl : ℕ
ptrs_per_pgtbl = 4096

-- The lines that are printed. The address of a table, which `%p` prints, is left out.
pub data Line : Type 0 where
  invalid : (first last : ℕ) → Line
  in_frame : (i : ℕ) (dirty : Bool) (frame : ℕ) → Line
  on_swap : (i : ℕ) (offset : ℤ) → Line
  no_tables : (first last : ℕ) → Line
  table : (i : ℕ) → Line

-- `first_invalid` and `last_invalid`; none where they are -1.
abbrev pub Range : Type 0
Range = Option (ℕ × ℕ)

abbrev pub widen : (i : ℕ) → Range → Range
widen i none = some (i, i)
widen i (some (first, last)) = some (first, i)

abbrev pub flush : (ℕ → ℕ → Line) → Range → List Line
flush line none = []
flush line (some (first, last)) = line first last ∷ []

-- What is read at the aligned address of an entry. `find_physpage` keeps PG_VALID in the address of
-- the table, and so reads and writes each entry one byte further on; an entry has sixteen bytes, the
-- swap offset in the last eight. So the first byte of an aligned entry is the last byte of the swap
-- offset of the entry before, and for the first entry it is the 0 that `init_second_level` stored.
-- An entry whose offset is still INVALID_SWAP has kept the bytes that `init_second_level` stored for
-- the aligned entries, and in the place of its last byte the 0 of the next `frame`.
abbrev pub last_byte : ℤ → ℕ
last_byte (pos o) = o / 2 ^ 56 % 256
last_byte (negsuc zero) = 0
last_byte (negsuc (suc n)) = 255 - suc n / 2 ^ 56 % 256

abbrev pub shifted : ℤ → ℤ
shifted (pos o) = pos (255 + 256 * o)
shifted (negsuc n) = negsuc n

abbrev pub first_byte : (ℕ → PgtblEntry) → (k : ℕ) → ℕ
first_byte pgtbl zero = 0
first_byte pgtbl (suc k) = last_byte (pgtbl k).swap_off

abbrev pub aligned : (ℕ → PgtblEntry) → (k : ℕ) → PgtblEntry
aligned pgtbl k = record {
  frame = (pgtbl k).frame * 256 % 2 ^ 32 + first_byte pgtbl k;
  swap_off = shifted (pgtbl k).swap_off;
}

-- The line of an entry that is valid or on swap.
abbrev pub entry_line : (i : ℕ) → PgtblEntry → Run Line
entry_line i e =
    if has_flag pg_valid e
    then ok (in_frame i (has_flag pg_dirty e) (frame_of e))
    else assert (has_flag pg_onswap e) (ok (on_swap i e.swap_off))

-- The loop of `print_pagetbl`, over `rounds` entries from `i` on.
unfoldable pub entries_from : (rounds i : ℕ) → Range → (ℕ → PgtblEntry) → Run (List Line)
entries_from zero i range pgtbl = ok (flush invalid range)
entries_from (suc rounds) i range pgtbl =
    let skipped = entries_from rounds (suc i) (widen i range) pgtbl in
    let printed = entry_line i (pgtbl i) >>= λ line.
    entries_from rounds (suc i) none pgtbl >>= λ rest. ok (flush invalid range ++ line ∷ rest) in
    if not (has_flag pg_valid (pgtbl i)) && not (has_flag pg_onswap (pgtbl i))
    then skipped
    else printed

unfoldable pub print_pagetbl : (ℕ → PgtblEntry) → Run (List Line)
unfolding entries_from
print_pagetbl pgtbl = entries_from ptrs_per_pgtbl 0 none pgtbl

-- The loop of `print_pagedirectory`. A range of missing tables at the end is not printed.
unfoldable pub tables_from :
    (rounds i : ℕ) → Range → (ℕ → Option (ℕ → PgtblEntry)) → Run (List Line)
unfolding print_pagetbl
tables_from zero i range pgdir = ok []
tables_from (suc rounds) i range pgdir =
    let skipped = tables_from rounds (suc i) (widen i range) pgdir in
    let printed = λ (pgtbl : ℕ → PgtblEntry). print_pagetbl (aligned pgtbl) >>= λ lines.
    tables_from rounds (suc i) none pgdir >>= λ rest.
    ok (flush no_tables range ++ table i ∷ (lines ++ rest)) in
    elim (pgdir i) [ none ↦ skipped | some pgtbl ↦ printed pgtbl ]

unfoldable pub print_pagedirectory : (ℕ → Option (ℕ → PgtblEntry)) → Run (List Line)
unfolding tables_from
print_pagedirectory pgdir = tables_from ptrs_per_pgdir 0 none pgdir
