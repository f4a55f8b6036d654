-- ===== src/Paging/Lookup.antt =====
-- `allocate_frame`, `init_second_level`, `init_frame` and `find_physpage` of pagetable.c, and
-- `access_mem` and `replay_trace` of sim.c.
use cscc.Prelude.{ℕ, zero, suc, ◌+◌, ◌*◌, ◌/◌, ◌%◌, ◌^◌, ltb, ◌==◌, not, ◌||◌, ◌==ℤ◌}
use cscc.Prelude.{Bool, true, Option, none, some, List, [], ◌∷◌, replicate, if◌then◌else◌, update}
use cscc.Prelude.{load, store, le_bytes, le_value}
use cscc.Swap.Bitmap.{Run, ok, abort, assert, ◌>>=◌}
use cscc.Swap.Transfer.{FileCalls, simpagesize, invalid_swap, swap_pagein, swap_pageout}
use cscc.Paging.State.{
  PgtblEntry, Pointer, Frame, pg_valid, pg_dirty, pg_ref, pg_onswap, ptrs_per_pgdir,
}
use cscc.Paging.State.{has_flag, raise, lower, frame_of, Sim, fetch, adjust, Policy}

-- The first free frame from `i` on.
unfoldable pub find_free : (rounds i : ℕ) → (ℕ → Frame) → Option ℕ
find_free zero i coremap = none
find_free (suc rounds) i coremap =
    let rest = find_free rounds (suc i) coremap in if (coremap i).in_use then rest else some i

-- A page table of fresh entries.
abbrev pub init_second_level : ℕ → PgtblEntry
init_second_level _ = record { frame = 0; swap_off = invalid_swap }

-- PGDIR_INDEX as an `unsigned`, and PGTBL_INDEX.
abbrev pub pgdir_index : ℕ → ℕ
pgdir_index vaddr = vaddr / 2 ^ 24 % 2 ^ 32

abbrev pub pgtbl_index : ℕ → ℕ
pgtbl_index vaddr = vaddr / 2 ^ 12 % 4096

-- The accesses 'M' and 'S' of a trace write.
abbrev pub is_write : ℕ → Bool
is_write type = (type == b'M') || (type == b'S')

-- The flags that every reference sets.
abbrev pub touched : (type : ℕ) → PgtblEntry → PgtblEntry
touched type e =
    let seen = raise pg_ref (raise pg_valid e) in
    if is_write type then raise pg_dirty seen else seen

module _ (calls : FileCalls) where
  -- `coremap[frame].in_use = 1; coremap[frame].pte = p;`
  abbrev pub claim : Pointer → ℕ → Sim calls → Sim calls
  claim p frame s = record s {
    coremap = update s.coremap frame (record { in_use = true; pte = some p });
  }

  -- The swap of a dirty victim: on success the entry gets the offset and PG_ONSWAP.
  unfoldable pub write_victim : Pointer → PgtblEntry → ℕ → Sim calls → Run (Sim calls)
  write_victim bye entry frame s = swap_pageout calls frame entry.swap_off s.store >>= λ out.
      let s' = record s { store = out.0; evict_dirty_count = s.evict_dirty_count + 1 } in
      ok (
        if out.1 ==ℤ invalid_swap
        then s'
        else adjust calls bye (λ e. record (raise pg_onswap e) { swap_off = out.1 }) s')

  -- The part of `allocate_frame` after the choice of a victim.
  unfoldable pub expel : ℕ → Sim calls → Run (Sim calls)
  unfolding write_victim
  expel frame s = elim (s.coremap frame).pte [
    | none ↦ abort
    | some bye ↦ fetch calls bye s >>= λ entry.
        (if has_flag pg_dirty entry
          then write_victim bye entry frame s
          else ok (record s { evict_clean_count = s.evict_clean_count + 1 }))
        >>= λ s'. ok (adjust calls bye (lower pg_valid) s')
  ]

  unfoldable pub allocate_frame : Policy calls → Pointer → Sim calls → Run (ℕ × Sim calls)
  unfolding find_free expel
  allocate_frame policy p s = elim (find_free s.memsize 0 s.coremap) [
    | some frame ↦ ok (frame, claim p frame s)
    | none ↦ policy.evict_fcn s >>= λ victim.
        expel victim.0 victim.1 >>= λ s'. ok (victim.0, claim p victim.0 s')
  ]

  -- `init_frame`: sixteen zero bytes, then the address in eight bytes behind the version.
  abbrev pub init_frame : (frame vaddr : ℕ) → Sim calls → Sim calls
  init_frame frame vaddr s =
      let zeroed = store s.store.physmem (frame * simpagesize) (replicate simpagesize 0) in
      record s {
        store = record (s.store) {
          physmem = store zeroed (frame * simpagesize + 4) (le_bytes 8 vaddr);
        };
      }

  -- The miss branch of `find_physpage`, for the entry at `p`. The result of `swap_pagein` is not
  -- read.
  unfoldable pub load_page : Policy calls → Pointer → (vaddr : ℕ) → Sim calls → Run (Sim calls)
  unfolding allocate_frame
  load_page policy p vaddr s =
      allocate_frame policy p (record s { miss_count = s.miss_count + 1 }) >>= λ got.
      let s' = adjust calls p (λ e. record e { frame = got.0 * 2 ^ 12 % 2 ^ 32 }) got.1 in
      fetch calls p s' >>= λ entry.
      if has_flag pg_onswap entry
      then (swap_pagein calls got.0 entry.swap_off s'.store >>= λ filled.
          ok (record s' { store = filled.0 }))
      else ok (init_frame got.0 vaddr s')

  -- The page table of a directory entry is made at its first use; `memalign` says whether
  -- `posix_memalign` succeeds, without which the process exits. An index beyond the directory is an
  -- access out of bounds.
  abbrev pub ensure_table : (memalign : Bool) → (idx : ℕ) → Sim calls → Run (Sim calls)
  ensure_table memalign idx s = assert (ltb idx ptrs_per_pgdir) (elim (s.pgdir idx) [
    | some _ ↦ ok s
    | none ↦ assert memalign (ok (record s { pgdir = update s.pgdir idx (some init_second_level) }))
  ])

  -- From the test of PG_VALID on: a hit, or a miss that loads the page.
  abbrev pub hit_or_load : Policy calls → Pointer → (vaddr : ℕ) → Sim calls → Run (Sim calls)
  hit_or_load policy p vaddr s = fetch calls p s >>= λ entry.
      if has_flag pg_valid entry
      then ok (record s { hit_count = s.hit_count + 1 })
      else load_page policy p vaddr s

  -- What follows for either: the flags, and the call of the replacement algorithm. The result is the
  -- address in the simulated memory.
  abbrev pub refer : Policy calls → Pointer → (type : ℕ) → Sim calls → Run (ℕ × Sim calls)
  refer policy p type s = policy.ref_fcn p (adjust calls p (touched type) s) >>= λ s'.
      fetch calls p s' >>= λ entry. ok (frame_of entry * simpagesize % 2 ^ 32, s')

  unfoldable pub find_physpage :
      Policy calls → (memalign : Bool) → (vaddr type : ℕ) → Sim calls → Run (ℕ × Sim calls)
  find_physpage policy memalign vaddr type s =
      let p : Pointer = (pgdir_index vaddr, pgtbl_index vaddr) in
      ensure_table memalign (pgdir_index vaddr) s >>= λ s1.
      hit_or_load policy p vaddr (record s1 { ref_count = s1.ref_count + 1 }) >>= λ s2.
      refer policy p type s2

  -- `access_mem`. The flag says whether the error line is printed: the page does not hold its
  -- address. A write counts the version, an `int` in the first four bytes, up.
  unfoldable pub access_mem :
      Policy calls → (memalign : Bool) → (type vaddr : ℕ) → Sim calls → Run (Bool × Sim calls)
  access_mem policy memalign type vaddr s = find_physpage policy memalign vaddr type s >>= λ found.
      let at = found.0 in
      let s' = found.1 in
      let mem = s'.store.physmem in
      let version = le_value (load mem 4 at) in
      let error = not (le_value (load mem 8 (at + 4)) == vaddr) in
      ok (
        error,
        (if is_write type
            then record s' {
              store = record (s'.store) {
                physmem = store mem at (le_bytes 4 ((version + 1) % 2 ^ 32));
              };
            }
            else s'),
      )

  -- `replay_trace` over the lines of a trace: `none` is a line that starts with '=', else the type
  -- and the address that are set after `sscanf` has read it. The number counts the error lines.
  -- `memalign n` says whether `posix_memalign` succeeds, where it is called in the access after `n`
  -- references.
  unfoldable pub replay_trace :
      Policy calls
      → (memalign : ℕ → Bool) (lines : List (Option (ℕ × ℕ))) → Sim calls
      → ℕ
      → Run (ℕ × Sim calls)
  unfolding access_mem
  replay_trace policy memalign [] s errors = ok (errors, s)
  replay_trace policy memalign (none ∷ lines) s errors = replay_trace policy memalign lines s errors
  replay_trace policy memalign (some (type, vaddr) ∷ lines) s errors =
      access_mem policy (memalign s.ref_count) type vaddr s >>= λ done.
      replay_trace policy memalign lines done.1 (if done.0 then errors + 1 else errors)
