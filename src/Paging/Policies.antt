-- ===== src/Paging/Policies.antt =====
-- The replacement algorithms of fifo.c, rand.c and clock.c on the simulator, and those of lru.c and
-- opt.c as they are called by it.
use cscc.Prelude.{ℕ, zero, suc, ◌+◌, ◌%◌, leb, ◌==◌, none, some, if◌then◌else◌, Bool, true, false}
use cscc.Swap.Bitmap.{Run, ok, abort, ◌>>=◌}
use cscc.Swap.Transfer.{FileCalls}
use cscc.Paging.Lru.{lru_ref, lru_evict}
use cscc.Paging.Opt.{opt_ref, opt_evict}
use cscc.Paging.State.{
  Pointer, frame_of, has_flag, raise, lower, pg_ref, Sim, fetch, adjust, Policy,
}

module _ (calls : FileCalls) where
  -- `coremap->index++; if (coremap->index >= memsize) coremap->index = 0;`
  abbrev pub advance : Sim calls → Sim calls
  advance s = record s { index = if leb s.memsize (s.index + 1) then 0 else s.index + 1 }

  unfoldable pub fifo_evict : Sim calls → Run (ℕ × Sim calls)
  fifo_evict s = ok (s.index, advance s)

  abbrev pub fifo_ref : Pointer → Sim calls → Run (Sim calls)
  fifo_ref p s = ok s

  abbrev pub fifo_init : Sim calls → Sim calls
  fifo_init s = record s { index = 0 }

  abbrev pub fifo : Policy calls
  fifo = record { ref_fcn = fifo_ref; evict_fcn = fifo_evict }

  -- Division by `memsize` faults where it is 0.
  unfoldable pub rand_evict : Sim calls → Run (ℕ × Sim calls)
  rand_evict s =
      if s.memsize == 0
      then abort
      else ok (s.random 0 % s.memsize, record s { random = λ n. s.random (suc n) })

  abbrev pub rand_ref : Pointer → Sim calls → Run (Sim calls)
  rand_ref p s = ok s

  abbrev pub rand_init : Sim calls → Sim calls
  rand_init s = s

  abbrev pub rand : Policy calls
  rand = record { ref_fcn = rand_ref; evict_fcn = rand_evict }

  -- `clock_evict` calls itself after it has cleared a reference bit, and moves the hand once more
  -- when that call returns. Out of fuel it aborts.
  unfoldable pub clock_evict_fuel : ℕ → Sim calls → Run (ℕ × Sim calls)
  clock_evict_fuel zero s = abort
  clock_evict_fuel (suc fuel) s = elim (s.coremap s.index).pte [
    | none ↦ abort
    | some p ↦ fetch calls p s >>= λ entry.
        let again = clock_evict_fuel fuel (advance (adjust calls p (lower pg_ref) s)) in
        (if has_flag pg_ref entry then again else ok (s.index, s)) >>= λ chosen.
        ok (chosen.0, advance chosen.1)
  ]

  -- One round of the frames clears every reference bit, so the depth is at most `memsize + 1`.
  unfoldable pub clock_evict : Sim calls → Run (ℕ × Sim calls)
  unfolding clock_evict_fuel
  clock_evict s = clock_evict_fuel (s.memsize + 1) s

  unfoldable pub clock_ref : Pointer → Sim calls → Run (Sim calls)
  clock_ref p s = elim (s.coremap s.index).pte [
    | none ↦ abort
    | some q ↦ fetch calls q s >>= λ _. ok (adjust calls q (raise pg_ref) s)
  ]

  abbrev pub clock_init : Sim calls → Sim calls
  clock_init s = record s { index = 0 }

  abbrev pub clock : Policy calls
  clock = record { ref_fcn = clock_ref; evict_fcn = clock_evict }

  -- Whether frame `k` has a page.
  abbrev pub has_page : Sim calls → ℕ → Bool
  has_page s k = elim (s.coremap k).pte [ none ↦ false | some q ↦ true ]

  -- lru.c and opt.c read the frame from the entry. The list of lru.c has at most a node for each
  -- frame, so `memsize + 1` steps along it are enough.
  abbrev pub lru : Policy calls
  lru = record {
    ref_fcn = λ p s. fetch calls p s >>= λ e.
        lru_ref (s.memsize + 1) (s.nodes 0) (frame_of e) s.lru >>= λ l.
        ok (record s { lru = l; nodes = λ n. s.nodes (suc n) });
    evict_fcn = λ s. lru_evict (s.memsize + 1) s.lru >>= λ r. ok (r.0, record s { lru = r.1 });
  }

  abbrev pub opt : Policy calls
  opt = record {
    ref_fcn = λ p s. fetch calls p s >>= λ e.
        opt_ref (has_page s) (frame_of e) s.opt >>= λ o. ok (record s { opt = o });
    evict_fcn = λ s. ok (opt_evict s.memsize (has_page s) s.opt, s);
  }
