-- ===== src/Paging/State.antt =====
-- The state of the paging simulator: page tables, coremap, counters, memory and swap.
use cscc.Prelude.{ℕ, ◌/◌, ◌^◌, ◌-◌, bit_and, bit_or, ◌==◌, not}
use cscc.Prelude.{Bool, Option, none, some, ℤ, update}
use cscc.Swap.Bitmap.{Run, ok, abort}
use cscc.Swap.Transfer.{FileCalls, Store}
use cscc.Paging.Lru.{Lru}
use cscc.Paging.Opt.{Opt}

-- `pgtbl_entry_t`: the frame number and the status bits in a 32-bit number, and the swap offset.
pub record PgtblEntry : Type 0 where
  pub frame : ℕ
  pub swap_off : ℤ

-- A `pgtbl_entry_t *`: the index of the page directory and the index in the page table.
abbrev pub Pointer : Type 0
Pointer = ℕ × ℕ

-- `struct frame`, without the fields of the replacement algorithms.
pub record Frame : Type 0 where
  pub in_use : Bool
  pub pte : Option Pointer

-- PG_VALID, PG_DIRTY, PG_REF and PG_ONSWAP, by the number of their digit.
abbrev pub pg_valid : ℕ
pg_valid = 0

abbrev pub pg_dirty : ℕ
pg_dirty = 1

abbrev pub pg_ref : ℕ
pg_ref = 2

abbrev pub pg_onswap : ℕ
pg_onswap = 3

abbrev pub ptrs_per_pgdir : ℕ
ptrs_per_pgdir = 4096

-- `p->frame & FLAG`, `p->frame |= FLAG` and `p->frame &= ~FLAG`.
abbrev pub has_flag : ℕ → PgtblEntry → Bool
has_flag flag p = not (bit_and p.frame (2 ^ flag) == 0)

abbrev pub raise : ℕ → PgtblEntry → PgtblEntry
raise flag p = record p { frame = bit_or p.frame (2 ^ flag) }

abbrev pub lower : ℕ → PgtblEntry → PgtblEntry
lower flag p = record p { frame = bit_and p.frame (2 ^ 32 - 1 - 2 ^ flag) }

-- `p->frame >> PAGE_SHIFT`
abbrev pub frame_of : PgtblEntry → ℕ
frame_of p = p.frame / 2 ^ 12

module _ (calls : FileCalls) where
  -- The globals. `index` is `coremap->index`, the pointer of fifo.c and the hand of clock.c;
  -- `random` are the numbers that `random()` gives from here on, and `nodes` the addresses that
  -- `malloc` gives to lru.c. The head of lru.c and the fields of opt.c, which the source keeps in
  -- `coremap[0]`, are `lru` and `opt`. The five counters, each an `int`, are numbers without a bound:
  -- an access raises each by 1 at most, so that none overflows before access 2^31.
  pub record Sim : Type 0 where
    pub memsize : ℕ
    pub pgdir : ℕ → Option (ℕ → PgtblEntry)
    pub coremap : ℕ → Frame
    pub index : ℕ
    pub random : ℕ → ℕ
    pub lru : Lru
    pub nodes : ℕ → ℕ
    pub opt : Opt
    pub store : Store calls
    pub hit_count : ℕ
    pub miss_count : ℕ
    pub ref_count : ℕ
    pub evict_clean_count : ℕ
    pub evict_dirty_count : ℕ

  -- `*p`; a pointer into a table that was never made is a fault.
  abbrev pub fetch : Pointer → Sim → Run PgtblEntry
  fetch (d, t) s = elim (s.pgdir d) [ none ↦ abort | some table ↦ ok (table t) ]

  -- `*p = f(*p)`
  abbrev pub adjust : Pointer → (PgtblEntry → PgtblEntry) → Sim → Sim
  adjust (d, t) f s = elim (s.pgdir d) [
    | none ↦ s
    | some table ↦ record s { pgdir = update s.pgdir d (some (update table t (f (table t)))) }
  ]

  -- A replacement algorithm: `ref_fcn` and `evict_fcn`, which may fault.
  pub record Policy : Type 0 where
    pub ref_fcn : Pointer → Sim → Run Sim
    pub evict_fcn : Sim → Run (ℕ × Sim)
