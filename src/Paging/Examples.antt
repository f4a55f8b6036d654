-- ===== src/Paging/Examples.antt =====
-- A memory of four frames with one page in frame 2, at which the theorems on paging are applied.
use cscc.Prelude.{◌+◌, ℕ, ◌==◌, ◌≡◌, arith, refl, true, false, some, none}
use cscc.Prelude.{Option, pos, if◌then◌else◌}
use cscc.Swap.Bitmap.{ok, ◌>>=◌}
use cscc.Swap.Create.{fresh}
use cscc.Swap.Transfer.{invalid_swap}
use cscc.Swap.Examples.{ram}
use cscc.Paging.State.{PgtblEntry, Frame, Sim, fetch}
use cscc.Paging.Lookup.{allocate_frame, init_frame, load_page, find_physpage}
use native.Mathlib.Decide.{ℕ_discrete}
use cscc.Prelude.{[], ◌∷◌}
use cscc.Swap.Bitmap.{abort}
use cscc.Paging.Lru.{Lru, lru_evict, lru_ref}
use cscc.Paging.Lru.Chain.{Cells, node}
use cscc.Paging.Lru.Refine.{
  IsLru, Represents, touch, lru_evict-Represents, lru_ref-Represents, lru_ref-front,
}
use cscc.Prelude.{inr}
use cscc.Paging.Opt.{Opt, opt_evict}
use cscc.Paging.Opt.Best.{Times, Best, opt_evict-Best}
use cscc.Paging.Policies.{fifo, clock_evict}
use cscc.Paging.Clock.{IsFull, Chosen, clock_evict-Chosen}
use cscc.Paging.Reload.{mapped, load_page-fresh}
use cscc.Paging.Hit.{IsHit, find_physpage-IsHit}
use cscc.Swap.Bitmap.{Returns}

-- Page 5 is in frame 2, valid; page 6 was written to swap at offset 16.
abbrev pages : ℕ → PgtblEntry
pages t =
    if t == 5
    then record { frame = 8193; swap_off = invalid_swap }
    else if t == 6
    then record { frame = 8; swap_off = pos 16 }
    else record { frame = 0; swap_off = invalid_swap }

abbrev tables : ℕ → Option (ℕ → PgtblEntry)
tables d = if d == 0 then some pages else none

abbrev frames : ℕ → Frame
frames f =
    if f == 2
    then record { in_use = true; pte = some (0, 5) }
    else record { in_use = false; pte = none }

abbrev four : Sim ram
four = record {
  memsize = 4;
  pgdir = tables;
  coremap = frames;
  index = 3;
  random = λ n. n;
  lru = record { head = 0; heap = λ a. none };
  nodes = λ n. n + 1;
  opt = record { pre = none; items = []; lines = 0; addrs = λ t. 0; memory = λ k. pos 0 };
  store = record { physmem = λ a. 0; swapmap = fresh 8; file = (0, λ _. 0) };
  hit_count = 0;
  miss_count = 0;
  ref_count = 0;
  evict_clean_count = 0;
  evict_dirty_count = 0;
}

load_page-fresh_example : load_page ram (fifo ram) (0, 6) 24576 four ≡ (
    allocate_frame ram (fifo ram) (0, 6) (record four { miss_count = 1 }) >>= λ got.
    fetch ram (0, 6) (mapped ram (0, 6) got.0 got.1) >>= λ _.
    ok (init_frame ram got.0 24576 (mapped ram (0, 6) got.0 got.1)))
load_page-fresh_example = load_page-fresh ram (fifo ram) (0, 6) 24576 four

find_physpage-IsHit_example :
    Returns
      (IsHit ram (0, 5) b'M' (pages 5) four)
      (find_physpage ram (fifo ram) true 20480 b'M' four)
find_physpage-IsHit_example =
    find_physpage-IsHit ram true 20480 b'M' four pages (omega arith) refl refl

-- A memory of two frames, in which pages 5 and 6 stand, both referenced.
abbrev busy_pages : ℕ → PgtblEntry
busy_pages t =
    if t == 5
    then record { frame = 5; swap_off = invalid_swap }
    else if t == 6
    then record { frame = 4101; swap_off = invalid_swap }
    else record { frame = 0; swap_off = invalid_swap }

abbrev busy : Sim ram
busy = record four {
  memsize = 2;
  pgdir = λ d. if d == 0 then some busy_pages else none;
  coremap = λ f. record { in_use = true; pte = some (0, f + 5) };
  index = 1;
}

busy-IsFull : IsFull ram busy
busy-IsFull = record {
  hand = omega arith;
  pages = λ f lt. elim (ℕ_discrete f 0) [
    | yes e ↦ (true, rw e refl)
    | no n ↦ let one : f ≡ 1 = omega arith in (true, rw one refl)
  ];
}

clock_evict-Chosen_example : Chosen ram busy (clock_evict ram busy)
clock_evict-Chosen_example = clock_evict-Chosen ram busy busy-IsFull

-- A list of three nodes, at 10, 20 and 30, for the frames 2, 0 and 1.
abbrev cells : Cells
cells = (10, 2) ∷ (20, 0) ∷ (30, 1) ∷ []

abbrev recent : Lru
recent = record {
  head = 10;
  heap = λ a.
      if a == 10
      then node 0 20 2
      else if a == 20
      then node 10 30 0
      else if a == 30
      then node 20 0 1
      else none;
}

recent-IsLru : IsLru recent cells
recent-IsLru = record {
  head = refl;
  chain = (omega arith, refl, (omega arith, refl, (omega arith, refl, tt)));
  distinct = (refl, (refl, (refl, tt)));
}

lru_evict-Represents_example :
    (s' : Lru) × (lru_evict 4 recent ≡ ok (1, s')) × Represents s' (2 ∷ 0 ∷ [])
lru_evict-Represents_example =
    lru_evict-Represents recent 10 2 20 0 4 ((30, 1) ∷ []) recent-IsLru (omega arith)

lru_ref-Represents_example :
    (s' : Lru) × (lru_ref 4 40 0 recent ≡ ok s') × Represents s' (touch 0 (2 ∷ 0 ∷ 1 ∷ []))
lru_ref-Represents_example =
    lru_ref-Represents recent 40 0 10 2 4 ((20, 0) ∷ (30, 1) ∷ []) recent-IsLru refl (omega arith)
      refl (omega arith)

lru_ref-front_example : lru_ref 4 40 2 recent ≡ abort
lru_ref-front_example =
    lru_ref-front recent 40 10 2 3 ((20, 0) ∷ (30, 1) ∷ []) recent-IsLru (omega arith)

-- Frames whose pages are referenced next at 3, 8 and 5; the page before the current one stands in
-- frame 1, and its address comes again at time 2.
abbrev planned : Opt
planned = record {
  pre = some (record { index = 1; time = 0; addr = 7 });
  items = record { index = 0; time = 1; addr = 9 } ∷ [];
  lines = 4;
  addrs = λ t. if t == 1 then 9 else 7;
  memory = λ k. if k == 0 then pos 3 else if k == 1 then pos 8 else pos 5;
}

planned-Times : Times planned.memory
planned-Times k = inr (elim (ℕ_discrete k 0) [
  | yes first ↦ (3, rw first refl)
  | no other ↦ elim (ℕ_discrete k 1) [
    | yes second ↦ (8, rw second refl)
    | no third ↦ (5, ground arith)
  ]
])

opt_evict-Best_example : Best planned.memory 3 (opt_evict 3 (λ _. true) planned)
opt_evict-Best_example =
    opt_evict-Best 3 (λ _. true) planned (omega arith) (λ k lt. refl) planned-Times
