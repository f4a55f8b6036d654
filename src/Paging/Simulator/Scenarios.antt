-- ===== src/Paging/Simulator/Scenarios.antt =====
-- A run of the simulator with two frames, at which the theorems on whole traces are applied.
use cscc.Prelude.{ℕ, ◌+◌, ◌-◌, ◌*◌, ◌≡◌, arith, refl, inr, List, [], ◌∷◌, Option, none, some, true}
use cscc.Swap.Bitmap.{Returns}
use cscc.Swap.Examples.{ram, ram-IsFile, eight, eight-IsValid}
use cscc.Paging.State.{Sim, PgtblEntry}
use cscc.Paging.Policies.{clock, fifo}
use cscc.Paging.Fifo.Place.{place}
use cscc.Paging.Fifo.Recent.{Loaded}
use cscc.Paging.Fifo.Queue.{replay_trace-first_out}
use cscc.Paging.Lookup.{find_physpage, replay_trace}
use cscc.Paging.Serving.Sound.{IsSound}
use cscc.Paging.Serving.Contracts.{clock-IsPolicy}
use cscc.Paging.Serving.Locate.{Located, find_physpage-Located}
use cscc.Paging.Simulator.Replay.{Replayed, Bounded, replay_trace-Replayed}
use cscc.Paging.Simulator.Print.{print_pagedirectory}
use cscc.Paging.Simulator.Printed.{AllBlank, AllSmall, print_pagedirectory-Blank}
use cscc.Swap.Transfer.{invalid_swap}
use cscc.Prelude.{◌<◌, ◌^◌, inl, ◌==◌, if◌then◌else◌}
use cscc.Paging.Simulator.Main.{
  Bytes, Args, Ending, System, clock_name, exit_code, initial, main, parse_args, unset,
}
use cscc.Paging.Simulator.Complete.{Completed, initial-IsSound, main-Completed}

-- Five accesses to three pages, and a line that starts with '='.
abbrev visits : List (Option (ℕ × ℕ))
visits =
    some (b'S', 4096)
    ∷ some (b'L', 8192)
    ∷ none
    ∷ some (b'L', 4096)
    ∷ some (b'M', 12288)
    ∷ some (b'L', 4096)
    ∷ []

abbrev digits : ℕ → Bytes → ℕ
digits n [] = n
digits n (c ∷ s) = digits (n * 10 + c - b'0') s

-- `%c %lx`, for a number without letters.
abbrev hex : ℕ → Bytes → ℕ
hex n [] = n
hex n (c ∷ s) = hex (n * 16 + c - b'0') s

abbrev read_line : Bytes → ℕ × ℕ → ℕ × ℕ
read_line (c ∷ space ∷ s) kept = (c, hex 0 s)
read_line s kept = kept

-- An access to page `d`.
abbrev access : (type d : ℕ) → Bytes
access type d = type ∷ b' ' ∷ d ∷ b'0' ∷ b'0' ∷ b'0' ∷ []

abbrev lines : List Bytes
lines =
    access b'S' b'1'
    ∷ access b'L' b'2'
    ∷ (b'=' ∷ b'=' ∷ [])
    ∷ access b'L' b'1'
    ∷ access b'M' b'3'
    ∷ access b'L' b'1'
    ∷ []

abbrev machine : System ram
machine = record {
  strtoul = digits 0;
  fopen = λ name. some name;
  stdin = [];
  fgets = λ file. lines;
  sscanf = read_line;
  fscanf = λ file. (0, file);
  mkstemp = some (0, λ _. 0);
  unset_type = 7;
  calloc = true;
  malloc₀ = true;
  malloc₁ = true;
  malloc₂ = true;
  memalign = λ n. true;
  garbage = λ a. 205;
  heap = λ a. none;
  nodes = λ n. n + 1;
  random = λ n. n;
}

abbrev two : Sim ram
two = initial ram machine 2 (0, λ _. 0) eight

two-IsSound : IsSound ram two
two-IsSound =
    initial-IsSound ram machine 2 (0, λ _. 0) eight (omega arith) (omega arith) eight-IsValid
      (omega arith)

find_physpage-Located_example :
    Returns (Located ram 8192 two) (find_physpage ram (clock ram) true 8192 b'S' two)
find_physpage-Located_example =
    find_physpage-Located ram ram-IsFile (clock ram) 8192 b'S' two (clock-IsPolicy ram) two-IsSound
      (omega arith)

replay_trace-Replayed_example :
    Returns
      (λ (r : ℕ × Sim ram). Replayed ram 5 0 two r × Bounded ram r.1)
      (replay_trace ram (clock ram) (λ n. true) visits two 0)
replay_trace-Replayed_example =
    replay_trace-Replayed ram ram-IsFile (clock ram) (clock-IsPolicy ram) (λ n. true) (λ n. refl)
      visits two 0 (omega arith) (omega arith) two-IsSound

two-Loaded : Loaded [] (place ram two)
two-Loaded = record {
  hand = omega arith;
  start = λ few. refl;
  free = λ f old lt. refl;
  stands = λ j lt old. absurd (omega arith);
}

-- The third access is a hit; page 3 then takes the frame of page 1, which misses again.
replay_trace-first_out_example :
    Returns
      (λ (r : ℕ × Sim ram).
        (r.1.hit_count ≡ 1)
        × Loaded ((0, 1) ∷ (0, 3) ∷ (0, 2) ∷ (0, 1) ∷ []) (place ram r.1)
        × (r.1.hit_count < 2 ^ 31))
      (replay_trace ram (fifo ram) (λ n. true) visits two 0)
replay_trace-first_out_example =
    replay_trace-first_out ram ram-IsFile (λ n. true) (λ n. refl) visits [] two 0 (omega arith)
      (omega arith) two-IsSound two-Loaded

-- sim -m 2 -a clock -s 8 -f t
abbrev options : List (ℕ × Bytes)
options = (b'm', b'2' ∷ []) ∷ (b'a', clock_name) ∷ (b's', b'8' ∷ []) ∷ (b'f', b't' ∷ []) ∷ []

abbrev chosen : Args
chosen = record {
  tracefile = some (b't' ∷ []);
  memsize = 2;
  replacement_alg = some clock_name;
  swapsize = 8;
}

options-chosen : parse_args ram machine options unset ≡ some chosen
unfolding parse_args
options-chosen = refl

main-Completed_example :
    Returns
      (λ (e : Ending ram). Completed ram visits e × (exit_code e ≡ 0))
      (main ram machine options)
main-Completed_example =
    main-Completed ram ram-IsFile machine refl refl (λ n. refl) options chosen clock_name
      (b't' ∷ []) (0, λ _. 0) options-chosen refl (inr (inr refl)) refl (omega arith) (omega arith)
      (omega arith) refl refl refl (omega arith) (omega arith)

-- A directory with one table, whose entry 3 is valid.
abbrev one_page : ℕ → Option (ℕ → PgtblEntry)
one_page d =
    if d == 1
    then some (λ t. record { frame = if t == 3 then 8193 else 0; swap_off = invalid_swap })
    else none

one_page-AllSmall : AllSmall one_page
one_page-AllSmall d t pgtbl h = inl (ground (arith, h))

print_pagedirectory-Blank_example : Returns AllBlank (print_pagedirectory one_page)
print_pagedirectory-Blank_example = print_pagedirectory-Blank one_page one_page-AllSmall
