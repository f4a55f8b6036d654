-- ===== src/Paging/Simulator/Main.antt =====
-- `main` of sim.c, with `swap_init`, `swap_destroy` and `init_pagetable`.
use cscc.Prelude.{
  ℕ, ◌%◌, ◌^◌, ◌==◌, ◌&&◌, Bool, true, false, Option, none, some, pos, List, [], ◌∷◌, if◌then◌else◌,
  Memory,
}
use cscc.Swap.Bitmap.{Bitmap, Run, ok, abort, ◌>>=◌, bitmap_create}
use cscc.Swap.Transfer.{FileCalls}
use cscc.Paging.State.{PgtblEntry, Sim, Policy}
use cscc.Paging.Lru.{Heap, lru_init}
use cscc.Paging.Opt.Init.{opt_init}
use cscc.Paging.Policies.{fifo, fifo_init, rand, rand_init, clock, clock_init, lru, opt}
use cscc.Paging.Lookup.{replay_trace}
use cscc.Paging.Simulator.Print.{Line, print_pagedirectory}

-- The bytes of a text.
abbrev pub Bytes : Type 0
Bytes = List ℕ

abbrev pub bytes_eq : Bytes → Bytes → Bool
bytes_eq [] [] = true
bytes_eq (a ∷ s) (b ∷ t) = (a == b) && bytes_eq s t
bytes_eq s t = false

-- What the options set. No trace file means standard input.
pub record Args : Type 0 where
  pub tracefile : Option Bytes
  pub memsize : ℕ
  pub replacement_alg : Option Bytes
  pub swapsize : ℕ

-- Before the options are read.
abbrev pub unset : Args
unset = record { tracefile = none; memsize = 0; replacement_alg = none; swapsize = 4096 }

-- The names in `algs`.
abbrev pub rand_name : Bytes
rand_name = b'r' ∷ b'a' ∷ b'n' ∷ b'd' ∷ []

abbrev pub lru_name : Bytes
lru_name = b'l' ∷ b'r' ∷ b'u' ∷ []

abbrev pub fifo_name : Bytes
fifo_name = b'f' ∷ b'i' ∷ b'f' ∷ b'o' ∷ []

abbrev pub clock_name : Bytes
clock_name = b'c' ∷ b'l' ∷ b'o' ∷ b'c' ∷ b'k' ∷ []

abbrev pub opt_name : Bytes
opt_name = b'o' ∷ b'p' ∷ b't' ∷ []

-- The ways in which the process ends by itself. `finished` has what it prints: the error lines of
-- the replay by their number, the page directory, and the counters. The rates, which are floating
-- point numbers, are left out.
pub record Report (calls : FileCalls) : Type 0 where
  pub errors : ℕ
  pub pages : List Line
  pub final : Sim calls

pub data Ending (calls : FileCalls) : Type 0 where
  usage : Ending calls
  no_tracefile : Ending calls
  no_swapfile : Ending calls
  no_bitmap : Ending calls
  invalid_algorithm : Bytes → Ending calls
  finished : Report calls → Ending calls

abbrev pub exit_code : {calls : FileCalls} → Ending calls → ℕ
exit_code (finished report) = 0
exit_code other = 1

module _ (calls : FileCalls) where
  -- What the libraries and the system give: `strtoul` and `fopen`, standard input, the lines that
  -- `fgets` gives of a file, the type and the address after a `sscanf` of a line that finds them at the
  -- given values, which it keeps where the scan fails, what the variable of the type holds at first,
  -- the `fscanf` of opt.c, the file of `mkstemp`, whether `calloc` finds memory for the coremap and
  -- `malloc` for the simulated memory, whether it does for the two parts of the bitmap, whether
  -- `posix_memalign` succeeds in the access after so many references, what is in the memory that
  -- `malloc` gives, and the numbers of `random`.
  pub record System : Type 0 where
    pub strtoul : Bytes → ℕ
    pub fopen : Bytes → Option Bytes
    pub stdin : Bytes
    pub fgets : Bytes → List Bytes
    pub sscanf : Bytes → ℕ × ℕ → ℕ × ℕ
    pub unset_type : ℕ
    pub fscanf : Bytes → ℕ × Bytes
    pub mkstemp : Option calls.File
    pub calloc : Bool
    pub malloc₀ : Bool
    pub malloc₁ : Bool
    pub malloc₂ : Bool
    pub memalign : ℕ → Bool
    pub garbage : Memory
    pub heap : Heap
    pub nodes : ℕ → ℕ
    pub random : ℕ → ℕ

  -- What `swap_init` comes to.
  pub data SwapInit : Type 0 where
    no_file : SwapInit
    no_map : SwapInit
    ready : calls.File → Bitmap → SwapInit

  -- `struct functions`. An initialisation may fault.
  pub record Algorithm : Type 0 where
    pub name : Bytes
    pub init_fcn : Sim calls → Run (Sim calls)
    pub policy : Policy calls

  module _ (sys : System) where
    -- The `switch` of the options; none is the usage line.
    abbrev pub set_option : ℕ → Bytes → Args → Option Args
    set_option o optarg args =
        let number = sys.strtoul optarg % 2 ^ 32 in
        if o == b'f'
        then some (record args { tracefile = some optarg })
        else if o == b'm'
        then some (record args { memsize = number })
        else if o == b'a'
        then some (record args { replacement_alg = some optarg })
        else if o == b's'
        then some (record args { swapsize = number })
        else none

    -- The loop over the results of `getopt`, each the option and its argument.
    unfoldable pub parse_args : List (ℕ × Bytes) → Args → Option Args
    parse_args [] args = some args
    parse_args ((o, optarg) ∷ rest) args = elim (set_option o optarg args) [
      | none ↦ none
      | some args' ↦ parse_args rest args'
    ]

    -- `opt_init` opens the trace by its name; the name of standard input is null, which faults.
    abbrev pub start_opt : Option Bytes → Sim calls → Run (Sim calls)
    start_opt none s = abort
    start_opt (some name) s = elim (sys.fopen name) [
      | none ↦ abort
      | some file ↦ ok (record s { opt = opt_init sys.fscanf file })
    ]

    unfoldable pub swap_init : (swapsize : ℕ) → Run SwapInit
    swap_init swapsize = elim sys.mkstemp [
      | none ↦ ok no_file
      | some file ↦ bitmap_create sys.malloc₁ sys.malloc₂ swapsize >>= λ map. elim map [
        | none ↦ ok no_map
        | some swapmap ↦ ok (ready file swapmap)
      ]
    ]

    -- `init_pagetable`
    abbrev pub init_pagetable : ℕ → Option (ℕ → PgtblEntry)
    init_pagetable i = none

    -- The globals after `calloc` and `malloc`, where these succeed, `swap_init` and `init_pagetable`.
    abbrev pub initial : (memsize : ℕ) → calls.File → Bitmap → Sim calls
    initial memsize file swapmap = record {
      memsize = memsize;
      pgdir = init_pagetable;
      coremap = λ f. record { in_use = false; pte = none };
      index = 0;
      random = sys.random;
      lru = record { head = 0; heap = sys.heap };
      nodes = sys.nodes;
      opt = record { pre = none; items = []; lines = 0; addrs = λ t. 0; memory = λ k. pos 0 };
      store = record { physmem = sys.garbage; swapmap = swapmap; file = file };
      hit_count = 0;
      miss_count = 0;
      ref_count = 0;
      evict_clean_count = 0;
      evict_dirty_count = 0;
    }

    unfoldable pub algs : Option Bytes → List Algorithm
    algs tracefile =
        record { name = rand_name; init_fcn = λ s. ok (rand_init calls s); policy = rand calls }
        ∷ record {
          name = lru_name;
          init_fcn = λ s. ok (record s { lru = lru_init s.lru.heap });
          policy = lru calls;
        }
        ∷ record { name = fifo_name; init_fcn = λ s. ok (fifo_init calls s); policy = fifo calls }
        ∷ record {
          name = clock_name;
          init_fcn = λ s. ok (clock_init calls s);
          policy = clock calls;
        }
        ∷ record { name = opt_name; init_fcn = start_opt tracefile; policy = opt calls }
        ∷ []

    abbrev pub find_alg : Bytes → List Algorithm → Option Algorithm
    find_alg name [] = none
    find_alg name (alg ∷ rest) =
        let later = find_alg name rest in if bytes_eq alg.name name then some alg else later

    -- A line of the trace is read, where the type and the address of the line before are `kept`, or
    -- skipped if it starts with '='.
    abbrev pub parse_line : (kept : ℕ × ℕ) → Bytes → Option (ℕ × ℕ)
    parse_line kept [] = some (sys.sscanf [] kept)
    parse_line kept (c ∷ line) = if c == b'=' then none else some (sys.sscanf (c ∷ line) kept)

    abbrev pub parse_lines : (kept : ℕ × ℕ) → List Bytes → List (Option (ℕ × ℕ))
    parse_lines kept [] = []
    parse_lines kept (line ∷ lines) = elim (parse_line kept line) [
      | none ↦ none ∷ parse_lines kept lines
      | some access ↦ some access ∷ parse_lines access lines
    ]

    -- What `replay_trace` reads in a file.
    abbrev pub trace_of : Bytes → List (Option (ℕ × ℕ))
    trace_of file = parse_lines (sys.unset_type, 0) (sys.fgets file)

    -- `main` does not test the results of `calloc` and `malloc`. Where one is null, the first access
    -- ends the process: it is a miss, which follows the null pointer, if `posix_memalign` has not
    -- failed before.
    abbrev pub starved : List (Option (ℕ × ℕ)) → Sim calls → Run (ℕ × Sim calls)
    starved [] s = ok (0, s)
    starved (none ∷ lines) s = starved lines s
    starved (some access ∷ lines) s = abort

    -- From `init_fcn()` on.
    unfoldable pub simulate : Algorithm → Bytes → Sim calls → Run (Ending calls)
    simulate alg file s = alg.init_fcn s >>= λ s₁.
        (if sys.calloc && sys.malloc₀
          then replay_trace calls alg.policy sys.memalign (trace_of file) s₁ 0
          else starved (trace_of file) s₁)
        >>= λ r. print_pagedirectory r.1.pgdir >>= λ pages.
            ok (finished (record { errors = r.0; pages = pages; final = r.1 }))

    -- The file is open, and the swap is ready: the algorithm is looked up.
    unfoldable pub choose_alg : Args → Bytes → Sim calls → Run (Ending calls)
    unfolding algs simulate
    choose_alg args file s = elim args.replacement_alg [
      | none ↦ ok usage
      | some name ↦ elim (find_alg name (algs args.tracefile)) [
        | none ↦ ok (invalid_algorithm name)
        | some alg ↦ simulate alg file s
      ]
    ]

    abbrev pub open_trace : Option Bytes → Option Bytes
    open_trace none = some sys.stdin
    open_trace (some name) = sys.fopen name

    unfoldable pub main : List (ℕ × Bytes) → Run (Ending calls)
    unfolding parse_args swap_init choose_alg
    main options = elim (parse_args options unset) [
      | none ↦ ok usage
      | some args ↦ elim (open_trace args.tracefile) [
        | none ↦ ok no_tracefile
        | some file ↦ swap_init args.swapsize >>= λ swap. elim swap [
          | no_file ↦ ok no_swapfile
          | no_map ↦ ok no_bitmap
          | ready swapfile swapmap ↦ choose_alg args file (initial args.memsize swapfile swapmap)
        ]
      ]
    ]
