-- ===== src/Paging/Simulator/Complete.antt =====
-- The simulator runs to its end: `main` over a whole trace, from the options to the counters.
use cscc.Prelude.{ℕ, ◌+◌, ◌*◌, ◌^◌, ◌≡◌, ◌≤◌, ◌<◌, ◌⊎◌, inl, inr, refl, ap, ap₂, arith}
use cscc.Prelude.{true, Option, some, List}
use cscc.Swap.Bitmap.{Bitmap, ok, Returns, Returns-bind, Returns-map, bitmap_create}
use cscc.Swap.Slots.{IsValid}
use cscc.Swap.Create.{bitmap_create-IsValid}
use cscc.Swap.Transfer.{FileCalls}
use cscc.Swap.RoundTrip.{IsFile}
use cscc.Paging.State.{Sim}
use cscc.Paging.Policies.{rand, rand_init, fifo, fifo_init, clock, clock_init}
use cscc.Paging.Lookup.{replay_trace}
use cscc.Paging.Serving.Sound.{IsSound, IsPolicy}
use cscc.Paging.Serving.Contracts.{rand-IsPolicy, fifo-IsPolicy, clock-IsPolicy}
use cscc.Paging.Simulator.Replay.{
  accesses, InDirectory, Fits, Bounded, Replayed, replay_trace-Replayed,
}
use cscc.Paging.Simulator.Print.{print_pagedirectory}
use cscc.Paging.Simulator.Printed.{AllSmall, AllBlank, print_pagedirectory-Returns}
use cscc.Paging.Simulator.Main.{
  Bytes, Args, unset, Report, Ending, finished, System, Algorithm, parse_args, open_trace, initial,
  swap_init, ready, algs, find_alg, simulate, choose_alg, main, rand_name, fifo_name, clock_name,
  exit_code, trace_of,
}

-- The algorithms that keep the contract, by their names.
abbrev pub IsSafe : Bytes → Type 0
IsSafe name = (name ≡ rand_name) ⊎ ((name ≡ fifo_name) ⊎ (name ≡ clock_name))

module _ (calls : FileCalls) where
  -- The process ends by itself with 0, after a replay of all lines: each access was counted once, as
  -- a hit or as a miss.
  pub record Completed (lines : List (Option (ℕ × ℕ))) (ending : Ending calls) : Type 0 where
    pub report : Report calls
    pub ends : ending ≡ finished report
    pub sound : IsSound calls report.final
    pub refs : report.final.ref_count ≡ accesses lines
    pub counted : report.final.hit_count + report.final.miss_count ≡ accesses lines
    pub reported : report.errors ≤ accesses lines
    pub bounded : Bounded calls report.final

module _ (calls : FileCalls) (sys : System calls) where
  pub initial-IsSound :
      (memsize : ℕ) (file : calls.File) (swapmap : Bitmap)
      → 0 < memsize
      → memsize ≤ 2 ^ 20
      → IsValid swapmap
      → swapmap.nbits * 16 ≤ 2 ^ 31
      → IsSound calls (initial calls sys memsize file swapmap)
  initial-IsSound memsize file swapmap pos small v fits = record {
    size = small;
    mapped = record {
      located = λ q e there valid. cc;
      held = λ f lt used. cc;
      offsets = λ q e there. cc;
    };
    ready = record { hand = pos; lowest = λ f g lt below used. cc; start = inl refl };
    bitmap = v;
    slots = fits;
  }

module _ (calls : FileCalls) (h : IsFile calls) (sys : System calls) (m₀ : sys.calloc ≡ true)
    (m₀' : sys.malloc₀ ≡ true) (enough : (n : ℕ) → sys.memalign n ≡ true) where
  simulate-Completed :
      (alg : Algorithm calls) (file : Bytes) (s : Sim calls)
      → IsPolicy calls alg.policy
      → alg.init_fcn s ≡ ok s
      → InDirectory (trace_of calls sys file)
      → IsSound calls s
      → Fits calls (accesses (trace_of calls sys file)) s
      → s.ref_count ≡ 0
      → s.hit_count + s.miss_count ≡ 0
      → Returns (Completed calls (trace_of calls sys file)) (simulate calls sys alg file s)
  unfolding simulate
  simulate-Completed alg file s law started low v few none_yet zero_yet =
      rw (started, m₀, m₀')
        (Returns-bind
          (λ (r : ℕ × Sim calls).
            Replayed calls (accesses (trace_of calls sys file)) 0 s r × Bounded calls r.1)
          (Completed calls (trace_of calls sys file))
          (replay_trace calls alg.policy sys.memalign (trace_of calls sys file) s 0) _
          (replay_trace-Replayed calls h alg.policy law sys.memalign enough
            (trace_of calls sys file) s 0 low few v)
          λ r (done, bounded).
            Returns-bind (λ lines. AllSmall r.1.pgdir → AllBlank lines)
              (Completed calls (trace_of calls sys file)) (print_pagedirectory r.1.pgdir) _
              (print_pagedirectory-Returns r.1.pgdir)
              λ pages printed. record {
                report = record { errors = r.0; pages = pages; final = r.1 };
                ends = refl;
                sound = done.sound;
                refs = omega (arith, done.refs);
                counted = omega (arith, done.counted);
                reported = omega (arith, done.reported);
                bounded = bounded;
              })

  choose_alg_lem :
      (args : Args) (name file : Bytes) (s : Sim calls) (alg : Algorithm calls)
      → args.replacement_alg ≡ some name
      → find_alg calls sys name (algs calls sys args.tracefile) ≡ some alg
      → choose_alg calls sys args file s ≡ simulate calls sys alg file s
  unfolding choose_alg
  choose_alg_lem args name file s alg chosen found = ground (arith, chosen, found)

  -- An algorithm that keeps the contract, and finds the hand at 0.
  record Trusted (name : Bytes) (tracefile : Option Bytes) (s : Sim calls) : Type 0 where
    alg : Algorithm calls
    found : find_alg calls sys name (algs calls sys tracefile) ≡ some alg
    law : IsPolicy calls alg.policy
    started : alg.init_fcn s ≡ ok s

  IsSafe-Trusted :
      (name : Bytes) (tracefile : Option Bytes) (memsize : ℕ) (file : calls.File) (swapmap : Bitmap)
      → IsSafe name
      → Trusted name tracefile (initial calls sys memsize file swapmap)
  unfolding algs
  IsSafe-Trusted name tracefile memsize file swapmap (inl e) = record {
    alg = record { name = rand_name; init_fcn = λ s. ok (rand_init calls s); policy = rand calls };
    found = ap (λ n. find_alg calls sys n (algs calls sys tracefile)) e;
    law = rand-IsPolicy calls;
    started = refl;
  }
  IsSafe-Trusted name tracefile memsize file swapmap (inr (inl e)) = record {
    alg = record { name = fifo_name; init_fcn = λ s. ok (fifo_init calls s); policy = fifo calls };
    found = ap (λ n. find_alg calls sys n (algs calls sys tracefile)) e;
    law = fifo-IsPolicy calls;
    started = refl;
  }
  IsSafe-Trusted name tracefile memsize file swapmap (inr (inr e)) = record {
    alg = record {
      name = clock_name;
      init_fcn = λ s. ok (clock_init calls s);
      policy = clock calls;
    };
    found = ap (λ n. find_alg calls sys n (algs calls sys tracefile)) e;
    law = clock-IsPolicy calls;
    started = refl;
  }

  choose_alg-Completed :
      (args : Args) (name file : Bytes) (swapfile : calls.File) (swapmap : Bitmap)
      → args.replacement_alg ≡ some name
      → IsSafe name
      → InDirectory (trace_of calls sys file)
      → accesses (trace_of calls sys file) < 2 ^ 31
      → IsSound calls (initial calls sys args.memsize swapfile swapmap)
      → Returns
          (Completed calls (trace_of calls sys file))
          (choose_alg calls sys args file (initial calls sys args.memsize swapfile swapmap))
  choose_alg-Completed args name file swapfile swapmap chosen safe low few v =
      let s = initial calls sys args.memsize swapfile swapmap in
      let known = IsSafe-Trusted name args.tracefile args.memsize swapfile swapmap safe in
      rw (choose_alg_lem args name file s known.alg chosen known.found) (
        simulate-Completed known.alg file s known.law known.started low v
          (omega arith, omega arith, omega arith, omega arith) refl refl)

  swap_init_lem :
      (swapsize : ℕ) (file : calls.File) (map : Bitmap)
      → sys.mkstemp ≡ some file
      → sys.malloc₁ ≡ true
      → sys.malloc₂ ≡ true
      → bitmap_create true true swapsize ≡ ok (some map)
      → swap_init calls sys swapsize ≡ ok (ready file map)
  unfolding swap_init
  swap_init_lem swapsize file map temp m₁ m₂ made =
      ground (arith, temp, ap₂ (λ a b. bitmap_create a b swapsize) m₁ m₂, made)

  main_lem :
      (options : List (ℕ × Bytes)) (args : Args) (file : Bytes) (swapfile : calls.File)
      (map : Bitmap)
      → parse_args calls sys options unset ≡ some args
      → open_trace calls sys args.tracefile ≡ some file
      → swap_init calls sys args.swapsize ≡ ok (ready swapfile map)
      → main calls sys options
        ≡ choose_alg calls sys args file (initial calls sys args.memsize swapfile map)
  unfolding main
  main_lem options args file swapfile map parsed opened swap = ground (arith, parsed, opened, swap)

  -- With options that name one of the algorithms rand, fifo and clock, a trace file that can be
  -- opened, a memory of 1 to 2^20 frames and at most 2^27 slots of swap, with a regular file for the
  -- swap, and where no allocation of memory fails: on a trace of fewer than 2^31 accesses, to addresses
  -- whose directory index is below 4096, `main` returns, with exit code 0. The references that it
  -- reports are the accesses of the trace, and so are the hits and the misses together; the error
  -- lines are no more.
  pub main-Completed :
      (options : List (ℕ × Bytes)) (args : Args) (name file : Bytes) (swapfile : calls.File)
      → parse_args calls sys options unset ≡ some args
      → args.replacement_alg ≡ some name
      → IsSafe name
      → open_trace calls sys args.tracefile ≡ some file
      → 0 < args.memsize
      → args.memsize ≤ 2 ^ 20
      → args.swapsize ≤ 2 ^ 27
      → sys.mkstemp ≡ some swapfile
      → sys.malloc₁ ≡ true
      → sys.malloc₂ ≡ true
      → InDirectory (trace_of calls sys file)
      → accesses (trace_of calls sys file) < 2 ^ 31
      → Returns
          (λ (e : Ending calls). Completed calls (trace_of calls sys file) e × (exit_code e ≡ 0))
          (main calls sys options)
  main-Completed options args name file swapfile parsed chosen safe opened pos small fits temp m₁ m₂
        low few =
      let (map, made, slots, valid, _) = bitmap_create-IsValid args.swapsize (omega arith) in
      let v =
        initial-IsSound calls sys args.memsize swapfile map pos small valid
          (omega (arith, slots)) in
      let ends = choose_alg-Completed args name file swapfile map chosen safe low few v in
      rw
        (main_lem options args file swapfile map parsed opened
          (swap_init_lem args.swapsize swapfile map temp m₁ m₂ made))
        (Returns-map (Completed calls (trace_of calls sys file))
          (λ (e : Ending calls). Completed calls (trace_of calls sys file) e × (exit_code e ≡ 0))
          (choose_alg calls sys args file (initial calls sys args.memsize swapfile map)) ends
          (λ e done. (done, ap exit_code done.ends)))
