-- ===== src/Paging/Simulator/Replay.antt =====
-- `access_mem` and `replay_trace` of sim.c: a whole trace is replayed.
use cscc.Prelude.{
  ℕ, ◌+◌, ◌%◌, ◌^◌, ◌≡◌, ◌≤◌, ◌<◌, arith, ◌∙◌, if◌then◌else◌, List, [], ◌∷◌, Option, none, some,
  Bool, true, false, load, store, le_bytes, le_value, refl,
}
use cscc.Swap.Bitmap.{Returns, Returns-bind, Returns-map}
use cscc.Swap.Transfer.{FileCalls}
use cscc.Swap.RoundTrip.{IsFile}
use cscc.Paging.State.{Sim, Policy}
use cscc.Paging.Lookup.{pgdir_index, pgtbl_index, is_write, find_physpage, access_mem, replay_trace}
use cscc.Paging.Serving.Sound.{IsSound, IsPolicy}
use cscc.Paging.Serving.Serve.{resident}
use cscc.Paging.Serving.Locate.{Located, find_physpage-Located}

-- The lines of a trace that are accesses.
abbrev pub accesses : List (Option (ℕ × ℕ)) → ℕ
accesses [] = 0
accesses (none ∷ lines) = accesses lines
accesses (some access ∷ lines) = accesses lines + 1

-- The addresses of a trace lie in the page directory.
abbrev pub InDirectory : List (Option (ℕ × ℕ)) → Type 0
InDirectory [] = Unit
InDirectory (none ∷ lines) = InDirectory lines
InDirectory (some (type, vaddr) ∷ lines) = (pgdir_index vaddr < 4096) × InDirectory lines

module _ (calls : FileCalls) where
  -- One access more, from a sound state to a sound state.
  pub record Accessed (s : Sim calls) (r : Bool × Sim calls) : Type 0 where
    pub sound : IsSound calls r.1
    pub size : r.1.memsize ≡ s.memsize
    pub refs : r.1.ref_count ≡ s.ref_count + 1
    pub counted : r.1.hit_count + r.1.miss_count ≡ s.hit_count + s.miss_count + 1

  -- After `n` more accesses the counters fit an `int`.
  abbrev pub Fits : ℕ → Sim calls → Type 0
  Fits n s =
      (s.ref_count + n < 2 ^ 31)
      × (s.hit_count + s.miss_count + n < 2 ^ 31)
      × (s.evict_clean_count + n < 2 ^ 31)
      × (s.evict_dirty_count + n < 2 ^ 31)

  -- The references, and the hits and misses, fit an `int`.
  abbrev pub Bounded : Sim calls → Type 0
  Bounded s = (s.ref_count < 2 ^ 31) × (s.hit_count + s.miss_count < 2 ^ 31)

  tally :
      (hit : Bool) (h m h' m' : ℕ)
      → h' ≡ h + (if hit then 1 else 0)
      → m' ≡ m + (if hit then 0 else 1)
      → h' + m' ≡ h + m + 1
  tally true h m h' m' a b = omega arith
  tally false h m h' m' a b = omega arith

  -- A write changes only the bytes of the memory.
  pub written-Accessed :
      (write error : Bool) (vaddr : ℕ) (s : Sim calls) (r : ℕ × Sim calls) (version : List ℕ)
      → Located calls vaddr s r
      → Accessed s (
        error,
        (if write
            then record (r.1) {
              store = record (r.1.store) { physmem = store r.1.store.physmem r.0 version };
            }
            else r.1),
      )
  written-Accessed true error vaddr s r version found = record {
    sound = record {
      size = found.sound.size;
      mapped = found.sound.mapped;
      ready = found.sound.ready;
      bitmap = found.sound.bitmap;
      slots = found.sound.slots;
    };
    size = found.size;
    refs = found.refs;
    counted =
        tally (resident calls (pgdir_index vaddr, pgtbl_index vaddr) s) s.hit_count s.miss_count
          r.1.hit_count r.1.miss_count found.hits found.misses;
  }
  written-Accessed false error vaddr s r version found = record {
    sound = found.sound;
    size = found.size;
    refs = found.refs;
    counted =
        tally (resident calls (pgdir_index vaddr, pgtbl_index vaddr) s) s.hit_count s.miss_count
          r.1.hit_count r.1.miss_count found.hits found.misses;
  }

  -- A replay of `n` accesses from `s` has ended in a sound state.
  pub record Replayed (n errors : ℕ) (s : Sim calls) (r : ℕ × Sim calls) : Type 0 where
    pub sound : IsSound calls r.1
    pub size : r.1.memsize ≡ s.memsize
    pub refs : r.1.ref_count ≡ s.ref_count + n
    pub counted : r.1.hit_count + r.1.miss_count ≡ s.hit_count + s.miss_count + n
    pub reported : r.0 ≤ errors + n

  module _ (h : IsFile calls) (policy : Policy calls) (law : IsPolicy calls policy)
      (memalign : ℕ → Bool) (enough : (n : ℕ) → memalign n ≡ true) where
    access_mem-Accessed :
        (type vaddr : ℕ) (s : Sim calls)
        → IsSound calls s
        → pgdir_index vaddr < 4096
        → Returns (Accessed s) (access_mem calls policy true type vaddr s)
    unfolding access_mem
    access_mem-Accessed type vaddr s v low =
        Returns-bind (Located calls vaddr s) (Accessed s)
          (find_physpage calls policy true vaddr type s) _
          (find_physpage-Located calls h policy vaddr type s law v low)
          (λ r found.
            written-Accessed (is_write type) _ vaddr s r
              (le_bytes 4 ((le_value (load r.1.store.physmem 4 r.0) + 1) % 2 ^ 32)) found)

    Replayed-later :
        (n errors errors' : ℕ) (s s' : Sim calls) (r : ℕ × Sim calls)
        → Accessed s (true, s')
        → errors' ≤ errors + 1
        → Replayed n errors' s' r
        → Replayed (n + 1) errors s r
    Replayed-later n errors errors' s s' r one more rest = record {
      sound = rest.sound;
      size = rest.size ∙ one.size;
      refs = omega (arith, rest.refs, one.refs);
      counted = omega (arith, rest.counted, one.counted);
      reported = omega (arith, rest.reported);
    }

    -- The replay without a bound on the counters.
    replay_trace_lem :
        (lines : List (Option (ℕ × ℕ))) (s : Sim calls) (errors : ℕ)
        → InDirectory lines
        → IsSound calls s
        → Returns
            (Replayed (accesses lines) errors s)
            (replay_trace calls policy memalign lines s errors)
    unfolding replay_trace
    replay_trace_lem [] s errors low v = record {
      sound = v;
      size = refl;
      refs = omega arith;
      counted = omega arith;
      reported = omega arith;
    }
    replay_trace_lem (none ∷ lines) s errors low v = replay_trace_lem lines s errors low v
    replay_trace_lem (some (type, vaddr) ∷ lines) s errors (here, low) v = rw (enough s.ref_count) (
        Returns-bind (Accessed s) (Replayed (accesses lines + 1) errors s)
          (access_mem calls policy true type vaddr s) _ (access_mem-Accessed type vaddr s v here)
          λ done one.
            Returns-map (Replayed (accesses lines) (if done.0 then errors + 1 else errors) done.1)
              (Replayed (accesses lines + 1) errors s)
              (replay_trace calls policy memalign lines done.1
                (if done.0 then errors + 1 else errors))
              (replay_trace_lem lines done.1 (if done.0 then errors + 1 else errors) low one.sound)
              (λ r rest.
                Replayed-later (accesses lines) errors (if done.0 then errors + 1 else errors) s
                  done.1 r
                  (record {
                    sound = one.sound;
                    size = one.size;
                    refs = one.refs;
                    counted = one.counted;
                  })
                  (ground arith) rest))

    -- Over a regular swap file, with a replacement algorithm that keeps its contract and with memory
    -- for the page tables, a trace of addresses whose directory index is below 4096, with so few
    -- accesses that the counters stay below 2^31, is replayed to its end from every sound state, which
    -- leaves a sound state. Each access counts one reference, and one hit or one miss, and prints one
    -- error line at most; and the references, and the hits and misses, are below 2^31 in the end.
    pub replay_trace-Replayed :
        (lines : List (Option (ℕ × ℕ))) (s : Sim calls) (errors : ℕ)
        → InDirectory lines
        → Fits (accesses lines) s
        → IsSound calls s
        → Returns
            (λ (r : ℕ × Sim calls). Replayed (accesses lines) errors s r × Bounded r.1)
            (replay_trace calls policy memalign lines s errors)
    replay_trace-Replayed lines s errors low few v =
        Returns-map (Replayed (accesses lines) errors s)
          (λ (r : ℕ × Sim calls). Replayed (accesses lines) errors s r × Bounded r.1)
          (replay_trace calls policy memalign lines s errors)
          (replay_trace_lem lines s errors low v)
          (λ r done. (done, (omega (arith, few.0, done.refs), omega (arith, few.1, done.counted))))
