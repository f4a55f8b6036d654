-- ===== src/Paging/Fifo/Refine.antt =====
-- The simulator with fifo.c implements a coremap and a pointer that know no page table and no swap.
use cscc.Prelude.{
  ℕ, ◌+◌, ◌%◌, ◌^◌, ◌≡◌, ◌<◌, refl, ap, ◌∙◌, arith, if◌then◌else◌, List, [], ◌∷◌, Option, none,
  some, Bool, true, false, load, store, le_bytes, le_value,
}
use cscc.Swap.Bitmap.{Run, ok, abort, Returns, Returns-bind, Returns-map}
use cscc.Swap.Transfer.{FileCalls}
use cscc.Swap.RoundTrip.{IsFile}
use cscc.Paging.State.{Pointer, Sim}
use cscc.Paging.Policies.{fifo}
use cscc.Paging.Lookup.{pgdir_index, pgtbl_index, is_write, find_physpage, access_mem, replay_trace}
use cscc.Paging.Serving.Sound.{IsSound}
use cscc.Paging.Serving.Serve.{resident}
use cscc.Paging.Serving.Contracts.{fifo-IsPolicy}
use cscc.Paging.Serving.Locate.{Located, find_physpage-Located}
use cscc.Paging.Simulator.Replay.{InDirectory, written-Accessed}
use cscc.Paging.Fifo.Place.{IfOk, place, referenced, find_physpage-referenced}
use cscc.Paging.Fifo.Pages.{holds, serve, resident-holds}

-- A call that returns, of which more is known if it does.
Returns-IfOk :
    {A : Type 0} (P Q : A → Type 0) (m : Run A)
    → Returns P m
    → IfOk Q m
    → Returns (λ a. P a × Q a) m
Returns-IfOk P Q (ok a) h k = (h, k)
Returns-IfOk P Q abort h k = h

module _ (calls : FileCalls) where
  abbrev page : ℕ → Pointer
  page vaddr = (pgdir_index vaddr, pgtbl_index vaddr)

  -- One access, as the coremap and the pointer see it.
  record Stepped (vaddr : ℕ) (s : Sim calls) (r : Bool × Sim calls) : Type 0 where
    sound : IsSound calls r.1
    hits : r.1.hit_count ≡ s.hit_count + (if holds s.memsize (page vaddr) s.coremap then 1 else 0)
    after :
        place calls r.1
        ≡ referenced (holds s.memsize (page vaddr) s.coremap) (page vaddr) (place calls s)

  -- What the replay counts and leaves is what the coremap and the pointer count and leave.
  pub record Refined (lines : List (Option (ℕ × ℕ))) (s : Sim calls) (r : ℕ × Sim calls)
      : Type 0 where
    pub hits : r.1.hit_count ≡ s.hit_count + (serve lines (place calls s)).0
    pub after : place calls r.1 ≡ (serve lines (place calls s)).1

  -- The state with the new version at the address, if it is a write.
  abbrev written : (write : Bool) → List ℕ → ℕ × Sim calls → Sim calls
  written write version r =
      if write
      then record (r.1) {
        store = record (r.1.store) { physmem = store r.1.store.physmem r.0 version };
      }
      else r.1

  -- A write changes neither the counters nor the place.
  written-Stepped :
      (write error : Bool) (vaddr : ℕ) (s : Sim calls) (r : ℕ × Sim calls) (version : List ℕ)
      → IsSound calls s
      → Located calls vaddr s r
      → place calls r.1 ≡ referenced (resident calls (page vaddr) s) (page vaddr) (place calls s)
      → Stepped vaddr s (error, written write version r)
  written-Stepped write error vaddr s r version v found at = record {
    sound = (written-Accessed calls write error vaddr s r version found).sound;
    hits =
        unwritten-hits write
        ∙ found.hits
        ∙ ap (λ (b : Bool). s.hit_count + (if b then 1 else 0))
            (resident-holds calls (page vaddr) s v);
    after =
        unwritten-place write
        ∙ at
        ∙ ap (λ b. referenced b (page vaddr) (place calls s))
            (resident-holds calls (page vaddr) s v);
  }
    where
      unwritten-hits : (b : Bool) → (written b version r).hit_count ≡ r.1.hit_count
      unwritten-hits true = refl
      unwritten-hits false = refl

      unwritten-place : (b : Bool) → place calls (written b version r) ≡ place calls r.1
      unwritten-place true = refl
      unwritten-place false = refl

  module _ (h : IsFile calls) (memalign : ℕ → Bool) (enough : (n : ℕ) → memalign n ≡ true) where
    access_mem-Stepped :
        (type vaddr : ℕ) (s : Sim calls)
        → IsSound calls s
        → pgdir_index vaddr < 4096
        → Returns (Stepped vaddr s) (access_mem calls (fifo calls) true type vaddr s)
    unfolding access_mem
    access_mem-Stepped type vaddr s v low =
        let at : ℕ × Sim calls → Type 0 = λ r.
          place calls r.1
          ≡ referenced (resident calls (page vaddr) s) (page vaddr) (place calls s) in
        Returns-bind (λ r. Located calls vaddr s r × at r) (Stepped vaddr s)
          (find_physpage calls (fifo calls) true vaddr type s) _
          (Returns-IfOk (Located calls vaddr s) at
            (find_physpage calls (fifo calls) true vaddr type s)
            (find_physpage-Located calls h (fifo calls) vaddr type s (fifo-IsPolicy calls) v low)
            (find_physpage-referenced calls vaddr type s))
          (λ r found.
            written-Stepped (is_write type) _ vaddr s r
              (le_bytes 4 ((le_value (load r.1.store.physmem 4 r.0) + 1) % 2 ^ 32)) v found.0
              found.1)

    -- Over a regular swap file and with memory for the page tables, a trace of addresses whose directory index is below 4096 is replayed
    -- with FIFO to its end from every sound state. The hits that the simulator counts on the way, and
    -- the coremap and the pointer that it leaves, are those of `serve`: a page that stands in no
    -- frame takes the lowest free frame, or else the one at the pointer, which moves on by one round
    -- the memory; a page that stands in a frame is a hit and changes nothing.
    pub replay_trace-Refined :
        (lines : List (Option (ℕ × ℕ))) (s : Sim calls) (errors : ℕ)
        → InDirectory lines
        → IsSound calls s
        → Returns (Refined lines s) (replay_trace calls (fifo calls) memalign lines s errors)
    unfolding replay_trace
    replay_trace-Refined [] s errors low v = record { hits = omega arith; after = refl }
    replay_trace-Refined (none ∷ lines) s errors low v =
        Returns-map (Refined lines s) (Refined (none ∷ lines) s)
          (replay_trace calls (fifo calls) memalign lines s errors)
          (replay_trace-Refined lines s errors low v)
          (λ r done. record { hits = done.hits; after = done.after })
    replay_trace-Refined (some (type, vaddr) ∷ lines) s errors (here, low) v =
        rw (enough s.ref_count) (
          Returns-bind (Stepped vaddr s) (Refined (some (type, vaddr) ∷ lines) s)
            (access_mem calls (fifo calls) true type vaddr s) _
            (access_mem-Stepped type vaddr s v here)
            λ done one.
              Returns-map (Refined lines done.1) (Refined (some (type, vaddr) ∷ lines) s)
                (replay_trace calls (fifo calls) memalign lines done.1
                  (if done.0 then errors + 1 else errors))
                (replay_trace-Refined lines done.1 (if done.0 then errors + 1 else errors) low
                  one.sound)
                (λ r rest.
                  let counted = ap (λ x. (serve lines x).0) one.after in
                  record {
                    hits = omega (arith, rest.hits, one.hits, counted);
                    after = rest.after ∙ ap (λ x. (serve lines x).1) one.after;
                  }))
