-- ===== src/Paging/Serving/Locate.antt =====
-- `find_physpage` as a whole: every reference is served, whatever the replacement algorithm.
use cscc.Prelude.{
  ℕ, ◌+◌, ◌*◌, ◌≡◌, ◌<◌, inl, inr, refl, sym, ap, ap₂, ◌∙◌, arith, update, if◌then◌else◌, ◌⊎◌,
}
use cscc.Prelude.{Bool, true, false, Option, none, some}
use native.Mathlib.Decide.{ℕ_discrete}
use cscc.Swap.Bitmap.{ok, abort, Returns, Returns-bind, Returns-map}
use cscc.Swap.Transfer.{FileCalls, simpagesize, invalid_swap}
use cscc.Swap.RoundTrip.{IsFile}
use cscc.Paging.State.{PgtblEntry, Pointer, Sim, fetch, has_flag, pg_valid, Policy}
use cscc.Paging.Lookup.{
  init_second_level, pgdir_index, pgtbl_index, ensure_table, hit_or_load, refer, find_physpage,
}
use cscc.Paging.Serving.Mapped.{Mapped-extend, taken}
use cscc.Paging.Serving.Sound.{IsSound, Counted, IsPolicy}
use cscc.Paging.Serving.Miss.{Served}
use cscc.Paging.Serving.Serve.{is_valid, resident, Tallied, hit_or_load-Served}
use cscc.Paging.Serving.Answer.{Answered, refer-Answered}

module _ (calls : FileCalls) where
  -- The first entry of a table that is made now is read as a fresh one, and no other entry changes.
  made_table :
      (d : ℕ) (s : Sim calls) (q : Pointer)
      → s.pgdir d ≡ none
      → let s' = record s { pgdir = update s.pgdir d (some init_second_level) } in
        (fetch calls q s' ≡ fetch calls q s)
        ⊎ ((fetch calls q s ≡ abort)
            × (fetch calls q s' ≡ ok (record { frame = 0; swap_off = invalid_swap })))
  made_table d s (d', t) missing = elim (ℕ_discrete d' d) [
    | yes same ↦ inr (ground (arith, ap s.pgdir same), ground arith)
    | no other ↦ inl (ground arith)
  ]

  -- The page table of the pointer is there afterwards.
  record Tabled (p : Pointer) (s s' : Sim calls) : Type 0 where
    sound : IsSound calls s'
    entry : PgtblEntry
    there : fetch calls p s' ≡ ok entry
    before : resident calls p s ≡ has_flag pg_valid entry
    size : s'.memsize ≡ s.memsize
    counted : Counted calls s s'

  fresh-invalid : has_flag pg_valid (record { frame = 0; swap_off = invalid_swap }) ≡ false
  fresh-invalid = refl

  ensure_table-Tabled :
      (d t : ℕ) (s : Sim calls)
      → d < 4096
      → IsSound calls s
      → Returns (Tabled (d, t) s) (ensure_table calls true d s)
  ensure_table-Tabled d t s lt v = go (s.pgdir d) refl
    where
      go :
          (o : Option (ℕ → PgtblEntry))
          → s.pgdir d ≡ o
          → Returns (Tabled (d, t) s) (ensure_table calls true d s)
      go none missing =
          let fresh : PgtblEntry = record { frame = 0; swap_off = invalid_swap } in
          let s' = record s { pgdir = update s.pgdir d (some init_second_level) } in
          let made : ensure_table calls true d s ≡ ok s' = ground arith in
          let there : fetch calls (d, t) s' ≡ ok fresh = ground arith in
          let absent : fetch calls (d, t) s ≡ abort = ground arith in
          rw made (record {
            sound = record {
              size = v.size;
              mapped =
                  Mapped-extend v.mapped fresh fresh-invalid refl (λ q. made_table d s q missing);
              ready = v.ready;
              bitmap = v.bitmap;
              slots = v.slots;
            };
            entry = fresh;
            there = there;
            before = ap is_valid absent;
            size = refl;
            counted = record { hits = refl; misses = refl; refs = refl };
          })
      go (some table) found =
          let made : ensure_table calls true d s ≡ ok s = ground arith in
          let there : fetch calls (d, t) s ≡ ok (table t) = ground arith in
          rw made (record {
            sound = v;
            entry = table t;
            there = there;
            before = ap is_valid there;
            size = refl;
            counted = record { hits = refl; misses = refl; refs = refl };
          })

  -- What one reference to `vaddr` leaves and returns.
  pub record Located (vaddr : ℕ) (s : Sim calls) (r : ℕ × Sim calls) : Type 0 where
    pub sound : IsSound calls r.1
    pub size : r.1.memsize ≡ s.memsize
    pub frame : ℕ
    pub inside : frame < s.memsize
    pub stands : r.1.coremap frame ≡ taken (pgdir_index vaddr, pgtbl_index vaddr)
    pub address : r.0 ≡ frame * simpagesize
    pub refs : r.1.ref_count ≡ s.ref_count + 1
    pub hits :
        r.1.hit_count
        ≡ s.hit_count + (if resident calls (pgdir_index vaddr, pgtbl_index vaddr) s then 1 else 0)
    pub misses :
        r.1.miss_count
        ≡ s.miss_count + (if resident calls (pgdir_index vaddr, pgtbl_index vaddr) s then 0 else 1)

  Located-compose :
      (vaddr : ℕ) (s s₁ s₂ : Sim calls) (r : ℕ × Sim calls) (hit : Bool)
      → resident calls (pgdir_index vaddr, pgtbl_index vaddr) s ≡ hit
      → s₁.memsize ≡ s.memsize
      → Counted calls s s₁
      → Tallied calls hit (record s₁ { ref_count = s₁.ref_count + 1 }) s₂
      → Answered calls (pgdir_index vaddr, pgtbl_index vaddr) s₂ r
      → Located vaddr s r
  Located-compose vaddr s s₁ s₂ r hit before size made tally found = record {
    sound = found.sound;
    size = found.size ∙ tally.size ∙ size;
    frame = found.frame;
    inside = omega (arith, found.inside, tally.size, size);
    stands = found.stands;
    address = found.address;
    refs = omega (arith, found.counted.refs, tally.refs, made.refs);
    hits =
        found.counted.hits
        ∙ tally.hits
        ∙ ap₂ (λ (n : ℕ) (b : Bool). n + (if b then 1 else 0)) made.hits (sym before);
    misses =
        found.counted.misses
        ∙ tally.misses
        ∙ ap₂ (λ (n : ℕ) (b : Bool). n + (if b then 0 else 1)) made.misses (sym before);
  }

  -- With any replacement algorithm that keeps its contract, over a regular swap file and with memory
  -- for the page tables, `find_physpage` returns from every sound state, for every address whose
  -- directory index is below 4096. The address that it returns is sixteen times the number of a frame
  -- of the memory, and this frame holds the page. The call counts one reference, and one hit if the
  -- entry of the page was valid, else one miss. The state is sound again.
  pub find_physpage-Located :
      (h : IsFile calls) (policy : Policy calls) (vaddr type : ℕ) (s : Sim calls)
      → IsPolicy calls policy
      → IsSound calls s
      → pgdir_index vaddr < 4096
      → Returns (Located vaddr s) (find_physpage calls policy true vaddr type s)
  unfolding find_physpage
  find_physpage-Located h policy vaddr type s law v low =
      let p : Pointer = (pgdir_index vaddr, pgtbl_index vaddr) in
      Returns-bind (Tabled p s) (Located vaddr s) (ensure_table calls true (pgdir_index vaddr) s) _
        (ensure_table-Tabled (pgdir_index vaddr) (pgtbl_index vaddr) s low v)
        λ s₁ made.
          let counted = record s₁ { ref_count = s₁.ref_count + 1 } in
          let sound : IsSound calls counted = record {
            size = made.sound.size;
            mapped = made.sound.mapped;
            ready = made.sound.ready;
            bitmap = made.sound.bitmap;
            slots = made.sound.slots;
          } in
          Returns-bind
            (λ (s' : Sim calls).
              Served calls p type s' × Tallied calls (has_flag pg_valid made.entry) counted s')
            (Located vaddr s) (hit_or_load calls policy p vaddr counted) _
            (hit_or_load-Served calls h policy p vaddr type counted made.entry law sound made.there)
            λ s₂ served.
              Returns-map (Answered calls p s₂) (Located vaddr s) (refer calls policy p type s₂)
                (refer-Answered calls policy p type s₂ law served.0)
                (λ r found.
                  Located-compose vaddr s s₁ s₂ r (has_flag pg_valid made.entry) made.before
                    made.size made.counted served.1 found)
