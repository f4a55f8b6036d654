-- ===== src/Paging/Fifo/Place.antt =====
-- What a reference under FIFO does to the coremap and the pointer, whatever the entries and the swap.
use cscc.Prelude.{
  ℕ, ℤ, ◌+◌, ◌*◌, ◌%◌, ◌^◌, ◌≡◌, refl, sym, ap, ap₂, ◌∙◌, arith, leb, ltb, update, if◌then◌else◌,
  ◌==ℤ◌,
}
use cscc.Prelude.{Bool, true, false, Option, none, some}
use cscc.Swap.Bitmap.{Run, ok, abort, assert, ◌>>=◌}
use cscc.Swap.Transfer.{FileCalls, invalid_swap, swap_pageout}
use cscc.Paging.State.{
  PgtblEntry, Pointer, Frame, Sim, fetch, adjust, has_flag, lower, raise, pg_valid, pg_dirty,
  pg_onswap, ptrs_per_pgdir,
}
use cscc.Paging.Lookup.{
  find_free, write_victim, expel, claim, allocate_frame, load_page, ensure_table, hit_or_load,
  refer, find_physpage, init_second_level, pgdir_index, pgtbl_index, touched, init_frame,
}
use cscc.Paging.Policies.{fifo, fifo_evict, advance}
use cscc.Paging.Reload.{mapped, load_page-fresh}
use cscc.Paging.Serving.Mapped.{taken}
use cscc.Paging.Serving.Sound.{adjust_rest}
use cscc.Paging.Serving.Serve.{is_valid, resident}

-- What holds of the result, if there is one.
abbrev pub IfOk : {A : Type 0} → (A → Type 0) → Run A → Type 0
IfOk P (ok a) = P a
IfOk P abort = Unit

pub IfOk-bind :
    {A B : Type 0} (P : A → Type 0) (Q : B → Type 0) (m : Run A) (f : A → Run B)
    → IfOk P m
    → ((a : A) → P a → IfOk Q (f a))
    → IfOk Q (m >>= f)
IfOk-bind P Q (ok a) f h k = k a h
IfOk-bind P Q abort f h k = tt

-- A call of which nothing is known.
pub IfOk-after :
    {A B : Type 0} (Q : B → Type 0) (m : Run A) (f : A → Run B)
    → ((a : A) → IfOk Q (f a))
    → IfOk Q (m >>= f)
IfOk-after Q (ok a) f k = k a
IfOk-after Q abort f k = tt

pub IfOk-assert :
    {A : Type 0} (P : A → Type 0) (b : Bool) (m : Run A) → IfOk P m → IfOk P (assert b m)
IfOk-assert P true m h = h
IfOk-assert P false m h = tt

pub IfOk-map :
    {A : Type 0} (P Q : A → Type 0) (m : Run A) → IfOk P m → ((a : A) → P a → Q a) → IfOk Q m
IfOk-map P Q (ok a) h k = k a h
IfOk-map P Q abort h k = tt

-- The size of the memory, the pointer and the coremap.
pub record Place : Type 0 where
  pub size : ℕ
  pub index : ℕ
  pub frames : ℕ → Frame

-- A frame for the page at `p`: the lowest free one, or else the one at the pointer, which moves on.
abbrev pub admit : Pointer → Place → Place
admit p x = elim (find_free x.size 0 x.frames) [
  | some f ↦ record x { frames = update x.frames f (taken p) }
  | none ↦ record {
    size = x.size;
    index = if leb x.size (x.index + 1) then 0 else x.index + 1;
    frames = update x.frames x.index (taken p);
  }
]

-- The place after a reference to the page at `p`.
abbrev pub referenced : (hit : Bool) → Pointer → Place → Place
referenced hit p x = if hit then x else admit p x

module _ (calls : FileCalls) where
  abbrev pub place : Sim calls → Place
  place s = record { size = s.memsize; index = s.index; frames = s.coremap }

  abbrev Stays : Sim calls → Sim calls → Type 0
  Stays s s' = place s' ≡ place s

  adjust-Stays :
      (p : Pointer) (g : PgtblEntry → PgtblEntry) (s : Sim calls) → Stays s (adjust calls p g s)
  adjust-Stays p g s = ap (λ (s : Sim calls). place s) (adjust_rest calls p g s).1

  write_victim-Stays :
      (q : Pointer) (e : PgtblEntry) (f : ℕ) (s : Sim calls)
      → IfOk (Stays s) (write_victim calls q e f s)
  unfolding write_victim
  write_victim-Stays q e f s =
      IfOk-after (Stays s) (swap_pageout calls f e.swap_off s.store) _ λ out.
        noted (out.1 ==ℤ invalid_swap) out.1
          (record s { store = out.0; evict_dirty_count = s.evict_dirty_count + 1 }) refl
    where
      noted :
          (failed : Bool) (o : ℤ) (s' : Sim calls)
          → Stays s s'
          → Stays s (
              if failed
              then s'
              else adjust calls q (λ e. record (raise pg_onswap e) { swap_off = o }) s')
      noted true o s' h = h
      noted false o s' h = adjust-Stays q (λ e. record (raise pg_onswap e) { swap_off = o }) s' ∙ h

  expel-Stays : (f : ℕ) (s : Sim calls) → IfOk (Stays s) (expel calls f s)
  unfolding expel
  expel-Stays f s = go (s.coremap f).pte
    where
      swapped :
          (dirty : Bool) (q : Pointer) (e : PgtblEntry)
          → IfOk (Stays s) (
              if dirty
              then write_victim calls q e f s
              else ok (record s { evict_clean_count = s.evict_clean_count + 1 }))
      swapped true q e = write_victim-Stays q e f s
      swapped false q e = refl

      go :
          (o : Option Pointer)
          → IfOk (Stays s) (elim o [
            | none ↦ abort
            | some bye ↦ fetch calls bye s >>= λ entry.
                (if has_flag pg_dirty entry
                  then write_victim calls bye entry f s
                  else ok (record s { evict_clean_count = s.evict_clean_count + 1 }))
                >>= λ s'. ok (adjust calls bye (lower pg_valid) s')
          ])
      go none = tt
      go (some q) = IfOk-after (Stays s) (fetch calls q s) _ λ e.
          IfOk-bind (Stays s) (Stays s)
            (if has_flag pg_dirty e
              then write_victim calls q e f s
              else ok (record s { evict_clean_count = s.evict_clean_count + 1 }))
            (λ s'. ok (adjust calls q (lower pg_valid) s')) (swapped (has_flag pg_dirty e) q e)
            (λ s' h. adjust-Stays q (lower pg_valid) s' ∙ h)

  allocate_frame-admit :
      (p : Pointer) (s : Sim calls)
      → IfOk
          (λ (r : ℕ × Sim calls). place r.1 ≡ admit p (place s))
          (allocate_frame calls (fifo calls) p s)
  unfolding allocate_frame fifo_evict
  allocate_frame-admit p s = go (find_free s.memsize 0 s.coremap) refl
    where
      go :
          (o : Option ℕ)
          → find_free s.memsize 0 s.coremap ≡ o
          → IfOk
              (λ (r : ℕ × Sim calls). place r.1 ≡ (elim o as (λ _. Place) [
                | some f ↦ record (place s) { frames = update s.coremap f (taken p) }
                | none ↦ record {
                  size = s.memsize;
                  index = if leb s.memsize (s.index + 1) then 0 else s.index + 1;
                  frames = update s.coremap s.index (taken p);
                }
              ]))
              (elim o [
                | some frame ↦ ok (frame, claim calls p frame s)
                | none ↦ expel calls s.index (advance calls s) >>= λ s'.
                    ok (s.index, claim calls p s.index s')
              ])
      go (some f) e = refl
      go none e =
          IfOk-bind (Stays (advance calls s)) _ (expel calls s.index (advance calls s)) _
            (expel-Stays s.index (advance calls s))
            (λ s' h. ap (λ (x : Place). record x { frames = update x.frames s.index (taken p) }) h)

  load_page-admit :
      (p : Pointer) (vaddr : ℕ) (s : Sim calls)
      → IfOk
          (λ (s' : Sim calls). place s' ≡ admit p (place s))
          (load_page calls (fifo calls) p vaddr s)
  load_page-admit p vaddr s = rw (load_page-fresh calls (fifo calls) p vaddr s) (
      IfOk-bind (λ (r : ℕ × Sim calls). place r.1 ≡ admit p (place s))
        (λ (s' : Sim calls). place s' ≡ admit p (place s))
        (allocate_frame calls (fifo calls) p (record s { miss_count = s.miss_count + 1 })) _
        (allocate_frame-admit p (record s { miss_count = s.miss_count + 1 }))
        (λ r h.
          IfOk-after (λ (s' : Sim calls). place s' ≡ admit p (place s))
            (fetch calls p (mapped calls p r.0 r.1))
            (λ _. ok (init_frame calls r.0 vaddr (mapped calls p r.0 r.1)))
            (λ _. adjust-Stays p (λ e. record e { frame = r.0 * 2 ^ 12 % 2 ^ 32 }) r.1 ∙ h)))

  -- The page table that is made has no valid entry.
  ensure_table-resident :
      (d t : ℕ) (s : Sim calls)
      → IfOk
          (λ (s' : Sim calls).
            (place s' ≡ place s) × (resident calls (d, t) s' ≡ resident calls (d, t) s))
          (ensure_table calls true d s)
  ensure_table-resident d t s = go (s.pgdir d) refl
    where
      go :
          (o : Option (ℕ → PgtblEntry))
          → s.pgdir d ≡ o
          → IfOk
              (λ (s' : Sim calls).
                (place s' ≡ place s) × (resident calls (d, t) s' ≡ resident calls (d, t) s))
              (assert (ltb d ptrs_per_pgdir) (elim o [
                | some _ ↦ ok s
                | none ↦
                    assert true
                      (ok (record s { pgdir = update s.pgdir d (some init_second_level) }))
              ]))
      go (some table) e =
          IfOk-assert
            (λ (s' : Sim calls).
              (place s' ≡ place s) × (resident calls (d, t) s' ≡ resident calls (d, t) s))
            (ltb d ptrs_per_pgdir) (ok s) (refl, refl)
      go none e =
          let s' = record s { pgdir = update s.pgdir d (some init_second_level) } in
          let fresh : PgtblEntry = record { frame = 0; swap_off = invalid_swap } in
          let there : fetch calls (d, t) s' ≡ ok fresh = ground arith in
          let absent : fetch calls (d, t) s ≡ abort = ground arith in
          IfOk-assert
            (λ (s' : Sim calls).
              (place s' ≡ place s) × (resident calls (d, t) s' ≡ resident calls (d, t) s))
            (ltb d ptrs_per_pgdir)
            (ok (record s { pgdir = update s.pgdir d (some init_second_level) }))
            (refl, ap is_valid there ∙ sym (ap is_valid absent))

  hit_or_load-referenced :
      (p : Pointer) (vaddr : ℕ) (s : Sim calls)
      → IfOk
          (λ (s' : Sim calls). place s' ≡ referenced (resident calls p s) p (place s))
          (hit_or_load calls (fifo calls) p vaddr s)
  hit_or_load-referenced p vaddr s = go (fetch calls p s)
    where
      chosen :
          (hit : Bool)
          → IfOk
              (λ (s' : Sim calls). place s' ≡ referenced hit p (place s))
              (if hit
                then ok (record s { hit_count = s.hit_count + 1 })
                else load_page calls (fifo calls) p vaddr s)
      chosen true = refl
      chosen false = load_page-admit p vaddr s

      go :
          (r : Run PgtblEntry)
          → IfOk
              (λ (s' : Sim calls). place s' ≡ referenced (is_valid r) p (place s))
              (r >>= λ entry.
                if has_flag pg_valid entry
                then ok (record s { hit_count = s.hit_count + 1 })
                else load_page calls (fifo calls) p vaddr s)
      go abort = tt
      go (ok e) = chosen (has_flag pg_valid e)

  refer-Stays :
      (p : Pointer) (type : ℕ) (s : Sim calls)
      → IfOk (λ (r : ℕ × Sim calls). Stays s r.1) (refer calls (fifo calls) p type s)
  refer-Stays p type s =
      IfOk-after (λ (r : ℕ × Sim calls). Stays s r.1)
        (fetch calls p (adjust calls p (touched type) s)) _ (λ e. adjust-Stays p (touched type) s)

  -- A reference under FIFO that returns leaves the coremap and the pointer alone where the page is in
  -- memory, and else admits it.
  pub find_physpage-referenced :
      (vaddr type : ℕ) (s : Sim calls)
      → let p : Pointer = (pgdir_index vaddr, pgtbl_index vaddr) in
        IfOk
          (λ (r : ℕ × Sim calls). place r.1 ≡ referenced (resident calls p s) p (place s))
          (find_physpage calls (fifo calls) true vaddr type s)
  unfolding find_physpage
  find_physpage-referenced vaddr type s =
      let p : Pointer = (pgdir_index vaddr, pgtbl_index vaddr) in
      let Q : ℕ × Sim calls → Type 0 =
        λ r. place r.1 ≡ referenced (resident calls p s) p (place s) in
      IfOk-bind
        (λ (s' : Sim calls). (place s' ≡ place s) × (resident calls p s' ≡ resident calls p s)) Q
        (ensure_table calls true (pgdir_index vaddr) s) _
        (ensure_table-resident (pgdir_index vaddr) (pgtbl_index vaddr) s)
        λ s₁ made.
          let counted = record s₁ { ref_count = s₁.ref_count + 1 } in
          IfOk-bind (λ (s' : Sim calls). place s' ≡ referenced (resident calls p s₁) p (place s₁)) Q
            (hit_or_load calls (fifo calls) p vaddr counted) _
            (hit_or_load-referenced p vaddr counted)
            λ s₂ step.
              IfOk-map (λ (r : ℕ × Sim calls). Stays s₂ r.1) Q (refer calls (fifo calls) p type s₂)
                (refer-Stays p type s₂)
                (λ r same. same ∙ step ∙ ap₂ (λ b (x : Place). referenced b p x) made.1 made.0)
