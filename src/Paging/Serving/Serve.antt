-- ===== src/Paging/Serving/Serve.antt =====
-- The middle part of `find_physpage`, a hit or a miss, with what it counts.
use cscc.Prelude.{ℕ, ◌+◌, ◌*◌, ◌%◌, ◌^◌, ◌≡◌, refl, sym, ap, ◌∙◌, arith, subst, if◌then◌else◌}
use cscc.Prelude.{Bool, true, false}
use cscc.Swap.Bitmap.{Run, ok, abort, ◌>>=◌, Returns, Returns-bind}
use cscc.Swap.Transfer.{FileCalls}
use cscc.Swap.RoundTrip.{IsFile}
use cscc.Paging.State.{PgtblEntry, Pointer, Sim, fetch, adjust, has_flag, pg_valid, Policy}
use cscc.Paging.Lookup.{load_page, allocate_frame, hit_or_load}
use cscc.Paging.Reload.{load_page-fresh, fetch-adjust}
use cscc.Paging.Serving.Sound.{IsSound, IsPolicy}
use cscc.Paging.Serving.Claim.{Claimed, allocate_frame-Claimed}
use cscc.Paging.Serving.Miss.{Served, hit-Served, miss-Served, loaded, loaded-Same}

-- Whether an entry is there and valid.
abbrev pub is_valid : Run PgtblEntry → Bool
is_valid abort = false
is_valid (ok e) = has_flag pg_valid e

module _ (calls : FileCalls) where
  -- Whether the entry at `p` is valid.
  abbrev pub resident : Pointer → Sim calls → Bool
  resident p s = is_valid (fetch calls p s)

  -- The counters after one reference that hits or does not.
  pub record Tallied (hit : Bool) (s s' : Sim calls) : Type 0 where
    pub size : s'.memsize ≡ s.memsize
    pub hits : s'.hit_count ≡ s.hit_count + (if hit then 1 else 0)
    pub misses : s'.miss_count ≡ s.miss_count + (if hit then 0 else 1)
    pub refs : s'.ref_count ≡ s.ref_count

  miss-Tallied :
      (p : Pointer) (vaddr : ℕ) (s : Sim calls) (r : ℕ × Sim calls)
      → Claimed calls (record s { miss_count = s.miss_count + 1 }) p r
      → Tallied false s (loaded calls p vaddr r.0 r.1)
  miss-Tallied p vaddr s (f, s') c =
      let same = loaded-Same calls p vaddr f s' in
      record {
        size = same.size ∙ c.size;
        hits = omega (arith, same.counted.hits, c.counted.hits);
        misses = same.counted.misses ∙ c.counted.misses;
        refs = same.counted.refs ∙ c.counted.refs;
      }

  fetch-ok :
      (p : Pointer) (s : Sim calls) (e : PgtblEntry) (g : PgtblEntry → PgtblEntry)
      (rest : PgtblEntry → Run (Sim calls))
      → fetch calls p s ≡ ok e
      → (fetch calls p (adjust calls p g s) >>= rest) ≡ rest (g e)
  fetch-ok p s e g rest there =
      ap (λ r. r >>= rest) (fetch-adjust calls p g s ∙ ap (λ r. r >>= λ e. ok (g e)) there)

  load_page-Served :
      (h : IsFile calls) (policy : Policy calls) (p : Pointer) (vaddr type : ℕ) (s : Sim calls)
      (e : PgtblEntry)
      → IsPolicy calls policy
      → IsSound calls s
      → fetch calls p s ≡ ok e
      → has_flag pg_valid e ≡ false
      → Returns
          (λ (s' : Sim calls). Served calls p type s' × Tallied false s s')
          (load_page calls policy p vaddr s)
  load_page-Served h policy p vaddr type s e law v there invalid =
      let counted = record s { miss_count = s.miss_count + 1 } in
      let sound : IsSound calls counted = record {
        size = v.size;
        mapped = v.mapped;
        ready = v.ready;
        bitmap = v.bitmap;
        slots = v.slots;
      } in
      rw (load_page-fresh calls policy p vaddr s) (
        Returns-bind (Claimed calls counted p)
          (λ (s' : Sim calls). Served calls p type s' × Tallied false s s')
          (allocate_frame calls policy p counted) _
          (allocate_frame-Claimed calls h policy counted p e law sound there invalid)
          (λ r c.
            subst (Returns (λ (s' : Sim calls). Served calls p type s' × Tallied false s s'))
              (sym (
                fetch-ok p r.1 c.entry (λ e. record e { frame = r.0 * 2 ^ 12 % 2 ^ 32 })
                  (λ _. ok (loaded calls p vaddr r.0 r.1)) c.there))
              (miss-Served calls p type vaddr counted r v.size c, miss-Tallied p vaddr s r c)))

  pub hit_or_load-Served :
      (h : IsFile calls) (policy : Policy calls) (p : Pointer) (vaddr type : ℕ) (s : Sim calls)
      (e : PgtblEntry)
      → IsPolicy calls policy
      → IsSound calls s
      → fetch calls p s ≡ ok e
      → Returns
          (λ (s' : Sim calls). Served calls p type s' × Tallied (has_flag pg_valid e) s s')
          (hit_or_load calls policy p vaddr s)
  hit_or_load-Served h policy p vaddr type s e law v there =
      subst
        (λ r.
          Returns (λ (s' : Sim calls). Served calls p type s' × Tallied (has_flag pg_valid e) s s')
            (r >>= λ e.
              if has_flag pg_valid e
              then ok (record s { hit_count = s.hit_count + 1 })
              else load_page calls policy p vaddr s))
        (sym there) (go (has_flag pg_valid e) refl)
    where
      go :
          (b : Bool)
          → has_flag pg_valid e ≡ b
          → Returns
              (λ (s' : Sim calls). Served calls p type s' × Tallied b s s')
              (if b
                then ok (record s { hit_count = s.hit_count + 1 })
                else load_page calls policy p vaddr s)
      go true valid =
          let sound : IsSound calls (record s { hit_count = s.hit_count + 1 }) = record {
            size = v.size;
            mapped = v.mapped;
            ready = v.ready;
            bitmap = v.bitmap;
            slots = v.slots;
          } in
          (
            hit-Served calls p type (record s { hit_count = s.hit_count + 1 }) e sound there valid,
            record { size = refl; hits = refl; misses = omega arith; refs = refl },
          )
      go false invalid = load_page-Served h policy p vaddr type s e law v there invalid
