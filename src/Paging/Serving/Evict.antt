-- ===== src/Paging/Serving/Evict.antt =====
-- What `allocate_frame` does to the mapping: the victim goes out, and a free frame is claimed.
use cscc.Prelude.{ℕ, ◌+◌, ◌≡◌, ◌<◌, refl, ap, ◌∙◌, arith, ◌==ℤ◌, ℤ, if◌then◌else◌, update}
use cscc.Prelude.{Bool, true, false}
use cscc.Swap.Bitmap.{ok, ◌>>=◌, Returns, Returns-bind}
use cscc.Swap.Transfer.{FileCalls, invalid_swap, swap_pageout}
use cscc.Swap.RoundTrip.{IsFile}
use cscc.Swap.Kept.{IsOffset, Kept, swap_pageout-Kept}
use cscc.Paging.State.{
  PgtblEntry, Pointer, Frame, Sim, fetch, adjust, has_flag, lower, raise, pg_valid, pg_dirty,
  pg_onswap,
}
use cscc.Paging.Lookup.{write_victim, expel}
use cscc.Paging.Serving.Mapped.{Mapped, Written, taken, vacate}
use cscc.Paging.Serving.Sound.{IsSound, adjust-Written}
use cscc.Paging.Serving.Change.{
  lower-invalid, Written-refl, Written-trans, Same, CanSwap, adjust-Same, adjust-CanSwap, vacant,
}

module _ (calls : FileCalls) where
  -- The entry of the victim may have a new offset; nothing else of the mapping has changed.
  record Swapped (s : Sim calls) (q : Pointer) (s' : Sim calls) : Type 0 where
    same : Same calls s s'
    swap : CanSwap calls s'
    entry : PgtblEntry
    written : Written (λ p. fetch calls p s) (λ p. fetch calls p s') q entry
    offset : IsOffset entry.swap_off

  module _ (h : IsFile calls) (s : Sim calls) (swap : CanSwap calls s) (q : Pointer)
      (entry : PgtblEntry) (found : fetch calls q s ≡ ok entry)
      (off : IsOffset entry.swap_off) where
    -- The offset is noted only if the page was written.
    noted :
        (failed : Bool) (s' : Sim calls) (o : ℤ)
        → IsOffset o
        → Same calls s s'
        → CanSwap calls s'
        → Written (λ p. fetch calls p s) (λ p. fetch calls p s') q entry
        → Swapped s q (
            if failed
            then s'
            else adjust calls q (λ e. record (raise pg_onswap e) { swap_off = o }) s')
    noted true s' o new same room w = record {
      same = same;
      swap = room;
      entry = entry;
      written = w;
      offset = off;
    }
    noted false s' o new same room w =
        let mark = λ (e : PgtblEntry). record (raise pg_onswap e) { swap_off = o } in
        record {
          same = adjust-Same calls q mark s s' same;
          swap = adjust-CanSwap calls q mark s' room;
          entry = mark entry;
          written = Written-trans w (adjust-Written calls q mark s' entry w.here);
          offset = new;
        }

    write_victim-Swapped : (f : ℕ) → Returns (Swapped s q) (write_victim calls q entry f s)
    unfolding write_victim
    write_victim-Swapped f =
        Returns-bind (Kept calls s.store) (Swapped s q)
          (swap_pageout calls f entry.swap_off s.store) _
          (swap_pageout-Kept calls h f entry.swap_off s.store off swap.bitmap swap.slots)
          λ out kept.
            noted (out.1 ==ℤ invalid_swap)
              (record s { store = out.0; evict_dirty_count = s.evict_dirty_count + 1 }) out.1 kept.2
              (record {
                size = refl;
                coremap = refl;
                index = refl;
                counted = record { hits = refl; misses = refl; refs = refl };
              })
              (record { bitmap = kept.0; slots = omega (arith, kept.1, swap.slots) })
              (Written-refl found)

    swap_or_drop-Swapped :
        (dirty : Bool) (f : ℕ)
        → Returns (Swapped s q) (
            if dirty
            then write_victim calls q entry f s
            else ok (record s { evict_clean_count = s.evict_clean_count + 1 }))
    swap_or_drop-Swapped true f = write_victim-Swapped f
    swap_or_drop-Swapped false f = record {
      same = record {
        size = refl;
        coremap = refl;
        index = refl;
        counted = record { hits = refl; misses = refl; refs = refl };
      };
      swap = record { bitmap = swap.bitmap; slots = swap.slots };
      entry = entry;
      written = Written-refl found;
      offset = off;
    }

  -- After the page in frame `f` went out, the mapping is one in which the frame is free.
  pub record Expelled (s : Sim calls) (f : ℕ) (s' : Sim calls) : Type 0 where
    pub same : Same calls s s'
    pub swap : CanSwap calls s'
    pub mapped : Mapped s.memsize (λ q. fetch calls q s') (update s.coremap f vacant)
    pub others :
        (p : Pointer) (e : PgtblEntry)
        → fetch calls p s ≡ ok e
        → has_flag pg_valid e ≡ false
        → fetch calls p s' ≡ ok e

  expel_lem :
      (s : Sim calls) (f : ℕ) (q : Pointer) (e : PgtblEntry)
      → s.coremap f ≡ taken q
      → fetch calls q s ≡ ok e
      → expel calls f s ≡ (
          (if has_flag pg_dirty e
            then write_victim calls q e f s
            else ok (record s { evict_clean_count = s.evict_clean_count + 1 }))
          >>= λ s'. ok (adjust calls q (lower pg_valid) s'))
  unfolding expel
  expel_lem s f q e stood found = ground (arith, ap (λ (c : Frame). c.pte) stood, found)

  -- The valid bit of the victim goes down last.
  lowered-Expelled :
      (s s' : Sim calls) (f : ℕ) (q : Pointer) (e : PgtblEntry)
      → IsSound calls s
      → f < s.memsize
      → s.coremap f ≡ taken q
      → fetch calls q s ≡ ok e
      → has_flag pg_valid e ≡ true
      → Swapped s q s'
      → Expelled s f (adjust calls q (lower pg_valid) s')
  lowered-Expelled s s' f q e v lt stood found valid h =
      let w =
        Written-trans h.written
          (adjust-Written calls q (lower pg_valid) s' h.entry h.written.here) in
      record {
        same = adjust-Same calls q (lower pg_valid) s s' h.same;
        swap = adjust-CanSwap calls q (lower pg_valid) s' h.swap;
        mapped =
            vacate v.mapped f q (lower pg_valid h.entry) w h.offset (λ g apart. ground arith) lt
              stood (ground arith) (lower-invalid h.entry);
        others = λ p x was invalid.
            w.there p (λ same. cc (ap (λ (p : Pointer). fetch calls p s) same)) ∙ was;
      }

  pub expel-Expelled :
      (h : IsFile calls) (s : Sim calls) (f : ℕ)
      → IsSound calls s
      → f < s.memsize
      → (s.coremap f).in_use ≡ true
      → Returns (Expelled s f) (expel calls f s)
  expel-Expelled h s f v lt used =
      let (q, e, stood, found, valid, named) = v.mapped.held f lt used in
      let swap : CanSwap calls s = record { bitmap = v.bitmap; slots = v.slots } in
      rw (expel_lem s f q e stood found) (
        Returns-bind (Swapped s q) (Expelled s f)
          (if has_flag pg_dirty e
            then write_victim calls q e f s
            else ok (record s { evict_clean_count = s.evict_clean_count + 1 }))
          (λ s'. ok (adjust calls q (lower pg_valid) s'))
          (swap_or_drop-Swapped h s swap q e found (v.mapped.offsets q e found)
            (has_flag pg_dirty e) f)
          (λ s' kept. lowered-Expelled s s' f q e v lt stood found valid kept))
