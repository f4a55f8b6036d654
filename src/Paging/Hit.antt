-- ===== src/Paging/Hit.antt =====
-- What a hit does: `find_physpage` on a page that is in memory, with fifo.c.
use cscc.Prelude.{
  ℕ, ◌+◌, ◌*◌, ◌%◌, ◌^◌, ◌≡◌, ◌≢◌, ◌<◌, ◌==◌, ◌||◌, ◌&&◌, arith, refl, sym, ap, ◌∙◌, Bool, true,
  Bool-cases, inl, inr, some, bit-bit_or, bit-le, bit-pow, clear_iff,
}
use cscc.Swap.Bitmap.{ok, Returns}
use cscc.Swap.Transfer.{FileCalls, simpagesize}
use cscc.Paging.State.{
  PgtblEntry, Pointer, has_flag, raise, frame_of, pg_valid, pg_dirty, pg_ref, pg_onswap, Sim, fetch,
  adjust,
}
use cscc.Paging.Lookup.{find_physpage, touched, is_write, pgdir_index, pgtbl_index}
use cscc.Paging.Policies.{fifo}
use cscc.Paging.Reload.{frame_of-touched}
use cscc.Paging.Serving.Sound.{adjust-Written, adjust_rest}

has_flag-raise :
    (flag m : ℕ) (e : PgtblEntry) → has_flag m (raise flag e) ≡ ((flag == m) || has_flag m e)
has_flag-raise flag m e = ground (
  arith,
  clear_iff (raise flag e).frame m,
  clear_iff e.frame m,
  bit-bit_or e.frame (2 ^ flag) m,
  bit-pow flag m,
  bit-le e.frame m,
)

has_flag-touched :
    (m type : ℕ) (e : PgtblEntry)
    → has_flag m (touched type e)
      ≡ ((m == pg_valid) || (m == pg_ref) || (is_write type && (m == pg_dirty)) || has_flag m e)
has_flag-touched m type e = elim (Bool-cases (is_write type)) [
  | inl w ↦ rw w (
      ground (
        arith,
        has_flag-raise pg_dirty m (raise pg_ref (raise pg_valid e)),
        has_flag-raise pg_ref m (raise pg_valid e),
        has_flag-raise pg_valid m e,
      ))
  | inr r ↦
      rw r (ground (arith, has_flag-raise pg_ref m (raise pg_valid e), has_flag-raise pg_valid m e))
]

-- The entry of a page after a reference of the given type, where it was `e`.
pub record IsReferenced (type : ℕ) (e now : PgtblEntry) : Type 0 where
  pub valid : has_flag pg_valid now ≡ true
  pub referenced : has_flag pg_ref now ≡ true
  pub dirty : has_flag pg_dirty now ≡ ((type == b'M') || (type == b'S') || has_flag pg_dirty e)
  pub onswap : has_flag pg_onswap now ≡ has_flag pg_onswap e
  pub frame : frame_of now ≡ frame_of e
  pub offset : now.swap_off ≡ e.swap_off

touched-IsReferenced : (type : ℕ) (e : PgtblEntry) → IsReferenced type e (touched type e)
touched-IsReferenced type e = record {
  valid = has_flag-touched pg_valid type e;
  referenced = has_flag-touched pg_ref type e;
  dirty = ground (arith, has_flag-touched pg_dirty type e);
  onswap = ground (arith, has_flag-touched pg_onswap type e);
  frame = frame_of-touched type e;
  offset = ground arith;
}

module _ (calls : FileCalls) where
  -- A reference that finds the page of `p` in its frame.
  pub record IsHit (p : Pointer) (type : ℕ) (e : PgtblEntry) (s : Sim calls) (r : ℕ × Sim calls)
      : Type 0 where
    pub address : r.0 ≡ frame_of e * simpagesize % 2 ^ 32
    pub now : PgtblEntry
    pub entry : fetch calls p r.1 ≡ ok now
    pub flags : IsReferenced type e now
    pub others : (q : Pointer) → q ≢ p → fetch calls q r.1 ≡ fetch calls q s
    pub rest :
        r.1
        ≡ record s { pgdir = r.1.pgdir; ref_count = s.ref_count + 1; hit_count = s.hit_count + 1 }

  find_physpage_lem :
      (memalign : Bool) (vaddr type : ℕ) (s : Sim calls) (table : ℕ → PgtblEntry)
      → pgdir_index vaddr < 4096
      → s.pgdir (pgdir_index vaddr) ≡ some table
      → has_flag pg_valid (table (pgtbl_index vaddr)) ≡ true
      → find_physpage calls (fifo calls) memalign vaddr type s
        ≡ ok (
          frame_of (table (pgtbl_index vaddr)) * simpagesize % 2 ^ 32,
          adjust calls
              (pgdir_index vaddr, pgtbl_index vaddr)
              (touched type)
              (record s { ref_count = s.ref_count + 1; hit_count = s.hit_count + 1 }),
        )
  unfolding find_physpage
  find_physpage_lem memalign vaddr type s table low found valid =
      ground (arith, frame_of-touched type (table (pgtbl_index vaddr)))

  -- A reference to a page that is in memory, under FIFO: the call returns the address of its frame,
  -- sets PG_VALID and PG_REF in its entry, and PG_DIRTY where the type is 'M' or 'S', and keeps the
  -- other flags, the frame and the swap offset there. It counts one reference and one hit, and changes
  -- nothing else: no other entry, no counter, not the coremap, the memory or the swap.
  pub find_physpage-IsHit :
      (memalign : Bool) (vaddr type : ℕ) (s : Sim calls) (table : ℕ → PgtblEntry)
      → pgdir_index vaddr < 4096
      → s.pgdir (pgdir_index vaddr) ≡ some table
      → has_flag pg_valid (table (pgtbl_index vaddr)) ≡ true
      → Returns
          (IsHit (pgdir_index vaddr, pgtbl_index vaddr) type (table (pgtbl_index vaddr)) s)
          (find_physpage calls (fifo calls) memalign vaddr type s)
  find_physpage-IsHit memalign vaddr type s table low found valid =
      let p : Pointer = (pgdir_index vaddr, pgtbl_index vaddr) in
      let e = table (pgtbl_index vaddr) in
      let counted = record s { ref_count = s.ref_count + 1; hit_count = s.hit_count + 1 } in
      let there : fetch calls p counted ≡ ok e = rw found refl in
      let written = adjust-Written calls p (touched type) counted e there in
      let (pages, e') = adjust_rest calls p (touched type) counted in
      rw (find_physpage_lem memalign vaddr type s table low found valid) (record {
        address = refl;
        now = touched type e;
        entry = written.here;
        flags = touched-IsReferenced type e;
        others = written.there;
        rest =
            e'
            ∙ sym (
                ap
                  (λ (t : Sim calls). record s {
                    pgdir = t.pgdir;
                    ref_count = s.ref_count + 1;
                    hit_count = s.hit_count + 1;
                  })
                  e');
      })
