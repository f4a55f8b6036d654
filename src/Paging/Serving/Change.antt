-- ===== src/Paging/Serving/Change.antt =====
-- What a change of one entry leaves as it was.
use cscc.Prelude.{ℕ, ◌*◌, ◌^◌, ◌≡◌, ◌≤◌, refl, sym, ◌∙◌, arith, subst, bit, bit-bit_and, clear_iff}
use cscc.Prelude.{false, none}
use cscc.Swap.Bitmap.{Run, ok}
use cscc.Swap.Slots.{IsValid}
use cscc.Swap.Transfer.{FileCalls}
use cscc.Paging.State.{PgtblEntry, Pointer, Frame, Sim, fetch, adjust, has_flag, lower, pg_valid}
use cscc.Paging.Serving.Mapped.{Mapped, Written}
use cscc.Paging.Serving.Sound.{IsSound, Ready, Counted, adjust_rest}

-- A frame that is not in use.
abbrev pub vacant : Frame
vacant = record { in_use = false; pte = none }

pub lower-invalid : (e : PgtblEntry) → has_flag pg_valid (lower pg_valid e) ≡ false
lower-invalid e =
    ground (arith, clear_iff (lower pg_valid e).frame 0, bit-bit_and e.frame 4294967294 0, mask)
  where
    mask : bit 4294967294 0 ≡ 0
    mask = unfold bit in refl

pub Written-refl :
    {at : Pointer → Run PgtblEntry} {p : Pointer} {e : PgtblEntry} → at p ≡ ok e → Written at at p e
Written-refl h = record { here = h; there = λ q apart. refl }

pub Written-trans :
    {at at' at'' : Pointer → Run PgtblEntry} {p : Pointer} {e e' : PgtblEntry}
    → Written at at' p e
    → Written at' at'' p e'
    → Written at at'' p e'
Written-trans h k = record { here = k.here; there = λ q apart. k.there q apart ∙ h.there q apart }

module _ (calls : FileCalls) where
  -- The size, the coremap, the hand and the counters of one state are those of the other.
  pub record Same (s s' : Sim calls) : Type 0 where
    pub size : s'.memsize ≡ s.memsize
    pub coremap : s'.coremap ≡ s.coremap
    pub index : s'.index ≡ s.index
    pub counted : Counted calls s s'

  -- The swap can be used.
  pub record CanSwap (s : Sim calls) : Type 0 where
    pub bitmap : IsValid s.store.swapmap
    pub slots : s.store.swapmap.nbits * 16 ≤ 2 ^ 31

  pub adjust-Same :
      (p : Pointer) (g : PgtblEntry → PgtblEntry) (s s' : Sim calls)
      → Same s s'
      → Same s (adjust calls p g s')
  adjust-Same p g s s' h =
      let (pages, e) = adjust_rest calls p g s' in
      subst (Same s) (sym e) (record {
        size = h.size;
        coremap = h.coremap;
        index = h.index;
        counted = record {
          hits = h.counted.hits;
          misses = h.counted.misses;
          refs = h.counted.refs;
        };
      })

  pub adjust-CanSwap :
      (p : Pointer) (g : PgtblEntry → PgtblEntry) (s : Sim calls)
      → CanSwap s
      → CanSwap (adjust calls p g s)
  adjust-CanSwap p g s h =
      let (pages, e) = adjust_rest calls p g s in
      subst CanSwap (sym e) (record { bitmap = h.bitmap; slots = h.slots })

  -- A state is sound if its mapping is, and the rest is as it was.
  pub Same-IsSound :
      (n : ℕ) (s s' : Sim calls)
      → s.memsize ≡ n
      → n ≤ 2 ^ 20
      → Same s s'
      → CanSwap s'
      → Mapped n (λ q. fetch calls q s') s.coremap
      → Ready n s.index s.coremap
      → IsSound calls s'
  Same-IsSound n s s' e small same room m r = record {
    size = omega (arith, same.size);
    mapped =
        subst (λ n. Mapped n (λ q. fetch calls q s') s'.coremap) (sym (same.size ∙ e))
          (subst (Mapped n (λ q. fetch calls q s')) (sym same.coremap) m);
    ready =
        subst (λ n. Ready n s'.index s'.coremap) (sym (same.size ∙ e))
          (subst (λ i. Ready n i s'.coremap) (sym same.index)
            (subst (Ready n s.index) (sym same.coremap) r));
    bitmap = room.bitmap;
    slots = room.slots;
  }
