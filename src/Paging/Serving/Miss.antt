-- ===== src/Paging/Serving/Miss.antt =====
-- A hit and a miss of `find_physpage`, up to the flags: the page stands in a frame of the memory.
use cscc.Prelude.{
  ℕ, ◌*◌, ◌/◌, ◌%◌, ◌^◌, ◌≡◌, ◌≤◌, ◌<◌, inl, inr, refl, sym, ap, ◌∙◌, arith, subst, bit, bit-bit_or,
  clear_iff, bit_or,
}
use cscc.Prelude.{true, Bool-cases}
use cscc.Swap.Bitmap.{ok}
use cscc.Swap.Transfer.{FileCalls}
use cscc.Swap.Kept.{IsOffset}
use cscc.Paging.State.{PgtblEntry, Pointer, Frame, Sim, fetch, adjust, has_flag, pg_valid, frame_of}
use cscc.Paging.Lookup.{touched, is_write, init_frame}
use cscc.Paging.Reload.{mapped, frame_of-touched}
use cscc.Paging.Serving.Mapped.{Written, taken, settle}
use cscc.Paging.Serving.Sound.{
  IsSound, Ready, Similar, Similar-IsSound, adjust-Written, adjust-Similar, adjust_index,
}
use cscc.Paging.Serving.Change.{
  Same, CanSwap, Same-IsSound, adjust-Same, adjust-CanSwap, Written-trans,
}
use cscc.Paging.Serving.Claim.{Claimed}

touched-valid : (type : ℕ) (e : PgtblEntry) → has_flag pg_valid (touched type e) ≡ true
touched-valid type e = elim (Bool-cases (is_write type)) [
  | inl w ↦ rw w (
      ground (
        arith,
        clear_iff (bit_or (bit_or (bit_or e.frame 1) 4) 2) 0,
        bit-bit_or (bit_or (bit_or e.frame 1) 4) 2 0,
        bit-bit_or (bit_or e.frame 1) 4 0,
        bit-bit_or e.frame 1 0,
        one,
      ))
  | inr r ↦ rw r (
      ground (
        arith,
        clear_iff (bit_or (bit_or e.frame 1) 4) 0,
        bit-bit_or (bit_or e.frame 1) 4 0,
        bit-bit_or e.frame 1 0,
        one,
      ))
]
  where
    one : bit 1 0 ≡ 1
    one = unfold bit in refl

touched-swap_off : (type : ℕ) (e : PgtblEntry) → (touched type e).swap_off ≡ e.swap_off
touched-swap_off type e = ground arith

-- The entry that a miss writes names the frame.
frame_of-shifted : (f : ℕ) → f < 2 ^ 20 → f * 2 ^ 12 % 2 ^ 32 / 2 ^ 12 ≡ f
frame_of-shifted f lt = omega arith

module _ (calls : FileCalls) where
  -- After the flags of a reference of that type are set, the state is sound, and the page at `p`
  -- stands in frame `f`.
  pub record Served (p : Pointer) (type : ℕ) (s : Sim calls) : Type 0 where
    pub sound : IsSound calls (adjust calls p (touched type) s)
    pub frame : ℕ
    pub inside : frame < s.memsize
    pub stands : s.coremap frame ≡ taken p

  -- For a valid entry the flags change nothing that counts.
  touched-Similar :
      (p : Pointer) (type : ℕ) (s : Sim calls) (e : PgtblEntry)
      → fetch calls p s ≡ ok e
      → has_flag pg_valid e ≡ true
      → Similar calls s (adjust calls p (touched type) s)
  touched-Similar p type s e there valid =
      adjust-Similar calls p (touched type) s
        (λ x found.
          let one : e ≡ x = cc in
          (
            frame_of-touched type x,
            touched-valid type x ∙ sym valid ∙ ap (has_flag pg_valid) one,
            touched-swap_off type x,
          ))
        (adjust calls p (touched type) s) refl

  pub hit-Served :
      (p : Pointer) (type : ℕ) (s : Sim calls) (e : PgtblEntry)
      → IsSound calls s
      → fetch calls p s ≡ ok e
      → has_flag pg_valid e ≡ true
      → Served p type s
  hit-Served p type s e v there valid = record {
    sound =
        Similar-IsSound calls s (adjust calls p (touched type) s) v
          (touched-Similar p type s e there valid)
          (subst (λ i. Ready s.memsize i s.coremap) (sym (adjust_index calls p (touched type) s))
            v.ready);
    frame = frame_of e;
    inside = (v.mapped.located p e there valid).0;
    stands = (v.mapped.located p e there valid).1;
  }

  -- The state after a miss, before the flags are set.
  abbrev pub loaded : Pointer → (vaddr f : ℕ) → Sim calls → Sim calls
  loaded p vaddr f s = init_frame calls f vaddr (mapped calls p f s)

  -- The entry that the reference leaves.
  abbrev renewed : (type f : ℕ) → PgtblEntry → PgtblEntry
  renewed type f e = touched type (record e { frame = f * 2 ^ 12 % 2 ^ 32 })

  loaded-Written :
      (p : Pointer) (type vaddr f : ℕ) (s : Sim calls) (e : PgtblEntry)
      → fetch calls p s ≡ ok e
      → Written
          (λ q. fetch calls q s)
          (λ q. fetch calls q (adjust calls p (touched type) (loaded p vaddr f s)))
          p
          (renewed type f e)
  loaded-Written p type vaddr f s e there =
      let set = λ (e : PgtblEntry). record e { frame = f * 2 ^ 12 % 2 ^ 32 } in
      let first = adjust-Written calls p set s e there in
      Written-trans first
        (adjust-Written calls p (touched type) (loaded p vaddr f s) (set e) first.here)

  pub loaded-Same : (p : Pointer) (vaddr f : ℕ) (s : Sim calls) → Same calls s (loaded p vaddr f s)
  loaded-Same p vaddr f s =
      let same =
        adjust-Same calls p (λ e. record e { frame = f * 2 ^ 12 % 2 ^ 32 }) s s
          (record {
            size = refl;
            coremap = refl;
            index = refl;
            counted = record { hits = refl; misses = refl; refs = refl };
          }) in
      record {
        size = same.size;
        coremap = same.coremap;
        index = same.index;
        counted = record {
          hits = same.counted.hits;
          misses = same.counted.misses;
          refs = same.counted.refs;
        };
      }

  loaded-CanSwap :
      (p : Pointer) (vaddr f : ℕ) (s : Sim calls)
      → CanSwap calls s
      → CanSwap calls (loaded p vaddr f s)
  loaded-CanSwap p vaddr f s h =
      let room = adjust-CanSwap calls p (λ e. record e { frame = f * 2 ^ 12 % 2 ^ 32 }) s h in
      record { bitmap = room.bitmap; slots = room.slots }

  -- A miss puts the page into the frame that was claimed for it.
  pub miss-Served :
      (p : Pointer) (type vaddr : ℕ) (s : Sim calls) (r : ℕ × Sim calls)
      → s.memsize ≤ 2 ^ 20
      → Claimed calls s p r
      → Served p type (loaded p vaddr r.0 r.1)
  miss-Served p type vaddr s (f, s') small c =
      let s'' = adjust calls p (touched type) (loaded p vaddr f s') in
      let same =
        adjust-Same calls p (touched type) s' (loaded p vaddr f s') (loaded-Same p vaddr f s') in
      let room =
        adjust-CanSwap calls p (touched type) (loaded p vaddr f s')
          (loaded-CanSwap p vaddr f s' c.swap) in
      let bound : f < 2 ^ 20 = omega (arith, c.inside) in
      let entries =
        settle c.mapped f p (renewed type f c.entry)
          (loaded-Written p type vaddr f s' c.entry c.there)
          (subst IsOffset
            (sym (touched-swap_off type (record (c.entry) { frame = f * 2 ^ 12 % 2 ^ 32 })))
            (c.mapped.offsets p c.entry c.there))
          c.others c.entry c.there c.invalid c.inside c.free c.claimed
          (touched-valid type (record (c.entry) { frame = f * 2 ^ 12 % 2 ^ 32 }))
          (frame_of-touched type (record (c.entry) { frame = f * 2 ^ 12 % 2 ^ 32 })
            ∙ frame_of-shifted f bound) in
      record {
        sound = Same-IsSound calls s.memsize s' s'' c.size small same room entries c.ready;
        frame = f;
        inside = omega (arith, c.inside, c.size, (loaded-Same p vaddr f s').size);
        stands = ap (λ (cm : ℕ → Frame). cm f) (loaded-Same p vaddr f s').coremap ∙ c.claimed;
      }
