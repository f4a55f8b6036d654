-- ===== src/Paging/Serving/Answer.antt =====
-- The last part of `find_physpage`: the call of the replacement algorithm, and the address.
use cscc.Prelude.{ℕ, ◌*◌, ◌%◌, ◌^◌, ◌≡◌, ◌<◌, refl, sym, ap, ◌∙◌, arith, subst}
use cscc.Prelude.{true}
use cscc.Swap.Bitmap.{ok, ◌>>=◌, Returns, Returns-bind}
use cscc.Swap.Transfer.{FileCalls, simpagesize}
use cscc.Paging.State.{Pointer, Frame, Sim, fetch, adjust, frame_of, Policy}
use cscc.Paging.Lookup.{touched, refer}
use cscc.Paging.Serving.Mapped.{taken, taken-inj}
use cscc.Paging.Serving.Sound.{
  IsSound, Ready, Ready-hand, Counted, Similar, Similar-IsSound, IsPolicy,
}
use cscc.Paging.Serving.Change.{Same, adjust-Same}
use cscc.Paging.Serving.Miss.{Served}

module _ (calls : FileCalls) where
  -- A reference to the page at `p` is over: the state is sound, and the address is that of a frame of
  -- the memory, which holds the page.
  pub record Answered (p : Pointer) (s : Sim calls) (r : ℕ × Sim calls) : Type 0 where
    pub sound : IsSound calls r.1
    pub size : r.1.memsize ≡ s.memsize
    pub counted : Counted calls s r.1
    pub frame : ℕ
    pub inside : frame < s.memsize
    pub stands : r.1.coremap frame ≡ taken p
    pub address : r.0 ≡ frame * simpagesize

  -- What the call of the replacement algorithm leaves.
  referred-Answered :
      (p : Pointer) (s t s' : Sim calls) (f : ℕ)
      → IsSound calls t
      → Same calls s t
      → f < s.memsize
      → s.coremap f ≡ taken p
      → (s'.index ≡ t.index) × Similar calls t s'
      → Returns
          (Answered p s)
          (fetch calls p s' >>= λ entry. ok (frame_of entry * simpagesize % 2 ^ 32, s'))
  referred-Answered p s t s' f v same lt stands (hand, like) =
      let sound =
        Similar-IsSound calls t s' v like
          (subst (λ i. Ready t.memsize i t.coremap) (sym hand) v.ready) in
      let stands' : s'.coremap f ≡ taken p =
        ap (λ (cm : ℕ → Frame). cm f) (like.coremap ∙ same.coremap) ∙ stands in
      let inside : f < s'.memsize = omega (arith, like.size, same.size) in
      let (q, e, back, there, valid, named) =
        sound.mapped.held f inside (ap (λ (c : Frame). c.in_use) stands') in
      let one : p ≡ q = taken-inj p q (sym stands' ∙ back) in
      subst
        (λ r.
          Returns (Answered p s) (r >>= λ entry. ok (frame_of entry * simpagesize % 2 ^ 32, s')))
        (sym (ap (λ p. fetch calls p s') one ∙ there))
        (record {
          sound = sound;
          size = like.size ∙ same.size;
          counted = record {
            hits = like.counted.hits ∙ same.counted.hits;
            misses = like.counted.misses ∙ same.counted.misses;
            refs = like.counted.refs ∙ same.counted.refs;
          };
          frame = f;
          inside = lt;
          stands = stands';
          address = ap (λ k. k * simpagesize % 2 ^ 32) named ∙ omega (arith, sound.size);
        })

  pub refer-Answered :
      (policy : Policy calls) (p : Pointer) (type : ℕ) (s : Sim calls)
      → IsPolicy calls policy
      → Served calls p type s
      → Returns (Answered p s) (refer calls policy p type s)
  refer-Answered policy p type s law v =
      let t = adjust calls p (touched type) s in
      let same = adjust-Same calls p (touched type) s s (record {
        size = refl;
        coremap = refl;
        index = refl;
        counted = record { hits = refl; misses = refl; refs = refl };
      }) in
      let used : (t.coremap v.frame).in_use ≡ true =
        ap (λ (cm : ℕ → Frame). (cm v.frame).in_use) same.coremap
        ∙ ap (λ (c : Frame). c.in_use) v.stands in
      let ready =
        Ready-hand t.memsize t.index v.frame t.coremap v.sound.ready
          (omega (arith, same.size, v.inside)) used in
      Returns-bind (λ (s' : Sim calls). (s'.index ≡ t.index) × Similar calls t s') (Answered p s)
        (policy.ref_fcn p t) _ (law.refers p t v.sound ready)
        (λ s' like. referred-Answered p s t s' v.frame v.sound same v.inside v.stands like)
