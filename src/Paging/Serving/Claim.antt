-- ===== src/Paging/Serving/Claim.antt =====
-- `allocate_frame`: the lowest free frame, or the one of a victim, is claimed for a page.
use cscc.Prelude.{ℕ, ◌≡◌, ◌≢◌, ◌<◌, inr, refl, sym, ap, ◌∙◌, arith, subst, update}
use cscc.Prelude.{false, Option, none, some}
use cscc.Swap.Bitmap.{Run, ok, abort, ◌>>=◌, Returns, Returns-bind}
use cscc.Swap.Transfer.{FileCalls}
use cscc.Swap.RoundTrip.{IsFile}
use cscc.Paging.State.{PgtblEntry, Pointer, Frame, Sim, fetch, has_flag, pg_valid, Policy}
use cscc.Paging.Lookup.{find_free, claim, expel, allocate_frame}
use cscc.Paging.Serving.Mapped.{Mapped, Alike, taken}
use cscc.Paging.Serving.Sound.{
  IsSound, IsFilled, Ready, Counted, Counted-trans, Similar, Similar-IsSound, IsPolicy,
}
use cscc.Paging.Serving.Change.{vacant, CanSwap}
use cscc.Paging.Serving.Evict.{Expelled, expel-Expelled}
use cscc.Paging.Serving.FreeFrame.{Lowest, find_free-Lowest, update_self, update-apart, Ready-claim}

module _ (calls : FileCalls) where
  -- A frame was claimed for the page at `p`, whose entry is not valid yet; without that frame the
  -- coremap agrees with the entries.
  pub record Claimed (s : Sim calls) (p : Pointer) (r : ℕ × Sim calls) : Type 0 where
    pub entry : PgtblEntry
    pub inside : r.0 < s.memsize
    pub size : r.1.memsize ≡ s.memsize
    pub swap : CanSwap calls r.1
    pub counted : Counted calls s r.1
    pub there : fetch calls p r.1 ≡ ok entry
    pub invalid : has_flag pg_valid entry ≡ false
    pub before : ℕ → Frame
    pub mapped : Mapped s.memsize (λ q. fetch calls q r.1) before
    pub free : (before r.0).in_use ≡ false
    pub claimed : r.1.coremap r.0 ≡ taken p
    pub others : (g : ℕ) → g ≢ r.0 → r.1.coremap g ≡ before g
    pub ready : Ready s.memsize r.1.index r.1.coremap

  claim-Claimed :
      (s : Sim calls) (p : Pointer) (e : PgtblEntry) (f : ℕ)
      → IsSound calls s
      → fetch calls p s ≡ ok e
      → has_flag pg_valid e ≡ false
      → Lowest s.memsize 0 s.coremap (some f)
      → Claimed s p (f, claim calls p f s)
  claim-Claimed s p e f v there invalid (low, inside, free, below) = record {
    entry = e;
    inside = omega arith;
    size = refl;
    swap = record { bitmap = v.bitmap; slots = v.slots };
    counted = record { hits = refl; misses = refl; refs = refl };
    there = there;
    invalid = invalid;
    before = s.coremap;
    mapped = v.mapped;
    free = free;
    claimed = update_self s.coremap f (taken p);
    others = λ g apart. update-apart s.coremap f g (taken p) apart;
    ready =
        Ready-claim s.memsize s.index f s.coremap p (omega arith) v.ready
          (λ g lt. below g (omega arith) lt);
  }

  -- In a full memory any frame is where the hand may stand.
  Ready-full :
      (s s' : Sim calls)
      → IsFilled calls s
      → s'.index < s.memsize
      → Ready s.memsize s'.index s.coremap
  Ready-full s s' full lt = record {
    hand = lt;
    lowest = λ f g inside before used. full g (omega arith);
    start = inr full;
  }

  -- An entry that is not valid is not touched by the choice of a victim, but for bits that do not
  -- count.
  abbrev Invalid : Pointer → PgtblEntry → Sim calls → Type 0
  Invalid p e s = (fetch calls p s ≡ ok e) × (has_flag pg_valid e ≡ false)

  Invalid-Similar :
      (s s' : Sim calls) (p : Pointer) (e : PgtblEntry)
      → Invalid p e s
      → Similar calls s s'
      → (e' : PgtblEntry) × (Invalid p e' s')
  Invalid-Similar s s' p e (found, invalid) h =
      go (fetch calls p s') (subst (λ r. Alike r (fetch calls p s')) found (h.entries p)) refl
    where
      go :
          (r : Run PgtblEntry)
          → Alike (ok e) r
          → fetch calls p s' ≡ r
          → (e' : PgtblEntry) × (Invalid p e' s')
      go abort a k = absurd a
      go (ok e') a k = (e', (k, a.1 ∙ invalid))

  -- The frame of a page that went out is claimed.
  reclaim-Claimed :
      (s s₁ s₂ : Sim calls) (p : Pointer) (e : PgtblEntry) (f : ℕ)
      → Similar calls s s₁
      → IsFilled calls s
      → f < s.memsize
      → s₁.index < s.memsize
      → Invalid p e s₁
      → Expelled calls s₁ f s₂
      → Claimed s p (f, claim calls p f s₂)
  reclaim-Claimed s s₁ s₂ p e f like full lt hand (found, invalid) out = record {
    entry = e;
    inside = lt;
    size = out.same.size ∙ like.size;
    swap = record { bitmap = out.swap.bitmap; slots = out.swap.slots };
    counted = Counted-trans calls s s₁ (claim calls p f s₂) like.counted (record {
      hits = out.same.counted.hits;
      misses = out.same.counted.misses;
      refs = out.same.counted.refs;
    });
    there = out.others p e found invalid;
    invalid = invalid;
    before = update s₁.coremap f vacant;
    mapped =
        subst (λ n. Mapped n (λ q. fetch calls q s₂) (update s₁.coremap f vacant)) like.size
          out.mapped;
    free = ground arith;
    claimed = update_self s₂.coremap f (taken p);
    others = λ g apart.
        update-apart s₂.coremap f g (taken p) apart
        ∙ ap (λ (cm : ℕ → Frame). cm g) out.same.coremap
        ∙ sym (update-apart s₁.coremap f g vacant apart);
    ready =
        Ready-claim s.memsize s₂.index f s₂.coremap p lt
          (subst (Ready s.memsize s₂.index) (sym (out.same.coremap ∙ like.coremap))
            (Ready-full s s₂ full (omega (arith, out.same.index))))
          (λ g below.
            ap (λ (cm : ℕ → Frame). (cm g).in_use) (out.same.coremap ∙ like.coremap)
            ∙ full g (omega arith));
  }

  -- In a full memory: the policy chooses, the victim goes out, and its frame is claimed.
  replace-Claimed :
      (h : IsFile calls) (policy : Policy calls) (s : Sim calls) (p : Pointer) (e : PgtblEntry)
      → IsPolicy calls policy
      → IsSound calls s
      → IsFilled calls s
      → Invalid p e s
      → Returns (Claimed s p) (
          policy.evict_fcn s >>= λ victim.
          expel calls victim.0 victim.1 >>= λ s'. ok (victim.0, claim calls p victim.0 s'))
  replace-Claimed h policy s p e law v full invalid =
      Returns-bind
        (λ (r : ℕ × Sim calls). (r.0 < s.memsize) × (r.1.index < s.memsize) × Similar calls s r.1)
        (Claimed s p) (policy.evict_fcn s) _ (law.evicts s v full)
        λ victim (lt, hand, like).
          let (e', there) = Invalid-Similar s victim.1 p e invalid like in
          let sound = Similar-IsSound calls s victim.1 v like (Ready-full s victim.1 full hand) in
          Returns-bind (Expelled calls victim.1 victim.0) (Claimed s p)
            (expel calls victim.0 victim.1) _
            (expel-Expelled calls h victim.1 victim.0 sound (omega (arith, like.size))
              (ap (λ (cm : ℕ → Frame). (cm victim.0).in_use) like.coremap ∙ full victim.0 lt))
            (λ s' out. reclaim-Claimed s victim.1 s' p e' victim.0 like full lt hand there out)

  -- `allocate_frame` returns, and claims a frame of the memory for the page.
  pub allocate_frame-Claimed :
      (h : IsFile calls) (policy : Policy calls) (s : Sim calls) (p : Pointer) (e : PgtblEntry)
      → IsPolicy calls policy
      → IsSound calls s
      → fetch calls p s ≡ ok e
      → has_flag pg_valid e ≡ false
      → Returns (Claimed s p) (allocate_frame calls policy p s)
  unfolding allocate_frame
  allocate_frame-Claimed h policy s p e law v there invalid =
      go (find_free s.memsize 0 s.coremap) (find_free-Lowest s.memsize 0 s.coremap)
    where
      go :
          (o : Option ℕ)
          → Lowest s.memsize 0 s.coremap o
          → Returns (Claimed s p) (elim o [
            | some frame ↦ ok (frame, claim calls p frame s)
            | none ↦ policy.evict_fcn s >>= λ victim.
                expel calls victim.0 victim.1 >>= λ s'. ok (victim.0, claim calls p victim.0 s')
          ])
      go none full =
          replace-Claimed h policy s p e law v (λ f lt. full f (omega arith) (omega arith))
            (there, invalid)
      go (some f) low = claim-Claimed s p e f v there invalid low
