-- ===== src/Paging/Fifo/Recent.antt =====
-- What FIFO promises: the memory holds the pages that were loaded last.
use cscc.Prelude.{
  ℕ, zero, suc, ◌+◌, ◌-◌, ◌≡◌, ◌≢◌, ◌≤◌, ◌<◌, sym, subst, ap, ◌∙◌, arith, ltb, leb, update,
  if◌then◌else◌, List, ◌∷◌, length, get_or, true, false, Option, none, some,
}
use cscc.Paging.State.{Pointer, Frame}
use cscc.Paging.Lookup.{find_free}
use cscc.Paging.Serving.Mapped.{taken}
use cscc.Paging.Serving.FreeFrame.{Lowest, find_free-Lowest, update_self, update-apart}
use cscc.Paging.Fifo.Place.{Place, admit}

abbrev pub origin : Pointer
origin = (0, 0)

-- The frame that is written next, where `k` pages were loaded so far.
abbrev pub write_at : (k : ℕ) → Place → ℕ
write_at k x = if ltb k x.size then k else x.index

-- The frame written `j` times before the one written last, where `w` is next.
abbrev pub back : (n w j : ℕ) → ℕ
back n w j = if ltb j w then w - (j + 1) else n + w - (j + 1)

abbrev next : (n w : ℕ) → ℕ
next n w = if leb n (w + 1) then 0 else w + 1

-- The frames hold the pages that were loaded last, of all the pages loaded, the newest first.
pub record Loaded (pages : List Pointer) (x : Place) : Type 0 where
  pub hand : x.index < x.size
  pub start : length pages < x.size → x.index ≡ 0
  pub free : (f : ℕ) → length pages ≤ f → f < x.size → (x.frames f).in_use ≡ false
  pub stands :
      (j : ℕ)
      → j < x.size
      → j < length pages
      → x.frames (back x.size (write_at (length pages) x) j) ≡ taken (get_or pages j origin)

pub back-lt : (n w j : ℕ) → w < n → j < n → back n w j < n
back-lt n w j h k = ground arith

back-back : (n w j : ℕ) → w < n → j < n → back n w (back n w j) ≡ j
back-back n w j h k = ground arith

back-next : (n w j : ℕ) → w < n → suc j < n → back n (next n w) (suc j) ≡ back n w j
back-next n w j h k = ground arith

back_new : (n w : ℕ) → w < n → back n (next n w) 0 ≡ w
back_new n w h = ground arith

back-apart : (n w j : ℕ) → w < n → suc j < n → back n w j ≢ w
back-apart n w j h k = ground arith

pub write_at-lt : (k : ℕ) (x : Place) → x.index < x.size → write_at k x < x.size
write_at-lt k x h = ground arith

module _ (pages : List Pointer) (x : Place) (l : Loaded pages x) where
  abbrev w : ℕ
  w = write_at (length pages) x

  -- The age of the page in a frame.
  pub aged :
      (f : ℕ)
      → f < x.size
      → f < length pages
      → (j : ℕ) × (j < x.size) × (j < length pages) × (x.frames f ≡ taken (get_or pages j origin))
  aged f lt used =
      let low = write_at-lt (length pages) x l.hand in
      let j = back x.size w f in
      let inside : j < x.size = back-lt x.size w f low lt in
      let old : j < length pages = ground arith in
      (j, inside, old, ap x.frames (sym (back-back x.size w f low lt)) ∙ l.stands j inside old)

  used_frame : (f : ℕ) → f < x.size → f < length pages → (x.frames f).in_use ≡ true
  used_frame f lt used = ap (λ (c : Frame). c.in_use) (aged f lt used).3

  -- One page more, in the frame that is next.
  module _ (p : Pointer) (i : ℕ)
      (e : i ≡ (if ltb (length pages) x.size then x.index else next x.size x.index)) where
    abbrev pushed : Place
    pushed = record { size = x.size; index = i; frames = update x.frames w (taken p) }

    moves : write_at (suc (length pages)) pushed ≡ next x.size w
    moves = let early = l.start in let low = l.hand in ground arith

    stands-pushed :
        (j : ℕ)
        → j < x.size
        → j < suc (length pages)
        → pushed.frames (back x.size (write_at (suc (length pages)) pushed) j)
          ≡ taken (get_or (p ∷ pages) j origin)
    stands-pushed zero lt old =
        ap (λ v. pushed.frames (back x.size v 0)) moves
        ∙ ap pushed.frames (back_new x.size w (write_at-lt (length pages) x l.hand))
        ∙ update_self x.frames w (taken p)
    stands-pushed (suc j) lt old =
        let low = write_at-lt (length pages) x l.hand in
        ap (λ v. pushed.frames (back x.size v (suc j))) moves
        ∙ ap pushed.frames (back-next x.size w j low lt)
        ∙ update-apart x.frames w (back x.size w j) (taken p) (back-apart x.size w j low lt)
        ∙ l.stands j (omega arith) (omega arith)

    push-Loaded : Loaded (p ∷ pages) pushed
    push-Loaded = record {
      hand = let low = l.hand in ground arith;
      start = λ few. let early = l.start in ground arith;
      free = λ f old lt.
          let apart : f ≢ w = ground arith in
          ap (λ (c : Frame). c.in_use) (update-apart x.frames w f (taken p) apart)
          ∙ l.free f (omega arith) lt;
      stands = stands-pushed;
    }

  -- The page that is admitted is the newest.
  pub admit-Loaded : (p : Pointer) → Loaded (p ∷ pages) (admit p x)
  admit-Loaded p = go (find_free x.size 0 x.frames) (find_free-Lowest x.size 0 x.frames)
    where
      go :
          (o : Option ℕ)
          → Lowest x.size 0 x.frames o
          → Loaded (p ∷ pages) (elim o as (λ _. Place) [
            | some f ↦ record x { frames = update x.frames f (taken p) }
            | none ↦ record {
              size = x.size;
              index = if leb x.size (x.index + 1) then 0 else x.index + 1;
              frames = update x.frames x.index (taken p);
            }
          ])
      go (some f) (_, within, unused, below) =
          let lt : f < x.size = omega (arith, within) in
          let fresh : ¬ (f < length pages) = λ used. cc (used_frame f lt used) in
          let first : ¬ (length pages < f) = λ above. cc (
            below (length pages) (omega arith) above,
            l.free (length pages) (omega arith) (omega arith),
          ) in
          let is : w ≡ f = ground arith in
          let same : x.index
              ≡ (if ltb (length pages) x.size then x.index else next x.size x.index) =
            ground arith in
          subst (λ v. Loaded (p ∷ pages) (record x { frames = update x.frames v (taken p) })) is
            (push-Loaded p x.index same)
      go none full =
          let some_free : ¬ (length pages < x.size) = λ few. cc (
            full (length pages) (omega arith) (omega arith),
            l.free (length pages) (omega arith) few,
          ) in
          let many : x.size ≤ length pages = omega (arith, some_free) in
          let is : w ≡ x.index = ground arith in
          let same : next x.size x.index
              ≡ (if ltb (length pages) x.size then x.index else next x.size x.index) =
            ground arith in
          subst
            (λ v. Loaded (p ∷ pages) (record {
              size = x.size;
              index = next x.size x.index;
              frames = update x.frames v (taken p);
            }))
            is (push-Loaded p (next x.size x.index) same)
