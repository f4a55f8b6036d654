-- ===== src/Paging/Opt/Best.antt =====
-- The choice of `opt_evict`, and the times that `opt_ref` notes for it.
use cscc.Prelude.{
  ℕ, zero, suc, ◌+◌, ◌≡◌, ◌≢◌, ◌<◌, arith, refl, ap, ◌∙◌, Bool, true, false, inl, inr, ◌⊎◌,
  Bool-cases, ℤ, pos, negsuc, ◌==ℤ◌, ==ℤ_iff, subst,
}
use native.Mathlib.Decide.{ℕ_discrete}
use cscc.Paging.Opt.{Opt, never, gt_ℤ, opt_from, opt_evict}

-- Each entry is a time, or `never`.
abbrev pub Times : (ℕ → ℤ) → Type 0
Times memory = (k : ℕ) → (memory k ≡ never) ⊎ ((t : ℕ) × (memory k ≡ pos t))

-- The entry of frame `v` is -1; or no entry is, and none is greater than that of `v`.
abbrev pub Best : (ℕ → ℤ) → (memsize v : ℕ) → Type 0
Best memory memsize v =
    (v < memsize)
    × ((memory v ≡ never)
        ⊎ ((k : ℕ) → k < memsize → (memory k ≢ never) × (gt_ℤ (memory k) (memory v) ≡ false)))

gt_ℤ-irrefl : (a : ℤ) → gt_ℤ a a ≡ false
gt_ℤ-irrefl (pos a) = ground arith
gt_ℤ-irrefl (negsuc a) = ground arith

gt_ℤ_trans : (a b c : ℤ) → gt_ℤ a b ≡ true → gt_ℤ c b ≡ false → gt_ℤ c a ≡ false
gt_ℤ_trans (pos a) (pos b) (pos c) h g = ground arith
gt_ℤ_trans (pos a) (pos b) (negsuc c) h g = refl
gt_ℤ_trans (pos a) (negsuc b) (pos c) h g = cc
gt_ℤ_trans (pos a) (negsuc b) (negsuc c) h g = refl
gt_ℤ_trans (negsuc a) (pos b) c h g = cc
gt_ℤ_trans (negsuc a) (negsuc b) (pos c) h g = cc
gt_ℤ_trans (negsuc a) (negsuc b) (negsuc c) h g = ground arith

module _ (memory : ℕ → ℤ) (held : ℕ → Bool) (memsize : ℕ)
    (full : (k : ℕ) → k < memsize → held k ≡ true) where
  -- The best of the frames below `k`.
  record IsFarthest (k : ℕ) (max : ℤ) (evict : ℕ) : Type 0 where
    inside : evict < memsize
    time : memory evict ≡ max
    others : (j : ℕ) → j < k → (memory j ≢ never) × (gt_ℤ (memory j) max ≡ false)

  one_more :
      (k : ℕ) (max : ℤ)
      → memory k ≢ never
      → gt_ℤ (memory k) max ≡ false
      → ((j : ℕ) → j < k → (memory j ≢ never) × (gt_ℤ (memory j) max ≡ false))
      → (j : ℕ) → j < suc k
      → (memory j ≢ never) × (gt_ℤ (memory j) max ≡ false)
  one_more k max here le below j lt = elim (ℕ_discrete k j) [
    | yes same ↦ subst (λ j. (memory j ≢ never) × (gt_ℤ (memory j) max ≡ false)) same (here, le)
    | no other ↦ below j (omega arith)
  ]

  opt_from-Best :
      (rounds k : ℕ) (max : ℤ) (evict : ℕ)
      → k + rounds ≡ memsize
      → IsFarthest k max evict
      → Best memory memsize (opt_from memory held rounds k max evict)
  unfolding opt_from
  opt_from-Best zero k max evict e best = (
    best.inside,
    inr (λ j lt.
        let (ne, le) = best.others j (omega arith) in (ne, ap (gt_ℤ (memory j)) best.time ∙ le)),
  )
  opt_from-Best (suc rounds) k max evict e best = elim (Bool-cases (memory k ==ℤ never)) [
    | inl none_left ↦
        rw (none_left, full k (omega arith))
          (omega arith, inl ((==ℤ_iff (memory k) never).0 none_left))
    | inr some_left ↦
        let here : memory k ≢ never = λ same. cc ((==ℤ_iff (memory k) never).1 same) in
        elim (Bool-cases (gt_ℤ (memory k) max)) [
          | inl farther ↦
              rw (some_left, farther)
                (opt_from-Best rounds (suc k) (memory k) k (omega arith) (record {
                  inside = omega arith;
                  time = refl;
                  others = one_more k (memory k) here (gt_ℤ-irrefl (memory k)) (λ j lt. (
                    (best.others j lt).0,
                    gt_ℤ_trans (memory k) max (memory j) farther (best.others j lt).1,
                  ));
                }))
          | inr not_farther ↦
              rw (some_left, not_farther)
                (opt_from-Best rounds (suc k) max evict (omega arith) (record {
                  inside = best.inside;
                  time = best.time;
                  others = one_more k max here not_farther best.others;
                }))
        ]
  ]

opt_from-found :
    (memory : ℕ → ℤ) (held : ℕ → Bool) (m : ℕ)
    → memory 0 ≡ never
    → held 0 ≡ true
    → opt_from memory held (suc m) 0 never 0 ≡ 0
unfolding opt_from
opt_from-found memory held m at here = ground (arith, at, here)

opt_from-first :
    (memory : ℕ → ℤ) (held : ℕ → Bool) (m t : ℕ)
    → memory 0 ≡ pos t
    → opt_from memory held (suc m) 0 never 0 ≡ opt_from memory held m 1 (memory 0) 0
unfolding opt_from
opt_from-first memory held m t at = ground (arith, at)

-- Where all frames hold pages, and each entry of `memory` is a time or -1, `opt_evict` chooses a frame
-- of the memory whose entry is -1, or where no entry is -1, one with the greatest time.
pub opt_evict-Best :
    (memsize : ℕ) (held : ℕ → Bool) (s : Opt)
    → 0 < memsize
    → ((k : ℕ) → k < memsize → held k ≡ true)
    → Times s.memory
    → Best s.memory memsize (opt_evict memsize held s)
unfolding opt_evict
opt_evict-Best zero held s lt full times = absurd (omega arith)
opt_evict-Best (suc m) held s lt full times = elim (times 0) [
  | inl none_left ↦
      rw (opt_from-found s.memory held m none_left (full 0 (omega arith)))
        (omega arith, inl none_left)
  | inr (t, at) ↦ rw (opt_from-first s.memory held m t at) (
      opt_from-Best s.memory held (suc m) full m 1 (s.memory 0) 0 (omega arith) (record {
        inside = omega arith;
        time = refl;
        others =
            one_more s.memory held (suc m) full 0 (s.memory 0) (λ same. cc at)
              (gt_ℤ-irrefl (s.memory 0)) (λ j lt. absurd (omega arith));
      }))
]
