-- ===== src/Paging/Opt/Times.antt =====
-- The times that `opt_ref` notes.
use cscc.Prelude.{
  ℕ, zero, suc, ◌+◌, ◌-◌, ◌≡◌, ◌≢◌, ◌<◌, ◌≤◌, arith, refl, Bool, true, ◌==◌, inl, inr, ◌⊎◌,
  Bool-cases, ℤ, pos, some, List, ◌∷◌, subst, update,
}
use native.Mathlib.Decide.{ℕ_discrete}
use cscc.Swap.Bitmap.{ok}
use cscc.Paging.Opt.{Opt, TraceItem, never, next_from, opt_ref}

-- `z` is the first time from `j` on, before `last`, at which the address is referenced.
abbrev pub Next : (addrs : ℕ → ℕ) (addr j last : ℕ) → ℤ → Type 0
Next addrs addr j last z =
    ((z ≡ never) × ((i : ℕ) → j ≤ i → i < last → addrs i ≢ addr))
    ⊎ ((t : ℕ) × (z ≡ pos t)
        × (j ≤ t)
        × (t < last)
        × (addrs t ≡ addr)
        × ((i : ℕ) → j ≤ i → i < t → addrs i ≢ addr))

Next-later :
    (addrs : ℕ → ℕ) (addr j last : ℕ) (z : ℤ)
    → addrs j ≢ addr
    → Next addrs addr (suc j) last z
    → Next addrs addr j last z
Next-later addrs addr j last z ne (inl (at, others)) = inl (
  at,
  λ i low high. elim (ℕ_discrete j i) [
    | yes same ↦ subst (λ i. addrs i ≢ addr) same ne
    | no other ↦ others i (omega arith) high
  ],
)
Next-later addrs addr j last z ne (inr (t, at, low, high, hit, before)) = inr (
  t,
  at,
  omega arith,
  high,
  hit,
  λ i from to. elim (ℕ_discrete j i) [
    | yes same ↦ subst (λ i. addrs i ≢ addr) same ne
    | no other ↦ before i (omega arith) to
  ],
)

next_from-Next :
    (addrs : ℕ → ℕ) (addr rounds j last : ℕ)
    → j + rounds ≡ last
    → Next addrs addr j last (next_from addrs addr rounds j)
unfolding next_from
next_from-Next addrs addr zero j last e = inl (refl, λ i low high. absurd (omega arith))
next_from-Next addrs addr (suc rounds) j last e = elim (Bool-cases (addr == addrs j)) [
  | inl hit ↦
      rw hit
        (inr (j, refl, omega arith, omega arith, ground arith, λ i from to. absurd (omega arith)))
  | inr miss ↦ rw miss (
      Next-later addrs addr j last (next_from addrs addr rounds (suc j)) (λ same. ground arith)
        (next_from-Next addrs addr rounds (suc j) last (omega arith)))
]

-- Where there was an item before the current one and the frame that is referenced holds a page,
-- `opt_ref` notes for the frame of the item before when its address is referenced next, from the
-- current time on, or -1 where it is not. The other entries stay.
pub opt_ref-Next :
    (held : ℕ → Bool) (frame : ℕ) (s : Opt) (before cur : TraceItem) (rest : List TraceItem)
    → s.pre ≡ some before
    → s.items ≡ cur ∷ rest
    → held frame ≡ true
    → cur.time < s.lines
    → (s' : Opt) × (opt_ref held frame s ≡ ok s')
      × Next s.addrs before.addr cur.time s.lines (s'.memory before.index)
      × ((k : ℕ) → k ≢ before.index → s'.memory k ≡ s.memory k)
unfolding opt_ref
opt_ref-Next held frame s before cur rest prev now here lt = (
  record s {
    memory =
        update s.memory before.index (next_from s.addrs before.addr (s.lines - cur.time) cur.time);
    pre = some (record cur { index = frame });
    items = rest;
  },
  ground (arith, prev, now, here),
  subst (λ z. Next s.addrs before.addr cur.time s.lines z) (ground arith)
      (next_from-Next s.addrs before.addr (s.lines - cur.time) cur.time s.lines (omega arith)),
  λ k ne. ground arith,
)
