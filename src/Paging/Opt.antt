-- ===== src/Paging/Opt.antt =====
-- opt.c, from the state that `opt_init` leaves on.
pub mod Best
pub mod Times
pub mod Init
use cscc.Prelude.{
  ℕ, zero, suc, ◌+◌, ◌-◌, ◌==◌, ltb, ◌&&◌, Bool, Option, none, some, List, [], ◌∷◌, if◌then◌else◌,
  update,
}
use cscc.Prelude.{ℤ, pos, negsuc, ◌==ℤ◌}
use cscc.Swap.Bitmap.{Run, ok, abort}

-- `TraceItem`: its index, time and address; the pointers are the order of the items.
pub record TraceItem : Type 0 where
  pub index : ℕ
  pub time : ℕ
  pub addr : ℕ

-- The fields of the coremap for OPT: the items `cur->pre`, `cur` and those behind it, and the arrays.
pub record Opt : Type 0 where
  pub pre : Option TraceItem
  pub items : List TraceItem
  pub lines : ℕ
  pub addrs : ℕ → ℕ
  pub memory : ℕ → ℤ

-- `-1` in `memory`: `opt_ref` has noted no later reference.
abbrev pub never : ℤ
never = negsuc 0

abbrev pub gt_ℤ : ℤ → ℤ → Bool
gt_ℤ (pos a) (pos b) = ltb b a
gt_ℤ (pos a) (negsuc b) = Bool.true
gt_ℤ (negsuc a) (pos b) = Bool.false
gt_ℤ (negsuc a) (negsuc b) = ltb a b

-- The loop of `opt_evict` over the frames from `k` on. `held k` says whether frame `k` has a page.
unfoldable pub opt_from :
    (memory : ℕ → ℤ) (held : ℕ → Bool) (rounds k : ℕ) (max : ℤ) (evict : ℕ) → ℕ
opt_from memory held zero k max evict = evict
opt_from memory held (suc rounds) k max evict =
    let farther = opt_from memory held rounds (suc k) (memory k) k in
    let rest = opt_from memory held rounds (suc k) max evict in
    if (memory k ==ℤ never) && held k then k else if gt_ℤ (memory k) max then farther else rest

unfoldable pub opt_evict : (memsize : ℕ) (held : ℕ → Bool) → Opt → ℕ
unfolding opt_from
opt_evict memsize held s = opt_from s.memory held memsize 0 never 0

-- The loop of `opt_ref` from the time `j` on: the next time of the address.
unfoldable pub next_from : (addrs : ℕ → ℕ) (addr : ℕ) (rounds j : ℕ) → ℤ
next_from addrs addr zero j = never
next_from addrs addr (suc rounds) j =
    let rest = next_from addrs addr rounds (suc j) in if addr == addrs j then pos j else rest

-- Where there is a round of the loop, the item before gets its next time.
unfoldable pub note_next : TraceItem → (time : ℕ) → Opt → Opt
unfolding next_from
note_next before time s =
    if ltb time s.lines
    then record s {
      memory = update s.memory before.index (next_from s.addrs before.addr (s.lines - time) time);
    }
    else s

-- The current item gets the frame, and becomes the one before. Behind the last item the code follows
-- a null pointer.
unfoldable pub opt_ref : (held : ℕ → Bool) (frame : ℕ) → Opt → Run Opt
unfolding note_next
opt_ref held frame s = elim s.items [
  | [] ↦ abort
  | cur ∷ rest ↦
      let noted = elim s.pre as (λ _. Opt) [
        | none ↦ s
        | some before ↦ if held frame then note_next before cur.time s else s
      ] in
      ok (record noted { pre = some (record cur { index = frame }); items = rest })
]
