-- ===== src/Interceptor/Exit.antt =====
-- A process that exits leaves every list of monitored pids.
use cscc.Prelude.{
  ℕ, zero, suc, ◌+◌, ◌-◌, ◌≡◌, ◌≤◌, ◌||◌, ◌&&◌, not, List, [], ◌∷◌, arith, refl, ap, ◌∙◌,
}
use cscc.Prelude.{ℤ, pos, ◌==ℤ◌, ==ℤ_iff, if◌then◌else◌, true, false, Bool, Bool-cases, inl, inr}
use cscc.Prelude.{length, ltb, leb, update, ◌≢◌}
use cscc.Interceptor.State.{Handler, Entry, Kernel, Caller, done}
use cscc.Interceptor.Pids.{Config, unlinked, has_pid, sweep, del_from, del_pid, my_exit_group}
use cscc.Interceptor.WellFormed.{Returns, IsWellFormed, IsWellFormedAt, IsDistinct}

-- What the inner loop of `del_pid` does to an entry whose remaining list is `xs`, with `k` nodes
-- counted that stand before it.
record Swept (pid : ℤ) (xs : List ℤ) (k : ℕ) (e : Entry) (ispid : Bool) (r : Entry × Bool)
    : Type 0 where
  same_f : r.0.f ≡ e.f
  same_intercepted : r.0.intercepted ≡ e.intercepted
  found : r.1 ≡ (ispid || has_pid pid xs)
  listed : (q : ℤ) → has_pid q r.0.my_list ≡ (has_pid q xs && not (pid ==ℤ q))
  counted : e.listcount ≡ pos (length xs + k) → r.0.listcount ≡ pos (length r.0.my_list + k)
  distinct : IsDistinct xs → IsDistinct r.0.my_list
  mode : e.monitored ≤ 2 → r.0.monitored ≤ 2

Swept-drop :
    (pid x : ℤ) (xs : List ℤ) (k : ℕ) (e : Entry) (ispid : Bool) (r : Entry × Bool)
    → (x ==ℤ pid) ≡ true
    → Swept pid xs k (unlinked e) true r
    → Swept pid (x ∷ xs) k e ispid r
unfolding has_pid
Swept-drop pid x xs k e ispid r same h = record {
  same_f = h.same_f;
  same_intercepted = h.same_intercepted;
  found = ground (arith, h.found);
  listed = λ q. ground (arith, h.listed q, ==ℤ_iff x pid, ==ℤ_iff x q, ==ℤ_iff pid q);
  counted = λ c. h.counted (ground arith);
  distinct = λ d. h.distinct d.1;
  mode = λ m. h.mode (ground arith);
}

Swept-keep :
    (pid x : ℤ) (xs : List ℤ) (k : ℕ) (e : Entry) (ispid : Bool) (r : Entry × Bool)
    → (x ==ℤ pid) ≡ false
    → Swept pid xs (suc k) e ispid r
    → Swept pid (x ∷ xs) k e ispid (record (r.0) { my_list = x ∷ r.0.my_list }, r.1)
unfolding has_pid
Swept-keep pid x xs k e ispid r differ h = record {
  same_f = h.same_f;
  same_intercepted = h.same_intercepted;
  found = ground (arith, h.found);
  listed = λ q. ground (arith, h.listed q, ==ℤ_iff x pid, ==ℤ_iff x q, ==ℤ_iff pid q);
  counted = λ c. h.counted (c ∙ ap pos (omega arith)) ∙ ap pos (omega arith);
  distinct = λ d. (ground (arith, h.listed x), h.distinct d.1);
  mode = h.mode;
}

sweep-Swept :
    (pid : ℤ) (xs : List ℤ) (k : ℕ) (e : Entry) (ispid : Bool)
    → Swept pid xs k e ispid (sweep pid xs e ispid)
unfolding sweep has_pid
sweep-Swept pid [] k e ispid = record {
  same_f = refl;
  same_intercepted = refl;
  found = ground arith;
  listed = λ q. refl;
  counted = λ h. h;
  distinct = λ h. tt;
  mode = λ h. h;
}
sweep-Swept pid (x ∷ xs) k e ispid = elim (Bool-cases (x ==ℤ pid)) [
  | inl same ↦
      rw (same, sweep)
        (Swept-drop pid x xs k e ispid _ same (sweep-Swept pid xs k (unlinked e) true))
  | inr differ ↦
      rw (differ, sweep)
        (Swept-keep pid x xs k e ispid _ differ (sweep-Swept pid xs (suc k) e ispid))
]

-- The flag plays no part in what becomes of the entry.
sweep_flag :
    (pid : ℤ) (xs : List ℤ) (e : Entry) (a b : Bool) → (sweep pid xs e a).0 ≡ (sweep pid xs e b).0
unfolding sweep
sweep_flag pid [] e a b = refl
sweep_flag pid (x ∷ xs) e a b = elim (Bool-cases (x ==ℤ pid)) [
  | inl same ↦ rw (same, sweep) refl
  | inr differ ↦
      rw (differ, sweep)
        (ap (λ (r : Entry). record r { my_list = x ∷ r.my_list }) (sweep_flag pid xs e a b))
]

-- A list without the process is left as it is.
sweep_absent :
    (pid : ℤ) (xs : List ℤ) (e : Entry) (b : Bool)
    → has_pid pid xs ≡ false
    → (sweep pid xs e b).0 ≡ record e { my_list = xs }
unfolding sweep has_pid
sweep_absent pid [] e b h = refl
sweep_absent pid (x ∷ xs) e b h = elim (Bool-cases (x ==ℤ pid)) [
  | inl same ↦ absurd (ground (arith, h, same))
  | inr differ ↦
      rw (differ, sweep)
        (ap (λ (r : Entry). record r { my_list = x ∷ r.my_list })
          (sweep_absent pid xs e b (ground (arith, h, differ))))
]

-- The entry that `del_pid` leaves at a system call in its range.
abbrev swept : ℤ → Entry → Entry
swept pid e = (sweep pid e.my_list e false).0

del_from_lem :
    (pid : ℤ) (rounds s : ℕ) (t : ℕ → Entry) (ispid : Bool) (j : ℕ)
    → (del_from pid rounds s t ispid).0 j
      ≡ (if leb s j && ltb j (s + rounds) then swept pid (t j) else t j)
unfolding del_from
del_from_lem pid zero s t ispid j = ground arith
del_from_lem pid (suc rounds) s t ispid j = ground (
  arith,
  del_from_lem pid rounds (suc s) (update t s (sweep pid (t s).my_list (t s) ispid).0)
      (sweep pid (t s).my_list (t s) ispid).1 j,
  sweep_flag pid (t s).my_list (t s) ispid false,
)

-- The table after `del_pid`.
abbrev purged : Config → ℤ → (ℕ → Entry) → ℕ → Entry
purged cfg pid t = (del_from pid (cfg.nr_syscalls - 1) 1 t false).0

my_exit_group_lem :
    (cfg : Config) (c : Caller) (s : Kernel)
    → s.orig_exit_group ≢ Handler.null
    → s.pidlist_lock ≡ false
    → my_exit_group cfg c s
      ≡ done s.orig_exit_group (record s { table = purged cfg c.pid s.table; pidlist_lock = false })
unfolding my_exit_group del_pid
my_exit_group_lem cfg c s saved free = ground arith

module _ (cfg : Config) (pid : ℤ) (s : Kernel) where
  abbrev after : Kernel
  after = record s { table = purged cfg pid s.table; pidlist_lock = false }

  sweep-Swept_at :
      (j : ℕ)
      → Swept pid
          (s.table j).my_list
          0
          (s.table j)
          false
          (sweep pid (s.table j).my_list (s.table j) false)
  sweep-Swept_at j = sweep-Swept pid (s.table j).my_list 0 (s.table j) false

  purged-IsWellFormedAt : (j : ℕ) → IsWellFormedAt cfg s j → IsWellFormedAt cfg after j
  purged-IsWellFormedAt j w = ground (
    arith,
    (sweep-Swept_at j).same_f,
    (sweep-Swept_at j).same_intercepted,
    (sweep-Swept_at j).counted (w.counted.counted ∙ ap pos (omega arith)),
    (sweep-Swept_at j).distinct w.counted.distinct,
    (sweep-Swept_at j).mode w.counted.mode,
    del_from_lem pid (cfg.nr_syscalls - 1) 1 s.table false j,
  )

  purged-entry :
      (j : ℕ)
      → ((purged cfg pid s.table j).f ≡ (s.table j).f)
        × ((purged cfg pid s.table j).intercepted ≡ (s.table j).intercepted)
        × (((has_pid pid (s.table j).my_list && (leb 1 j && ltb j cfg.nr_syscalls)) ≡ false)
            → purged cfg pid s.table j ≡ s.table j)
  purged-entry j = ground (
    arith,
    (sweep-Swept_at j).same_f,
    (sweep-Swept_at j).same_intercepted,
    del_from_lem pid (cfg.nr_syscalls - 1) 1 s.table false j,
    sweep_absent pid (s.table j).my_list (s.table j) false,
  )

  purged-listed :
      (j : ℕ) (q : ℤ)
      → has_pid q (purged cfg pid s.table j).my_list
        ≡ (has_pid q (s.table j).my_list && not ((pid ==ℤ q) && (leb 1 j && ltb j cfg.nr_syscalls)))
  purged-listed j q =
      ground (
        arith,
        (sweep-Swept_at j).listed q,
        del_from_lem pid (cfg.nr_syscalls - 1) 1 s.table false j,
      )

-- A process that exits is taken from the lists of system calls 1 to NR_syscalls - 1, and from no other
-- list, although calls up to NR_syscalls can be monitored; no other process is taken from a list. The
-- call ends in the saved `exit_group`, and the state is well formed, so that the counts go with the
-- lists. An entry keeps its saved handler and its mark of an interception, and an entry whose list
-- loses nothing is as it was. The system call table, its page, the lock of the table, the saved
-- handlers and the log are as they were.
pub my_exit_group-IsWellFormed :
    (cfg : Config) (c : Caller) (s : Kernel)
    → s.orig_exit_group ≢ Handler.null
    → IsWellFormed cfg s
    → Returns (my_exit_group cfg c s) (λ h s'.
      (h ≡ s.orig_exit_group)
      × ((j : ℕ) → IsWellFormedAt cfg s' j)
      × ((j : ℕ) (q : ℤ)
          → has_pid q (s'.table j).my_list ≡ (
              has_pid q (s.table j).my_list
              && not ((c.pid ==ℤ q) && (leb 1 j && ltb j cfg.nr_syscalls))))
      × ((j : ℕ)
          → ((s'.table j).f ≡ (s.table j).f)
            × ((s'.table j).intercepted ≡ (s.table j).intercepted)
            × (((has_pid c.pid (s.table j).my_list && (leb 1 j && ltb j cfg.nr_syscalls)) ≡ false)
                → s'.table j ≡ s.table j))
      × (s'.sys_call_table ≡ s.sys_call_table)
      × (s'.page ≡ s.page)
      × (s'.calltable_lock ≡ s.calltable_lock)
      × (s'.orig_custom_syscall ≡ s.orig_custom_syscall)
      × (s'.orig_exit_group ≡ s.orig_exit_group)
      × (s'.log ≡ s.log))
my_exit_group-IsWellFormed cfg c s saved w =
    rw (my_exit_group_lem cfg c s saved (w 0).quiet.pidlist_free) (
      refl,
      (λ j. purged-IsWellFormedAt cfg c.pid s j (w j)),
      purged-listed cfg c.pid s,
      purged-entry cfg c.pid s,
      refl,
      refl,
      refl,
      refl,
      refl,
      refl,
    )
