-- ===== src/Interceptor/Load.antt =====
-- Loading and unloading the module: `init_function` and `exit_function`.
use cscc.Prelude.{ℕ, zero, suc, ◌+◌, ◌≡◌, ◌≢◌, ◌≤◌, ◌<◌, ◌&&◌, [], arith, refl, true, pos, update}
use cscc.Prelude.{if◌then◌else◌, ltb, leb}
use cscc.Interceptor.State.{Handler, Entry, Kernel, Caller, done, deadlock}
use cscc.Interceptor.Pids.{Config, e_inval}
use cscc.Interceptor.Commands.{my_syscall, check_request, execute, release, request_release}
use cscc.Interceptor.Module.{reset_entry, fill, init_function, release_from, exit_function}
use cscc.Interceptor.WellFormed.{Returns, IsQuiet, IsWellFormed, IsWellFormedAt}

-- The table's entries before the module is loaded: static storage is zero.
abbrev pub zeroed : Entry
zeroed = record {
  f = Handler.null;
  intercepted = 0;
  monitored = 0;
  listcount = pos 0;
  my_list = [];
}

-- A kernel that has not loaded the module.
pub record IsUnloaded (s : Kernel) : Type 0 where
  pub quiet : IsQuiet s
  pub calls : (n : ℕ) → s.sys_call_table n ≡ Handler.original n
  pub zero_table : (n : ℕ) → s.table n ≡ zeroed

pub fill_lem :
    (rounds index : ℕ) (t : ℕ → Entry) (j : ℕ)
    → fill rounds index t j
      ≡ (if leb index j && ltb j (index + rounds) then reset_entry (t j) else t j)
unfolding fill
fill_lem zero index t j = ground arith
fill_lem (suc rounds) index t j =
    ground (arith, fill_lem rounds (suc index) (update t index (reset_entry (t index))) j)

-- Loading the module into such a kernel succeeds, saves the two handlers that it replaces, and
-- leaves a well-formed state in which nothing is intercepted.
pub init_function-IsWellFormed :
    (cfg : Config) (s : Kernel) (j : ℕ)
    → IsUnloaded s
    → cfg.nr_exit_group ≢ 0
    → Returns (init_function cfg s) (λ r s'.
      (r ≡ pos 0)
      × (s'.orig_custom_syscall ≡ Handler.original 0)
      × (s'.orig_exit_group ≡ Handler.original cfg.nr_exit_group)
      × ((s'.table j).intercepted ≡ 0)
      × IsWellFormedAt cfg s' j)
unfolding init_function
init_function-IsWellFormed cfg s j u apart = ground (
  arith,
  fill_lem cfg.nr_syscalls 1 s.table j,
  u.calls j,
  u.zero_table j,
  u.calls 0,
  u.calls cfg.nr_exit_group,
)

module _ (cfg : Config) (c : Caller) (root : c.uid ≡ 0) where
  -- A release requested while the caller holds `calltable_lock`.
  release_held :
      (i : ℕ) (s : Kernel)
      → s.calltable_lock ≡ true
      → (s.table i).intercepted ≡ 1
      → i ≢ 0
      → i ≤ cfg.nr_syscalls
      → my_syscall cfg c request_release (pos i) (pos i) s ≡ deadlock
  unfolding my_syscall check_request execute release
  release_held i s held on named fits = ground arith

  release_custom :
      (s : Kernel) → my_syscall cfg c request_release (pos 0) (pos 0) s ≡ done e_inval s
  unfolding my_syscall check_request
  release_custom s = ground arith

  release_from-deadlock :
      (rounds index n : ℕ) (s : Kernel)
      → s.calltable_lock ≡ true
      → (s.table n).intercepted ≡ 1
      → n ≢ 0
      → index ≤ n
      → n < index + rounds
      → index + rounds ≤ cfg.nr_syscalls
      → release_from cfg c rounds index s ≡ deadlock
  unfolding release_from
  release_from-deadlock zero index n s held on named low high fits = absurd (omega arith)
  release_from-deadlock (suc rounds) index n s held on named low high fits = ground (
    arith,
    release_held index s,
    release_custom s,
    release_from-deadlock rounds (suc index) n s held on named,
  )

-- Unloading the module as root while a system call from 1 to NR_syscalls - 1 is intercepted never
-- returns: `exit_function` holds `calltable_lock` when it calls `my_syscall`, which takes it again.
pub exit_function-deadlock :
    (cfg : Config) (c : Caller) (s : Kernel) (n : ℕ)
    → c.uid ≡ 0
    → IsWellFormed cfg s
    → n ≢ 0
    → n < cfg.nr_syscalls
    → (s.table n).intercepted ≡ 1
    → exit_function cfg c s ≡ deadlock
unfolding exit_function
exit_function-deadlock cfg c s n root w named fits on = ground (
  arith,
  (w 0).quiet,
  release_from-deadlock cfg c root cfg.nr_syscalls 0 n (record s { calltable_lock = true }),
)

release_from-idle :
    (cfg : Config) (c : Caller) (rounds index : ℕ) (s : Kernel)
    → ((n : ℕ) → n < index + rounds → (s.table n).intercepted ≡ 0)
    → release_from cfg c rounds index s ≡ done tt s
unfolding release_from
release_from-idle cfg c zero index s off = refl
release_from-idle cfg c (suc rounds) index s off =
    rw (off index (omega arith))
      (release_from-idle cfg c rounds (suc index) s (λ n h. off n (omega arith)))

-- With nothing intercepted below NR_syscalls, unloading returns, with both locks free and the table
-- read-only, and gives the two system calls their handlers back: afterwards the kernel's own handler
-- stands at every number that is not intercepted.
pub exit_function-restores :
    (cfg : Config) (c : Caller) (s : Kernel) (j : ℕ)
    → IsWellFormed cfg s
    → ((n : ℕ) → n < cfg.nr_syscalls → (s.table n).intercepted ≡ 0)
    → (s.table j).intercepted ≡ 0
    → s.orig_custom_syscall ≡ Handler.original 0
    → s.orig_exit_group ≡ Handler.original cfg.nr_exit_group
    → Returns
        (exit_function cfg c s)
        (λ _ s'. (s'.sys_call_table j ≡ Handler.original j) × IsQuiet s')
unfolding exit_function
exit_function-restores cfg c s j w off off_j custom group = ground (
  arith,
  w j,
  release_from-idle cfg c cfg.nr_syscalls 0 (record s { calltable_lock = true })
      (λ n h. off n (omega arith)),
)
