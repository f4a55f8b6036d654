-- ===== src/Interceptor/Monitoring.antt =====
-- Which processes are monitored, before and after the commands that start and stop it.
use cscc.Prelude.{length, ◌<◌, ℕ, ◌≡◌, ◌||◌, ◌&&◌, not, List, none, some, arith}
use cscc.Prelude.{refl, subst, ℤ, pos, ◌==◌, ◌==ℤ◌, ==ℤ_iff, if◌then◌else◌, Option, Bool, true}
use cscc.Interceptor.State.{Kernel, Caller}
use cscc.Interceptor.Pids.{Config, has_pid, unlink_first, e_busy, e_nomem, e_inval}
use cscc.Interceptor.Commands.{start_pid, stop_pid}
use cscc.Interceptor.WellFormed.{Returns, IsWellFormed}
use cscc.Interceptor.Unlink.{Unlinked, unlink_first-Unlinked}
use cscc.Interceptor.Preserve.{stop_pid_listed, stop_pid_absent, listed, absent}

-- Is `pid` in the list of system call `n`?
abbrev pub is_listed : Kernel → ℕ → ℤ → Bool
is_listed s n pid = has_pid pid (s.table n).my_list

has_pid_congr : (p q : ℤ) (xs : List ℤ) → (p ==ℤ q) ≡ true → has_pid q xs ≡ has_pid p xs
has_pid_congr p q xs e = rw ((==ℤ_iff p q).0 e)

-- A request to monitor one process at system call `n`: -EBUSY if it is listed there already, -ENOMEM
-- if the kernel has no memory, else 0. The lists have just this process more, and only where the
-- result is 0 or the process was listed before.
pub start_pid-listed :
    (cfg : Config) (c : Caller) (s : Kernel) (n j : ℕ) (pid q : ℤ)
    → IsWellFormed cfg s
    → Returns (start_pid c n pid s) (λ r s'.
      (r ≡ (if is_listed s n pid then e_busy else if c.kmalloc then pos 0 else e_nomem))
      × (is_listed s' j q ≡ (is_listed s j q || (c.kmalloc && ((j == n) && (pid ==ℤ q))))))
unfolding start_pid has_pid
start_pid-listed cfg c s n j pid q w = ground (arith, (w n).quiet, ==ℤ_iff pid q)

-- A request to stop the monitoring of one process: -EINVAL if it is not listed, else 0; and after
-- it the lists have all processes but this one at `n`.
pub stop_pid-listed :
    (cfg : Config) (c : Caller) (s : Kernel) (n j : ℕ) (pid q : ℤ)
    → IsWellFormed cfg s
    → Returns (stop_pid n pid s) (λ r s'.
      (r ≡ (if is_listed s n pid then pos 0 else e_inval))
      × (is_listed s' j q ≡ (is_listed s j q && not ((j == n) && (pid ==ℤ q)))))
stop_pid-listed cfg c s n j pid q w = go (unlink_first pid (s.table n).my_list) refl
  where
    mode : ℕ
    mode = if (s.table n).monitored == 2 then 1 else 0

    go :
        (o : Option (List ℤ))
        → unlink_first pid (s.table n).my_list ≡ o
        → Returns (stop_pid n pid s) (λ r s'.
          (r ≡ (if is_listed s n pid then pos 0 else e_inval))
          × (is_listed s' j q ≡ (is_listed s j q && not ((j == n) && (pid ==ℤ q)))))
    go none e =
        let gone = absent pid (s.table n).my_list e in
        rw (stop_pid_absent cfg c s n n (w n) (w n) pid gone) (ground (arith, ==ℤ_iff pid q))
    go (some r) e =
        let here = listed pid (s.table n).my_list r e in
        let facts : Unlinked pid (s.table n).my_list (some r) =
          subst (Unlinked pid (s.table n).my_list) e
            (unlink_first-Unlinked pid (s.table n).my_list) in
        rw (stop_pid_listed cfg c s n n (w n) (w n) pid r here e) (
          ground
            (arith, facts.2 q, (facts.3 (w n).counted.distinct).1, ==ℤ_iff pid q, ==ℤ_iff q pid))

-- Stopping one of several monitored processes, with the monitoring in mode 1, sets the mode to 0
-- though a process is still in the list.
pub stop_pid-mode :
    (cfg : Config) (c : Caller) (s : Kernel) (n : ℕ) (pid : ℤ)
    → IsWellFormed cfg s
    → (s.table n).monitored ≡ 1
    → is_listed s n pid ≡ true
    → 1 < length (s.table n).my_list
    → Returns
        (stop_pid n pid s)
        (λ _ s'. ((s'.table n).monitored ≡ 0) × (0 < length (s'.table n).my_list))
stop_pid-mode cfg c s n pid w one here many = go (unlink_first pid (s.table n).my_list) refl
  where
    go :
        (o : Option (List ℤ))
        → unlink_first pid (s.table n).my_list ≡ o
        → Returns
            (stop_pid n pid s)
            (λ _ s'. ((s'.table n).monitored ≡ 0) × (0 < length (s'.table n).my_list))
    go none e = let gone = absent pid (s.table n).my_list e in cc
    go (some r) e =
        let facts : Unlinked pid (s.table n).my_list (some r) =
          subst (Unlinked pid (s.table n).my_list) e
            (unlink_first-Unlinked pid (s.table n).my_list) in
        rw (stop_pid_listed cfg c s n n (w n) (w n) pid r here e) (ground (arith, facts.1))
