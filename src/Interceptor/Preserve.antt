-- ===== src/Interceptor/Preserve.antt =====
-- Every command of `my_syscall` returns and keeps the state well formed.
use cscc.Prelude.{refl, subst, ℕ, ◌≡◌, ◌≤◌, Bool, true, false, List, Option, none, some, arith}
use cscc.Prelude.{ℤ, pos, ◌==◌, ◌==ℤ◌, if◌then◌else◌, update}
use cscc.Interceptor.State.{Entry, Kernel, Caller, done, branch, return}
use cscc.Interceptor.Pids.{Config, has_pid, unlink_first, unlinked, e_inval}
use cscc.Interceptor.Commands.{
  intercept, release, start_pid, start_all, stop_pid, stop_all, stop, execute,
}
use cscc.Interceptor.Commands.{request_intercept, request_release, request_start, request_stop}
use cscc.Interceptor.Unlink.{Unlinked, unlink_first-Unlinked}
use cscc.Interceptor.WellFormed.{IsCounted, Returns, IsWellFormedAt}

-- An entry whose list lost a node for `pid` by `unlink_first` is still counted right.
IsCounted-unlinked :
    (pid : ℤ) (e : Entry) (mode : ℕ) (r : List ℤ)
    → mode ≤ 2
    → IsCounted e
    → unlink_first pid e.my_list ≡ some r
    → IsCounted (record (unlinked (record e { monitored = mode })) { my_list = r })
IsCounted-unlinked pid e mode r m h u =
    let facts : Unlinked pid e.my_list (some r) =
      subst (Unlinked pid e.my_list) u (unlink_first-Unlinked pid e.my_list) in
    record {
      counted = ground (arith, facts.1);
      distinct = (facts.3 h.distinct).0;
      mode = ground arith;
    }

pub listed : (pid : ℤ) (xs r : List ℤ) → unlink_first pid xs ≡ some r → has_pid pid xs ≡ true
listed pid xs r e = (subst (Unlinked pid xs) e (unlink_first-Unlinked pid xs)).0

pub absent : (pid : ℤ) (xs : List ℤ) → unlink_first pid xs ≡ none → has_pid pid xs ≡ false
absent pid xs e = subst (Unlinked pid xs) e (unlink_first-Unlinked pid xs)

module _ (cfg : Config) (c : Caller) (s : Kernel) (n j : ℕ) (h : IsWellFormedAt cfg s j)
    (k : IsWellFormedAt cfg s n) where
  intercept-IsWellFormedAt : Returns (intercept n s) (λ r s'. IsWellFormedAt cfg s' j)
  unfolding intercept
  intercept-IsWellFormedAt = ground arith

  release-IsWellFormedAt : Returns (release n s) (λ r s'. IsWellFormedAt cfg s' j)
  unfolding release
  release-IsWellFormedAt = ground arith

  start_pid-IsWellFormedAt :
      (pid : ℤ) → Returns (start_pid c n pid s) (λ r s'. IsWellFormedAt cfg s' j)
  unfolding start_pid
  start_pid-IsWellFormedAt pid = ground arith

  start_all-IsWellFormedAt : Returns (start_all n s) (λ r s'. IsWellFormedAt cfg s' j)
  unfolding start_all
  start_all-IsWellFormedAt = ground arith

  stop_all-IsWellFormedAt : Returns (stop_all n s) (λ r s'. IsWellFormedAt cfg s' j)
  unfolding stop_all
  stop_all-IsWellFormedAt = ground arith

  -- The state in which `stop_pid` leaves the table of the module.
  abbrev pub stopped : ℕ → List ℤ → Kernel
  stopped mode r = record s {
    table =
        update (update s.table n (record (s.table n) { monitored = mode })) n
          (record (unlinked (record (s.table n) { monitored = mode })) { my_list = r });
    calltable_lock = false;
    pidlist_lock = false;
  }

  pub stop_pid_listed :
      (pid : ℤ) (r : List ℤ)
      → has_pid pid (s.table n).my_list ≡ true
      → unlink_first pid (s.table n).my_list ≡ some r
      → stop_pid n pid s ≡ done (pos 0) (stopped (if (s.table n).monitored == 2 then 1 else 0) r)
  unfolding stop_pid
  stop_pid_listed pid r listed e = ground arith

  pub stop_pid_absent :
      (pid : ℤ)
      → has_pid pid (s.table n).my_list ≡ false
      → stop_pid n pid s ≡ done e_inval (record s { calltable_lock = false; pidlist_lock = false })
  unfolding stop_pid
  stop_pid_absent pid absent = ground arith

  stopped-IsWellFormedAt :
      (mode : ℕ) (r : List ℤ)
      → IsCounted (record (unlinked (record (s.table n) { monitored = mode })) { my_list = r })
      → IsWellFormedAt cfg (stopped mode r) j
  stopped-IsWellFormedAt mode r counted = ground arith

  stop_pid-IsWellFormedAt : (pid : ℤ) → Returns (stop_pid n pid s) (λ r s'. IsWellFormedAt cfg s' j)
  stop_pid-IsWellFormedAt pid = go (unlink_first pid (s.table n).my_list) refl
    where
      mode : ℕ
      mode = if (s.table n).monitored == 2 then 1 else 0

      go :
          (o : Option (List ℤ))
          → unlink_first pid (s.table n).my_list ≡ o
          → Returns (stop_pid n pid s) (λ r s'. IsWellFormedAt cfg s' j)
      go none e = rw (stop_pid_absent pid (absent pid (s.table n).my_list e)) (ground arith)
      go (some r) e = rw (stop_pid_listed pid r (listed pid (s.table n).my_list r e) e) (
          stopped-IsWellFormedAt mode r
            (IsCounted-unlinked pid (s.table n) mode r (ground arith) k.counted e))

-- `stop` with the locks free is a choice between its three ends.
stop_lem :
    (n : ℕ) (pid : ℤ) (s : Kernel)
    → s.calltable_lock ≡ false
    → stop n pid s
      ≡ branch
          ((s.table n).intercepted == 0)
          (return e_inval)
          (branch (pid ==ℤ pos 0) (stop_all n) (stop_pid n pid))
          (record s { calltable_lock = false })
unfolding stop
stop_lem n pid s free = ground arith

module _ (cfg : Config) (c : Caller) (s : Kernel) (n j : ℕ) where
  stop-IsWellFormedAt :
      (pid : ℤ)
      → IsWellFormedAt cfg s j
      → IsWellFormedAt cfg s n
      → Returns (stop n pid s) (λ _ s'. IsWellFormedAt cfg s' j)
  stop-IsWellFormedAt pid h k =
      rw (stop_lem n pid s h.quiet.calltable_free)
        (go ((s.table n).intercepted == 0) (pid ==ℤ pos 0))
    where
      freed : Kernel
      freed = record s { calltable_lock = false }

      at : (i : ℕ) → IsWellFormedAt cfg s i → IsWellFormedAt cfg freed i
      at i w = ground arith

      go :
          (off all : Bool)
          → Returns
              (branch off (return e_inval) (branch all (stop_all n) (stop_pid n pid)) freed)
              (λ _ s'. IsWellFormedAt cfg s' j)
      go true all = at j h
      go false true = stop_all-IsWellFormedAt cfg c freed n j (at j h) (at n k)
      go false false = stop_pid-IsWellFormedAt cfg c freed n j (at j h) (at n k) pid

  pub execute-IsWellFormedAt :
      (cmd pid : ℤ)
      → IsWellFormedAt cfg s j
      → IsWellFormedAt cfg s n
      → Returns (execute c cmd n pid s) (λ _ s'. IsWellFormedAt cfg s' j)
  unfolding execute
  execute-IsWellFormedAt cmd pid h k =
      go (cmd ==ℤ request_intercept) (cmd ==ℤ request_release) (cmd ==ℤ request_start)
        (cmd ==ℤ request_stop) (pid ==ℤ pos 0)
    where
      go :
          (is_intercept is_release is_start is_stop all : Bool)
          → Returns
              (branch is_intercept
                (intercept n)
                (branch is_release (release n) (
                  branch is_start
                    (branch all (start_all n) (start_pid c n pid))
                    (branch is_stop (stop n pid) (return (pos 0)))))
                s)
              (λ _ s'. IsWellFormedAt cfg s' j)
      go true _ _ _ _ = intercept-IsWellFormedAt cfg c s n j h k
      go false true _ _ _ = release-IsWellFormedAt cfg c s n j h k
      go false false true _ true = start_all-IsWellFormedAt cfg c s n j h k
      go false false true _ false = start_pid-IsWellFormedAt cfg c s n j h k pid
      go false false false true _ = stop-IsWellFormedAt pid h k
      go false false false false _ = h
