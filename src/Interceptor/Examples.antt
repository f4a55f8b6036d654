-- ===== src/Interceptor/Examples.antt =====
-- Small kernels on which interceptor.c is run, and the theorems at them.
use cscc.Prelude.{ℕ, ◌≡◌, ◌&&◌, not, ◌<◌, Option, none, some, [], ◌∷◌, arith, refl}
use cscc.Prelude.{ℤ, pos, ◌==ℤ◌, ◌==◌, if◌then◌else◌, leb, ltb, length, ◌||◌, true, false}
use cscc.Interceptor.State.{Handler, Entry, Kernel, Caller, done, deadlock, ◌>>=◌}
use cscc.Interceptor.Pids.{
  Config, has_pid, e_inval, e_busy, my_exit_group, del_pid, del_from, sweep,
}
use cscc.Interceptor.Commands.{
  Regs, interceptor, my_syscall, check_request, check_pid, execute, intercept, release, start_pid,
  stop_pid,
}
use cscc.Interceptor.Commands.{request_intercept, request_start}
use cscc.Interceptor.Module.{exit_function}
use cscc.Interceptor.WellFormed.{Returns, base, IsHooked, IsWellFormed, IsWellFormedAt}
use cscc.Interceptor.Access.{IsRefusal, my_syscall-refused}
use cscc.Interceptor.Safety.{my_syscall-IsWellFormed}
use cscc.Interceptor.Hooks.{
  release-intercept, interceptor_lem, interceptor-stale, is_monitored, message,
}
use cscc.Interceptor.Monitoring.{is_listed, start_pid-listed, stop_pid-listed, stop_pid-mode}
use cscc.Interceptor.Exit.{my_exit_group-IsWellFormed}
use cscc.Interceptor.Load.{zeroed, exit_function-deadlock}

abbrev pub cfg : Config
cfg = record { nr_syscalls = 10; nr_exit_group = 7 }

-- Processes 42 of root and 50 of user 5 live.
abbrev owner : ℤ → Option ℕ
owner p = if p ==ℤ pos 42 then some 0 else if p ==ℤ pos 50 then some 5 else none

abbrev pub root : Caller
root = record { pid = pos 42; uid = 0; owner = owner; kmalloc = true }

abbrev pub user : Caller
user = record { pid = pos 50; uid = 5; owner = owner; kmalloc = true }

abbrev pub bare : Kernel
bare = record {
  sys_call_table = λ n. Handler.original n;
  page = record { rw = false; rest = 5 };
  table = λ _. zeroed;
  calltable_lock = false;
  pidlist_lock = false;
  orig_custom_syscall = Handler.null;
  orig_exit_group = Handler.null;
  log = [];
}

abbrev loaded : Kernel
loaded = record bare {
  sys_call_table = base cfg;
  orig_custom_syscall = Handler.original 0;
  orig_exit_group = Handler.original 7;
}

-- System call 3 is intercepted, and processes 42 and 50 are monitored there.
abbrev watched : Entry
watched = record {
  f = Handler.original 3;
  intercepted = 1;
  monitored = 1;
  listcount = pos 2;
  my_list = pos 50 ∷ pos 42 ∷ [];
}

abbrev busy : Kernel
busy = record loaded {
  sys_call_table = λ n. if n == 3 then Handler.interceptor else base cfg n;
  table = λ n. if n == 3 then watched else zeroed;
}

abbrev regs : Regs
regs = record { ax = 3; bx = 1; cx = 2; dx = 3; si = 4; di = 5; bp = 6 }

loaded-IsWellFormed : IsWellFormed cfg loaded
loaded-IsWellFormed n = ground arith

busy-IsWellFormed : IsWellFormed cfg busy
unfolding has_pid
busy-IsWellFormed n = ground arith

my_syscall-IsWellFormed_example :
    Returns
      (my_syscall cfg root request_intercept (pos 4) (pos 0) busy)
      (λ _ s'. IsWellFormed cfg s')
my_syscall-IsWellFormed_example =
    my_syscall-IsWellFormed cfg root request_intercept (pos 4) (pos 0) busy (λ e. cc)
      busy-IsWellFormed

my_syscall-refused_example :
    Returns
      (my_syscall cfg user request_start (pos 3) (pos 42) busy)
      (λ r s'. (s' ≡ busy) × IsRefusal cfg user request_start (pos 3) (pos 42) r)
my_syscall-refused_example =
    my_syscall-refused cfg user request_start (pos 3) (pos 42) busy (λ e. cc) (λ h. ground arith)

release-intercept_example :
    Returns {A = ℤ × ℤ}
      ((do first ← intercept 4; second ← release 4; done (first, second)) busy)
      (λ r s'. (r.0 ≡ pos 0) × (r.1 ≡ pos 0) × (s'.sys_call_table 4 ≡ busy.sys_call_table 4))
release-intercept_example = release-intercept cfg busy 4 4 busy-IsWellFormed refl

interceptor_lem_example : Returns (interceptor root regs busy) (λ h s'.
    (h ≡ base cfg 3)
    × (s'.log ≡ (if is_monitored busy 3 (pos 42) then message root regs ∷ [] else []))
    × (s'.sys_call_table ≡ busy.sys_call_table)
    × (s'.table 3 ≡ busy.table 3)
    × (s'.page ≡ busy.page)
    × (s'.calltable_lock ≡ busy.calltable_lock)
    × (s'.pidlist_lock ≡ busy.pidlist_lock)
    × (s'.orig_custom_syscall ≡ busy.orig_custom_syscall)
    × (s'.orig_exit_group ≡ busy.orig_exit_group))
interceptor_lem_example = interceptor_lem cfg root regs busy 3 busy-IsWellFormed refl

-- The same call just after it was released.
abbrev freed : Kernel
freed = record loaded { table = λ n. if n == 3 then record watched { intercepted = 0 } else zeroed }

freed-IsWellFormed : IsWellFormed cfg freed
unfolding has_pid
freed-IsWellFormed n = ground arith

interceptor-stale_example :
    Returns
      (interceptor root regs freed)
      (λ _ s'. (¬ IsHooked cfg s' 3) × (intercept 3 s' ≡ done e_busy s'))
interceptor-stale_example = interceptor-stale cfg root regs freed freed-IsWellFormed refl refl

start_pid-listed_example : Returns (start_pid root 4 (pos 50) busy) (λ r s'.
    (r ≡ (if is_listed busy 4 (pos 50) then e_busy else pos 0))
    × (is_listed s' 4 (pos 50) ≡ (is_listed busy 4 (pos 50) || (true && (true && true)))))
start_pid-listed_example = start_pid-listed cfg root busy 4 4 (pos 50) (pos 50) busy-IsWellFormed

stop_pid-listed_example : Returns (stop_pid 3 (pos 50) busy) (λ r s'.
    (r ≡ (if is_listed busy 3 (pos 50) then pos 0 else e_inval))
    × (is_listed s' 3 (pos 42) ≡ (is_listed busy 3 (pos 42) && not (true && false))))
stop_pid-listed_example = stop_pid-listed cfg root busy 3 3 (pos 50) (pos 42) busy-IsWellFormed

stop_pid-mode_example :
    Returns
      (stop_pid 3 (pos 50) busy)
      (λ _ s'. ((s'.table 3).monitored ≡ 0) × (0 < length (s'.table 3).my_list))
unfolding has_pid
stop_pid-mode_example =
    stop_pid-mode cfg root busy 3 (pos 50) busy-IsWellFormed refl refl (omega arith)

my_exit_group-IsWellFormed_example : Returns (my_exit_group cfg user busy) (λ h s'.
    (h ≡ Handler.original 7)
    × ((j : ℕ) → IsWellFormedAt cfg s' j)
    × ((j : ℕ) (q : ℤ)
        → has_pid q (s'.table j).my_list
          ≡ (has_pid q (busy.table j).my_list && not ((pos 50 ==ℤ q) && (leb 1 j && ltb j 10))))
    × ((j : ℕ)
        → ((s'.table j).f ≡ (busy.table j).f)
          × ((s'.table j).intercepted ≡ (busy.table j).intercepted)
          × (((has_pid (pos 50) (busy.table j).my_list && (leb 1 j && ltb j 10)) ≡ false)
              → s'.table j ≡ busy.table j))
    × (s'.sys_call_table ≡ busy.sys_call_table)
    × (s'.page ≡ busy.page)
    × (s'.calltable_lock ≡ busy.calltable_lock)
    × (s'.orig_custom_syscall ≡ busy.orig_custom_syscall)
    × (s'.orig_exit_group ≡ busy.orig_exit_group)
    × (s'.log ≡ busy.log))
my_exit_group-IsWellFormed_example =
    my_exit_group-IsWellFormed cfg user busy (λ e. cc) busy-IsWellFormed

exit_function-deadlock_example : exit_function cfg root busy ≡ deadlock
exit_function-deadlock_example =
    exit_function-deadlock cfg root busy 3 refl busy-IsWellFormed (omega arith) (omega arith) refl

-- A user may watch its own process; its exit takes it from the lists.
exit_run : Returns (my_exit_group cfg user busy) (λ _ s'. (s'.table 3).my_list ≡ pos 42 ∷ [])
unfolding my_exit_group del_pid del_from sweep
exit_run = refl

watch_run :
    Returns
      (my_syscall cfg user request_start (pos 4) (pos 50) loaded)
      (λ r s'. (r ≡ pos 0) × ((s'.table 4).my_list ≡ pos 50 ∷ []))
unfolding my_syscall check_request check_pid execute start_pid has_pid
watch_run = (refl, refl)
