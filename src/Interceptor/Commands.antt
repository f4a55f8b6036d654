-- ===== src/Interceptor/Commands.antt =====
-- `interceptor` and `my_syscall` of interceptor.c.
use cscc.Prelude.{ℕ, true, false, not, ◌&&◌, ◌||◌, Option, none, some, [], ◌∷◌}
use cscc.Prelude.{ℤ, pos, ◌==ℤ◌, is_neg, pos_part, ltb, ◌==◌, if◌then◌else◌}
use cscc.Interceptor.State.{Handler, Caller, M, ◌>>=◌, ◌>>◌, tail_call}
use cscc.Interceptor.State.{
  return, branch, get, modify, set_entry, set_call, set_addr_rw, set_addr_ro,
}
use cscc.Interceptor.State.{lock_calltable, unlock_calltable, lock_pidlist, unlock_pidlist}
use cscc.Interceptor.Pids.{Config, e_perm, e_busy, e_inval, add_pid_sysc, del_pid_sysc}
use cscc.Interceptor.Pids.{destroy_list, check_pid_from_list, check_pid_monitored}

-- `struct pt_regs`, the registers with the call's number and parameters.
pub record Regs : Type 0 where
  pub ax : ℕ
  pub bx : ℕ
  pub cx : ℕ
  pub dx : ℕ
  pub si : ℕ
  pub di : ℕ
  pub bp : ℕ

abbrev pub log_message : ℤ → Regs → M (Unit {0})
log_message pid r = modify (λ s. record s {
  log =
      record { sender = pid; call = r.ax; params = r.bx ∷ r.cx ∷ r.dx ∷ r.si ∷ r.di ∷ r.bp ∷ [] }
      ∷ s.log;
})

-- The saved handler, with which the call ends, is returned; a null pointer faults.
unfoldable pub interceptor : Caller → Regs → M Handler
interceptor c r = do
  listed ← check_pid_monitored r.ax c.pid
  mode ← get (λ s. (s.table r.ax).monitored)
  branch ((listed ==ℤ pos 1) || (mode == 2)) (log_message c.pid r) (return tt)
  modify (set_entry r.ax (λ e. record e { intercepted = 1 }))
  f ← get (λ s. (s.table r.ax).f)
  tail_call f

-- REQUEST_SYSCALL_INTERCEPT to REQUEST_STOP_MONITORING of interceptor.h.
abbrev pub request_intercept : ℤ
request_intercept = pos 1

abbrev pub request_release : ℤ
request_release = pos 2

abbrev pub request_start : ℤ
request_start = pos 3

abbrev pub request_stop : ℤ
request_stop = pos 4

abbrev pub my_custom_syscall : ℤ
my_custom_syscall = pos 0

-- The checks of the last two commands, on `pid`.
unfoldable pub check_pid : Caller → (pid : ℤ) → M (Option ℤ)
check_pid c pid =
    branch
      (is_neg pid || (not (pid ==ℤ pos 0) && (elim (c.owner pid) [ none ↦ true | some _ ↦ false ])))
      (return (some e_inval))
      (branch (c.uid == 0) (return none) (
        branch (pid ==ℤ pos 0) (return (some e_perm)) (do
          same ← check_pid_from_list c pid c.pid
          return (if same ==ℤ pos 0 then none else some e_perm))))

-- The checks before the switch, in order; `some e` is the early return of `e`.
unfoldable pub check_request : Config → Caller → (cmd syscall pid : ℤ) → M (Option ℤ)
check_request cfg c cmd syscall pid =
    branch
      (not (cmd ==ℤ request_intercept)
        && not (cmd ==ℤ request_release)
        && not (cmd ==ℤ request_start)
        && not (cmd ==ℤ request_stop))
      (return (some e_inval))
      (branch
        ((syscall ==ℤ my_custom_syscall)
          || is_neg syscall
          || ltb cfg.nr_syscalls (pos_part syscall))
        (return (some e_inval))
        (branch ((cmd ==ℤ request_intercept) || (cmd ==ℤ request_release))
          (return (if c.uid == 0 then none else some e_perm)) (check_pid c pid)))

unfoldable pub intercept : ℕ → M ℤ
intercept n = do
  state ← get (λ s. (s.table n).intercepted)
  branch (state == 1) (return e_busy) (do
    lock_calltable
    modify (λ s. set_entry n (λ e. record e { f = s.sys_call_table n }) s)
    modify (set_entry n (λ e. record e { intercepted = 1 }))
    set_addr_rw
    set_call n Handler.interceptor
    set_addr_ro
    unlock_calltable
    return (pos 0))

unfoldable pub release : ℕ → M ℤ
release n = do
  state ← get (λ s. (s.table n).intercepted)
  branch (state == 0) (return e_inval) (do
    lock_calltable
    set_addr_rw
    f ← get (λ s. (s.table n).f)
    set_call n f
    set_addr_ro
    modify (set_entry n (λ e. record e { intercepted = 0 }))
    unlock_calltable
    return (pos 0))

unfoldable pub start_pid : Caller → ℕ → ℤ → M ℤ
start_pid c n pid = do
  lock_pidlist
  lock_calltable
  listed ← check_pid_monitored n pid
  branch (listed ==ℤ pos 1) (do unlock_calltable; unlock_pidlist; return e_busy)
      (do
        unlock_pidlist
        modify (
            set_entry n (λ e. record e { monitored = if e.monitored == 0 then 1 else e.monitored }))
        lock_pidlist
        result ← add_pid_sysc c pid n
        unlock_pidlist
        unlock_calltable
        return result)

unfoldable pub start_all : ℕ → M ℤ
start_all n = do
  lock_calltable
  mode ← get (λ s. (s.table n).monitored)
  branch ((mode == 2) || (mode == 1)) (do unlock_calltable; return e_busy)
      (do modify (set_entry n (λ e. record e { monitored = 2 })); unlock_calltable; return (pos 0))

unfoldable pub stop_pid : ℕ → ℤ → M ℤ
stop_pid n pid = do
  lock_pidlist
  lock_calltable
  listed ← check_pid_monitored n pid
  branch (listed ==ℤ pos 0) (do unlock_calltable; unlock_pidlist; return e_inval)
      (do
        unlock_pidlist
        modify (set_entry n (λ e. record e { monitored = if e.monitored == 2 then 1 else 0 }))
        lock_pidlist
        result ← del_pid_sysc pid n
        unlock_calltable
        unlock_pidlist
        return result)

unfoldable pub stop_all : ℕ → M ℤ
stop_all n = do
  lock_calltable
  mode ← get (λ s. (s.table n).monitored)
  branch (mode == 2) (do destroy_list n; unlock_calltable; return (pos 0))
      (do unlock_calltable; return e_inval)

unfoldable pub stop : ℕ → ℤ → M ℤ
stop n pid = do
  lock_calltable
  state ← get (λ s. (s.table n).intercepted)
  unlock_calltable
  branch (state == 0) (return e_inval) (branch (pid ==ℤ pos 0) (stop_all n) (stop_pid n pid))

-- The switch.
unfoldable pub execute : Caller → ℤ → ℕ → ℤ → M ℤ
execute c cmd n pid = branch (cmd ==ℤ request_intercept) (intercept n) (
    branch (cmd ==ℤ request_release) (release n) (
      branch (cmd ==ℤ request_start) (branch (pid ==ℤ pos 0) (start_all n) (start_pid c n pid))
        (branch (cmd ==ℤ request_stop) (stop n pid) (return (pos 0)))))

unfoldable pub my_syscall : Config → Caller → (cmd syscall pid : ℤ) → M ℤ
my_syscall cfg c cmd syscall pid = do
  early ← check_request cfg c cmd syscall pid
  elim early [ some e ↦ return e | none ↦ execute c cmd (pos_part syscall) pid ]
