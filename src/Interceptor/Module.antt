-- ===== src/Interceptor/Module.antt =====
-- `init_function` and `exit_function` of interceptor.c.
use cscc.Prelude.{ℕ, zero, suc, ℤ, pos, ◌==◌, [], update}
use cscc.Interceptor.State.{Handler, Entry, Caller, M, ◌>>=◌, ◌>>◌, return, branch, get, modify}
use cscc.Interceptor.State.{set_call, set_addr_rw, set_addr_ro}
use cscc.Interceptor.State.{lock_calltable, unlock_calltable, lock_pidlist, unlock_pidlist}
use cscc.Interceptor.Pids.{Config}
use cscc.Interceptor.Commands.{my_syscall, request_release}

abbrev pub reset_entry : Entry → Entry
reset_entry e = record e { intercepted = 0; monitored = 0; listcount = pos 0; my_list = [] }

-- The loop that fills the table in, over `rounds` entries from `index` on.
unfoldable pub fill : (rounds index : ℕ) → (ℕ → Entry) → ℕ → Entry
fill zero index t = t
fill (suc rounds) index t = fill rounds (suc index) (update t index (reset_entry (t index)))

unfoldable pub init_function : Config → M ℤ
unfolding fill
init_function cfg = do
  lock_calltable
  modify (λ s. record s { orig_custom_syscall = s.sys_call_table 0 })
  modify (λ s. record s { orig_exit_group = s.sys_call_table cfg.nr_exit_group })
  set_addr_rw
  set_call 0 Handler.my_syscall
  set_call cfg.nr_exit_group Handler.my_exit_group
  set_addr_ro
  lock_pidlist
  modify (λ s. record s { table = fill cfg.nr_syscalls 1 s.table })
  unlock_pidlist
  unlock_calltable
  return (pos 0)

-- The loop of `exit_function`; the result of `my_syscall` is not read.
unfoldable pub release_from : Config → Caller → (rounds index : ℕ) → M (Unit {0})
release_from cfg c zero index = return tt
release_from cfg c (suc rounds) index =
    let rest = release_from cfg c rounds (suc index) in
    (do
      state ← get (λ s. (s.table index).intercepted)
      branch (state == 1) (do _ ← my_syscall cfg c request_release (pos index) (pos index); rest)
          rest)

unfoldable pub exit_function : Config → Caller → M (Unit {0})
unfolding release_from
exit_function cfg c = do
  lock_calltable
  release_from cfg c cfg.nr_syscalls 0
  set_addr_rw
  custom ← get (λ s. s.orig_custom_syscall)
  set_call 0 custom
  group ← get (λ s. s.orig_exit_group)
  set_call cfg.nr_exit_group group
  set_addr_ro
  unlock_calltable
