-- ===== src/Interceptor/Hooks.antt =====
-- Interception and release of a system call, and the interceptor that runs in between.
use cscc.Prelude.{ℕ, ◌≡◌, ◌||◌, Bool, [], ◌∷◌, ℤ, pos, ◌==◌, arith}
use cscc.Prelude.{if◌then◌else◌}
use cscc.Interceptor.State.{Message, Kernel, Caller, done, ◌>>=◌}
use cscc.Interceptor.Pids.{Config, has_pid, e_busy}
use cscc.Interceptor.Commands.{Regs, interceptor, intercept, release}
use cscc.Interceptor.WellFormed.{Returns, base, IsHooked, IsWellFormed}

-- Intercepting a system call that is not intercepted, and releasing it, both succeed, and the
-- system call table is as it was, at every number `j`.
pub release-intercept :
    (cfg : Config) (s : Kernel) (n j : ℕ)
    → IsWellFormed cfg s
    → (s.table n).intercepted ≡ 0
    → Returns {A = ℤ × ℤ}
        ((do first ← intercept n; second ← release n; done (first, second)) s)
        (λ r s'. (r.0 ≡ pos 0) × (r.1 ≡ pos 0) × (s'.sys_call_table j ≡ s.sys_call_table j))
unfolding intercept release
release-intercept cfg s n j w off = ground (arith, w n)

-- Which processes the interceptor logs: those of the list, or all in mode 2.
abbrev pub is_monitored : Kernel → ℕ → ℤ → Bool
is_monitored s n pid = has_pid pid (s.table n).my_list || ((s.table n).monitored == 2)

abbrev pub message : Caller → Regs → Message
message c r = record {
  sender = c.pid;
  call = r.ax;
  params = r.bx ∷ r.cx ∷ r.dx ∷ r.si ∷ r.di ∷ r.bp ∷ [];
}

-- The interceptor of an intercepted call ends in the handler that the call had before, logs one
-- line exactly if the process is monitored, and changes nothing else: not the system call table and its
-- page, no entry of the module's table, no lock, and neither of the two saved handlers.
pub interceptor_lem :
    (cfg : Config) (c : Caller) (r : Regs) (s : Kernel) (j : ℕ)
    → IsWellFormed cfg s
    → (s.table r.ax).intercepted ≡ 1
    → Returns (interceptor c r s) (λ h s'.
      (h ≡ base cfg r.ax)
      × (s'.log ≡ (if is_monitored s r.ax c.pid then message c r ∷ s.log else s.log))
      × (s'.sys_call_table ≡ s.sys_call_table)
      × (s'.table j ≡ s.table j)
      × (s'.page ≡ s.page)
      × (s'.calltable_lock ≡ s.calltable_lock)
      × (s'.pidlist_lock ≡ s.pidlist_lock)
      × (s'.orig_custom_syscall ≡ s.orig_custom_syscall)
      × (s'.orig_exit_group ≡ s.orig_exit_group))
unfolding interceptor
interceptor_lem cfg c r s j w on = ground (arith, w r.ax)

-- An interceptor that was entered before its system call was released, and runs after that, marks
-- the call as intercepted though its handler is back: the state is no longer well formed there, and
-- a request to intercept the call that comes next returns -EBUSY and changes nothing.
pub interceptor-stale :
    (cfg : Config) (c : Caller) (r : Regs) (s : Kernel)
    → IsWellFormed cfg s
    → (s.table r.ax).intercepted ≡ 0
    → (s.table r.ax).f ≡ base cfg r.ax
    → Returns
        (interceptor c r s)
        (λ _ s'. (¬ IsHooked cfg s' r.ax) × (intercept r.ax s' ≡ done e_busy s'))
unfolding interceptor intercept
interceptor-stale cfg c r s w off saved = ground (arith, w r.ax)
