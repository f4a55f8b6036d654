-- ===== src/Interceptor/Access.antt =====
-- The checks of `my_syscall` before its switch: who may ask for what.
use cscc.Prelude.{subst, ◌≡◌, ◌≢◌, ◌⊎◌, ◌<◌, ◌≤◌, false, Option, none, some, arith, refl, sym}
use cscc.Prelude.{ℤ, pos, pos_part, is_neg}
use cscc.Interceptor.State.{Kernel, Caller, M, return}
use cscc.Interceptor.Pids.{Config, e_inval, e_perm}
use cscc.Interceptor.Commands.{check_pid, check_request, execute, my_syscall}
use cscc.Interceptor.Commands.{request_intercept, request_release, request_start, request_stop}
use cscc.Interceptor.WellFormed.{Returns, Returns-bind}

-- A known command.
abbrev pub IsCommand : ℤ → Type 0
IsCommand cmd =
    (cmd ≡ request_intercept)
    ⊎ (cmd ≡ request_release)
    ⊎ (cmd ≡ request_start)
    ⊎ (cmd ≡ request_stop)

-- A system call that may be named: from 1 to `NR_syscalls`.
abbrev pub IsCall : Config → ℤ → Type 0
IsCall cfg syscall =
    (is_neg syscall ≡ false) × (0 < pos_part syscall) × (pos_part syscall ≤ cfg.nr_syscalls)

-- Root may do all; another user may start and stop the monitoring of a process of its own.
abbrev pub IsPermitted : Caller → (cmd pid : ℤ) → Type 0
IsPermitted c cmd pid =
    (c.uid ≡ 0)
    ⊎ (((cmd ≡ request_start) ⊎ (cmd ≡ request_stop))
        × (pid ≢ pos 0)
        × (c.owner pid ≢ none)
        × (c.owner pid ≡ c.owner c.pid))

-- A pid that may be named: 0, which is all processes, or that of a live process. The two commands on
-- the table do not look at it.
abbrev pub IsPid : Caller → (cmd pid : ℤ) → Type 0
IsPid c cmd pid =
    ((cmd ≡ request_intercept) ⊎ (cmd ≡ request_release))
    ⊎ ((is_neg pid ≡ false) × ((pid ≡ pos 0) ⊎ (c.owner pid ≢ none)))

-- A request with arguments that make sense.
abbrev pub IsValidRequest : Config → Caller → (cmd syscall pid : ℤ) → Type 0
IsValidRequest cfg c cmd syscall pid = IsCommand cmd × IsCall cfg syscall × IsPid c cmd pid

-- Invalid arguments are refused with -EINVAL, and valid ones of a caller without permission with
-- -EPERM.
abbrev pub IsRefusal : Config → Caller → (cmd syscall pid : ℤ) → (e : ℤ) → Type 0
IsRefusal cfg c cmd syscall pid e =
    ((¬ IsValidRequest cfg c cmd syscall pid) × (e ≡ e_inval))
    ⊎ (IsValidRequest cfg c cmd syscall pid × (¬ IsPermitted c cmd pid) × (e ≡ e_perm))

-- What the result of the checks says.
abbrev pub Verdict : Config → Caller → (cmd syscall pid : ℤ) → Option ℤ → Type 0
Verdict cfg c cmd syscall pid none = IsValidRequest cfg c cmd syscall pid × IsPermitted c cmd pid
Verdict cfg c cmd syscall pid (some e) = IsRefusal cfg c cmd syscall pid e

-- The checks change nothing, and pass exactly the valid requests of a permitted caller.
pub check_request_lem :
    (cfg : Config) (c : Caller) (cmd syscall pid : ℤ) (s : Kernel)
    → c.owner c.pid ≢ none
    → Returns
        (check_request cfg c cmd syscall pid s)
        (λ o s'. (s' ≡ s) × Verdict cfg c cmd syscall pid o)
unfolding check_request check_pid
check_request_lem cfg c cmd syscall pid s alive = ground arith

-- The rule for a request: what holds after a refusal, and after the switch on an accepted request,
-- holds after the call.
pub my_syscall_rule :
    (cfg : Config) (c : Caller) (cmd syscall pid : ℤ) (s : Kernel) (P : ℤ → Kernel → Type 0)
    → c.owner c.pid ≢ none
    → ((e : ℤ) → IsRefusal cfg c cmd syscall pid e → P e s)
    → (IsValidRequest cfg c cmd syscall pid × IsPermitted c cmd pid
        → Returns (execute c cmd (pos_part syscall) pid s) P)
    → Returns (my_syscall cfg c cmd syscall pid s) P
unfolding my_syscall
my_syscall_rule cfg c cmd syscall pid s P alive refused accepted =
    Returns-bind (λ o s'. (s' ≡ s) × Verdict cfg c cmd syscall pid o) P
      (check_request cfg c cmd syscall pid s)
      (λ early. elim early [ some e ↦ return e | none ↦ execute c cmd (pos_part syscall) pid ])
      (check_request_lem cfg c cmd syscall pid s alive) go
  where
    go :
        (early : Option ℤ) (s' : Kernel)
        → (s' ≡ s) × Verdict cfg c cmd syscall pid early
        → Returns
            ((elim early as (λ _. M ℤ) [
              | some e ↦ return e
              | none ↦ execute c cmd (pos_part syscall) pid
            ])
              s')
            P
    go (some e) s' (same, h) = subst (P e) (sym same) (refused e h)
    go none s' (same, h) =
        subst (λ t. Returns (execute c cmd (pos_part syscall) pid t) P) (sym same) (accepted h)

-- A request that is invalid or not permitted leaves the state of the module and of the kernel as it
-- was. The call returns -EINVAL for an unknown command, for a system call that is not from 1 to
-- NR_syscalls, and, with the two commands for monitoring, for a pid that is negative or of no live
-- process, whoever calls; and -EPERM for a valid request of a user who is not root, other than to
-- start or stop the monitoring of a process of its own.
pub my_syscall-refused :
    (cfg : Config) (c : Caller) (cmd syscall pid : ℤ) (s : Kernel)
    → c.owner c.pid ≢ none
    → ¬ (IsValidRequest cfg c cmd syscall pid × IsPermitted c cmd pid)
    → Returns
        (my_syscall cfg c cmd syscall pid s)
        (λ r s'. (s' ≡ s) × IsRefusal cfg c cmd syscall pid r)
my_syscall-refused cfg c cmd syscall pid s alive no_right =
    my_syscall_rule cfg c cmd syscall pid s _ alive (λ e h. (refl, h)) (λ h. absurd (no_right h))
