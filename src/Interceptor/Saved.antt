-- ===== src/Interceptor/Saved.antt =====
-- No call of the loaded module touches the two handlers that it saved.
use cscc.Prelude.{ℕ, ◌≡◌, arith, ℤ}
use cscc.Interceptor.State.{Kernel, Caller, Outcome, done, deadlock, oops}
use cscc.Interceptor.Pids.{Config, my_exit_group, del_pid}
use cscc.Interceptor.Commands.{
  Regs, intercept, release, start_pid, start_all, stop_pid, stop_all, stop, execute, interceptor,
}

-- What holds of the state after a call, if it returns.
abbrev pub After : {A : Type 0} → Outcome A → (Kernel → Type 0) → Type 0
After (done a s) P = P s
After deadlock P = Unit
After oops P = Unit

-- Both states have the same saved handlers.
abbrev pub IsSaved : Kernel → Kernel → Type 0
IsSaved s s' =
    (s'.orig_custom_syscall ≡ s.orig_custom_syscall) × (s'.orig_exit_group ≡ s.orig_exit_group)

module _ (c : Caller) (s : Kernel) (n : ℕ) (pid : ℤ) where
  intercept-IsSaved : After (intercept n s) (IsSaved s)
  unfolding intercept
  intercept-IsSaved = ground arith

  release-IsSaved : After (release n s) (IsSaved s)
  unfolding release
  release-IsSaved = ground arith

  start_pid-IsSaved : After (start_pid c n pid s) (IsSaved s)
  unfolding start_pid
  start_pid-IsSaved = ground arith

  start_all-IsSaved : After (start_all n s) (IsSaved s)
  unfolding start_all
  start_all-IsSaved = ground arith

  stop-IsSaved : After (stop n pid s) (IsSaved s)
  unfolding stop stop_pid stop_all
  stop-IsSaved = ground arith

  pub execute-IsSaved : (cmd : ℤ) → After (execute c cmd n pid s) (IsSaved s)
  unfolding execute
  execute-IsSaved cmd = ground (
    arith, intercept-IsSaved, release-IsSaved, start_pid-IsSaved, start_all-IsSaved, stop-IsSaved,
  )

pub interceptor-IsSaved :
    (c : Caller) (r : Regs) (s : Kernel) → After (interceptor c r s) (IsSaved s)
unfolding interceptor
interceptor-IsSaved c r s = ground arith

pub my_exit_group-IsSaved :
    (cfg : Config) (c : Caller) (s : Kernel) → After (my_exit_group cfg c s) (IsSaved s)
unfolding my_exit_group del_pid
my_exit_group-IsSaved cfg c s = ground arith
