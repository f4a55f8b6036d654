-- ===== src/Interceptor/Safety.antt =====
-- `my_syscall` as a whole: it always returns, and keeps the state well formed.
use cscc.Prelude.{◌≢◌, none, ℤ, pos_part}
use cscc.Interceptor.State.{Kernel, Caller}
use cscc.Interceptor.Pids.{Config}
use cscc.Interceptor.Commands.{execute, my_syscall}
use cscc.Interceptor.WellFormed.{Returns, Returns-all, IsWellFormedAt, IsWellFormed}
use cscc.Interceptor.Preserve.{execute-IsWellFormedAt}
use cscc.Interceptor.Access.{my_syscall_rule}

-- From a well-formed state every call of `my_syscall`, with any arguments, by a live process,
-- returns: no lock is taken twice, no store hits the read-only table. The state it leaves is well
-- formed again: both locks are free, the table is read-only, each system call has its own handler
-- or is intercepted with that handler saved, and each list is counted right and has no pid twice.
pub my_syscall-IsWellFormed :
    (cfg : Config) (c : Caller) (cmd syscall pid : ℤ) (s : Kernel)
    → c.owner c.pid ≢ none
    → IsWellFormed cfg s
    → Returns (my_syscall cfg c cmd syscall pid s) (λ _ s'. IsWellFormed cfg s')
my_syscall-IsWellFormed cfg c cmd syscall pid s alive w =
    my_syscall_rule cfg c cmd syscall pid s (λ _ s'. IsWellFormed cfg s') alive (λ _ _. w)
      λ _.
        Returns-all (λ _ s' j. IsWellFormedAt cfg s' j) (execute c cmd (pos_part syscall) pid s)
          λ j.
            execute-IsWellFormedAt cfg c s (pos_part syscall) j cmd pid (w j) (w (pos_part syscall))
