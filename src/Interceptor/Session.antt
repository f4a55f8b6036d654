-- ===== src/Interceptor/Session.antt =====
-- A session: the module is loaded, call 4 is intercepted and released, and a process exits.
use cscc.Prelude.{ℕ, ◌≡◌, arith, refl, pos}
use cscc.Interceptor.State.{Handler, Kernel, Outcome, done, deadlock, oops}
use cscc.Interceptor.Pids.{my_exit_group}
use cscc.Interceptor.Commands.{my_syscall, request_intercept, request_release}
use cscc.Interceptor.Module.{init_function, exit_function}
use cscc.Interceptor.WellFormed.{Returns, IsQuiet}
use cscc.Interceptor.Load.{IsUnloaded, zeroed, fill_lem}
use cscc.Interceptor.Reach.{
  Reach, IsLoaded, load, later, request, exit, Reach-IsLoaded, Reach-unloads,
}
use cscc.Interceptor.Examples.{cfg, root, user, bare}

-- The state that a call leaves.
abbrev left : {A : Type 0} → Outcome A → Kernel
left (done a s) = s
left deadlock = bare
left oops = bare

bare-IsUnloaded : IsUnloaded bare
bare-IsUnloaded = record { quiet = ground arith; calls = λ n. refl; zero_table = λ n. refl }

abbrev begun : Kernel
begun = left (init_function cfg bare)

abbrev hooked : Kernel
hooked = left (my_syscall cfg root request_intercept (pos 4) (pos 0) begun)

abbrev unhooked : Kernel
unhooked = left (my_syscall cfg root request_release (pos 4) (pos 0) hooked)

abbrev ended : Kernel
ended = left (my_exit_group cfg user unhooked)

unhooked-Reach : Reach cfg unhooked
unfolding init_function my_syscall cscc.Interceptor.Module.fill
    cscc.Interceptor.Commands.check_request cscc.Interceptor.Commands.execute
    cscc.Interceptor.Commands.intercept cscc.Interceptor.Commands.release
unhooked-Reach =
    later
      (later (load (pos 0) bare-IsUnloaded refl)
        (request root request_intercept (pos 4) (pos 0) (pos 0) (λ e. cc) refl))
      (request root request_release (pos 4) (pos 0) (pos 0) (λ e. cc) refl)

ended-Reach : Reach cfg ended
unfolding my_exit_group my_syscall cscc.Interceptor.Commands.check_request
    cscc.Interceptor.Commands.execute cscc.Interceptor.Commands.release
    cscc.Interceptor.Commands.intercept init_function
ended-Reach = later unhooked-Reach (exit user (Handler.original 7) refl)

Reach-IsLoaded_example : IsLoaded cfg ended
Reach-IsLoaded_example = Reach-IsLoaded cfg ended (λ e. omega arith) ended-Reach

begun-free : (n : ℕ) → (begun.table n).intercepted ≡ 0
unfolding init_function
begun-free n = ground (arith, fill_lem 10 1 (λ _. zeroed) n)

unhooked-free : (n : ℕ) → (unhooked.table n).intercepted ≡ 0
unfolding init_function my_syscall cscc.Interceptor.Module.fill
    cscc.Interceptor.Commands.check_request cscc.Interceptor.Commands.execute
    cscc.Interceptor.Commands.intercept cscc.Interceptor.Commands.release
unhooked-free n = ground (arith, begun-free n)

Reach-unloads_example :
    Returns
      (exit_function cfg root unhooked)
      (λ _ s'. (s'.sys_call_table 4 ≡ Handler.original 4) × IsQuiet s')
Reach-unloads_example =
    Reach-unloads cfg root unhooked 4 (λ e. omega arith) unhooked-Reach (λ n lt. unhooked-free n)
      (unhooked-free 4)
