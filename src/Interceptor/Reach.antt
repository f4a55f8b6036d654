-- ===== src/Interceptor/Reach.antt =====
-- The states of the loaded module: what requests, intercepted calls and exits, one after another,
-- lead to.
use cscc.Prelude.{ℕ, ◌≡◌, ◌≢◌, ◌<◌, refl, ◌∙◌, subst, arith, none, ℤ, pos_part}
use cscc.Interceptor.State.{Handler, Kernel, Caller, Outcome, done, deadlock, oops}
use cscc.Interceptor.Pids.{Config, my_exit_group}
use cscc.Interceptor.Commands.{Regs, interceptor, execute, my_syscall}
use cscc.Interceptor.Module.{init_function, exit_function}
use cscc.Interceptor.WellFormed.{Returns, Returns-all, IsQuiet, IsWellFormed, IsWellFormedAt}
use cscc.Interceptor.Preserve.{execute-IsWellFormedAt}
use cscc.Interceptor.Access.{my_syscall_rule}
use cscc.Interceptor.Exit.{my_exit_group-IsWellFormed}
use cscc.Interceptor.Load.{IsUnloaded, init_function-IsWellFormed, exit_function-restores}
use cscc.Interceptor.Saved.{
  After, IsSaved, execute-IsSaved, interceptor-IsSaved, my_exit_group-IsSaved,
}

-- One call that runs by itself and returns: a request of a live process, an intercepted system call,
-- or the exit of a process.
pub data Step (cfg : Config) (s : Kernel) : Kernel → Type 0 where
  request :
      {s' : Kernel} (c : Caller) (cmd syscall pid r : ℤ)
      → c.owner c.pid ≢ none
      → my_syscall cfg c cmd syscall pid s ≡ done r s'
      → Step cfg s s'
  intercepted :
      {s' : Kernel} (c : Caller) (r : Regs) (h : Handler)
      → s.sys_call_table r.ax ≡ Handler.interceptor
      → interceptor c r s ≡ done h s'
      → Step cfg s s'
  exit :
      {s' : Kernel} (c : Caller) (h : Handler) → my_exit_group cfg c s ≡ done h s' → Step cfg s s'

pub data Reach (cfg : Config) : Kernel → Type 0 where
  load : {s₀ s : Kernel} (r : ℤ) → IsUnloaded s₀ → init_function cfg s₀ ≡ done r s → Reach cfg s
  later : {s s' : Kernel} → Reach cfg s → Step cfg s s' → Reach cfg s'

-- Well formed, with the two handlers saved that the module replaces.
pub record IsLoaded (cfg : Config) (s : Kernel) : Type 0 where
  pub formed : IsWellFormed cfg s
  pub custom : s.orig_custom_syscall ≡ Handler.original 0
  pub group : s.orig_exit_group ≡ Handler.original cfg.nr_exit_group

Returns-After :
    {A : Type 0} (P : A → Kernel → Type 0) (Q : Kernel → Type 0) (o : Outcome A)
    → Returns o P
    → After o Q
    → Returns o (λ a s. P a s × Q s)
Returns-After P Q (done a s) h k = (h, k)
Returns-After P Q deadlock h k = h
Returns-After P Q oops h k = h

-- What is known of the outcome of a call that returned.
Returns-done :
    {A : Type 0} (P : A → Kernel → Type 0) (o : Outcome A) (a : A) (s : Kernel)
    → Returns o P
    → o ≡ done a s
    → P a s
Returns-done P o a s h e = subst (λ o. Returns o P) e h

After-done :
    {A : Type 0} (P : Kernel → Type 0) (o : Outcome A) (a : A) (s : Kernel)
    → After o P
    → o ≡ done a s
    → P s
After-done P o a s h e = subst (λ o. After o P) e h

module _ (cfg : Config) (s : Kernel) (l : IsLoaded cfg s) where
  kept : (s' : Kernel) → IsWellFormed cfg s' → IsSaved s s' → IsLoaded cfg s'
  kept s' w same = record { formed = w; custom = same.0 ∙ l.custom; group = same.1 ∙ l.group }

  my_syscall-IsLoaded :
      (c : Caller) (cmd syscall pid : ℤ)
      → c.owner c.pid ≢ none
      → Returns (my_syscall cfg c cmd syscall pid s) (λ _ s'. IsWellFormed cfg s' × IsSaved s s')
  my_syscall-IsLoaded c cmd syscall pid alive =
      let n = pos_part syscall in
      my_syscall_rule cfg c cmd syscall pid s (λ _ s'. IsWellFormed cfg s' × IsSaved s s') alive
        (λ _ _. (l.formed, (refl, refl)))
        λ _.
          Returns-After (λ _ s'. IsWellFormed cfg s') (IsSaved s) (execute c cmd n pid s)
            (Returns-all (λ _ s' j. IsWellFormedAt cfg s' j) (execute c cmd n pid s)
              (λ j. execute-IsWellFormedAt cfg c s n j cmd pid (l.formed j) (l.formed n)))
            (execute-IsSaved c s n pid cmd)

  interceptor-IsWellFormedAt :
      (c : Caller) (r : Regs) (j : ℕ)
      → s.sys_call_table r.ax ≡ Handler.interceptor
      → Returns (interceptor c r s) (λ _ s'. IsWellFormedAt cfg s' j)
  unfolding interceptor
  interceptor-IsWellFormedAt c r j on = ground (arith, l.formed r.ax, l.formed j)

  step-IsLoaded : (s' : Kernel) → Step cfg s s' → IsLoaded cfg s'
  step-IsLoaded s' (request c cmd syscall pid r alive e) =
      let (w, same) =
        Returns-done (λ _ s'. IsWellFormed cfg s' × IsSaved s s')
          (my_syscall cfg c cmd syscall pid s) r s' (my_syscall-IsLoaded c cmd syscall pid alive)
          e in
      kept s' w same
  step-IsLoaded s' (intercepted c r h on e) =
      kept s'
        (Returns-done (λ _ s'. IsWellFormed cfg s') (interceptor c r s) h s'
          (Returns-all (λ _ s' j. IsWellFormedAt cfg s' j) (interceptor c r s)
            (λ j. interceptor-IsWellFormedAt c r j on))
          e)
        (After-done (IsSaved s) (interceptor c r s) h s' (interceptor-IsSaved c r s) e)
  step-IsLoaded s' (exit c h e) =
      let saved : s.orig_exit_group ≢ Handler.null = λ none_saved. cc (l.group, none_saved) in
      kept s'
        (Returns-done _ (my_exit_group cfg c s) h s'
          (my_exit_group-IsWellFormed cfg c s saved l.formed) e).1
        (After-done (IsSaved s) (my_exit_group cfg c s) h s' (my_exit_group-IsSaved cfg c s) e)

-- The module is loaded into a kernel that has not loaded it.
load-IsLoaded :
    (cfg : Config) (s₀ s : Kernel) (r : ℤ)
    → cfg.nr_exit_group ≢ 0
    → IsUnloaded s₀
    → init_function cfg s₀ ≡ done r s
    → IsLoaded cfg s
load-IsLoaded cfg s₀ s r apart u e =
    let at = λ (j : ℕ).
      Returns-done _ (init_function cfg s₀) r s (init_function-IsWellFormed cfg s₀ j u apart) e in
    record { formed = λ j. (at j).4; custom = (at 0).1; group = (at 0).2 }

-- In every state that the loaded module reaches by requests, intercepted calls and exits that run one
-- after another, both locks are free and the table of system calls is read-only, each system call has
-- its own handler or is intercepted with that handler saved, each list of pids is counted right and
-- has no pid twice, and the two handlers that the module replaces are saved.
pub Reach-IsLoaded :
    (cfg : Config) (s : Kernel) → cfg.nr_exit_group ≢ 0 → Reach cfg s → IsLoaded cfg s
Reach-IsLoaded cfg s apart (load {s₀} r u e) = load-IsLoaded cfg s₀ s r apart u e
Reach-IsLoaded cfg s apart (later {s = before} reached step) =
    step-IsLoaded cfg before (Reach-IsLoaded cfg before apart reached) s step

-- From every such state in which none of the system calls below NR_syscalls is intercepted, nor call
-- `j`, unloading the module returns, leaves both locks free and the table read-only, and the kernel's
-- own handler stands at `j` again.
pub Reach-unloads :
    (cfg : Config) (c : Caller) (s : Kernel) (j : ℕ)
    → cfg.nr_exit_group ≢ 0
    → Reach cfg s
    → ((n : ℕ) → n < cfg.nr_syscalls → (s.table n).intercepted ≡ 0)
    → (s.table j).intercepted ≡ 0
    → Returns
        (exit_function cfg c s)
        (λ _ s'. (s'.sys_call_table j ≡ Handler.original j) × IsQuiet s')
Reach-unloads cfg c s j apart reached off off_j =
    let l = Reach-IsLoaded cfg s apart reached in
    exit_function-restores cfg c s j l.formed off off_j l.custom l.group
