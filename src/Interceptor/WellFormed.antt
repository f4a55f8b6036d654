-- ===== src/Interceptor/WellFormed.antt =====
-- What holds of the module's state between calls, and the postconditions of calls.
use cscc.Prelude.{ℕ, ◌≡◌, ◌≢◌, ◌⊎◌, ◌≤◌, false, List, [], ◌∷◌, length}
use cscc.Prelude.{ℤ, pos, ◌==◌, if◌then◌else◌}
use cscc.Interceptor.State.{Handler, Entry, Kernel, M, Outcome, done, deadlock, oops}
use cscc.Interceptor.Pids.{Config, has_pid}

-- The call returns, and `P` holds of its result and of the state it leaves.
abbrev pub Returns : {A : Type 0} → Outcome A → (A → Kernel → Type 0) → Type 0
Returns (done a s) P = P a s
Returns deadlock P = ⊥
Returns oops P = ⊥

-- The handler of system call `n` while it is not intercepted, once the module is loaded.
abbrev pub base : Config → ℕ → Handler
base cfg n =
    if n == 0
    then Handler.my_syscall
    else if n == cfg.nr_exit_group
    then Handler.my_exit_group
    else Handler.original n

-- Call `n` is not intercepted and has its handler; or it is, and the handler is saved.
abbrev pub IsHooked : Config → Kernel → ℕ → Type 0
IsHooked cfg s n =
    (((s.table n).intercepted ≡ 0) × (s.sys_call_table n ≡ base cfg n))
    ⊎ (((s.table n).intercepted ≡ 1)
        × (s.sys_call_table n ≡ Handler.interceptor)
        × ((s.table n).f ≡ base cfg n))

-- No pid stands in the list twice.
abbrev pub IsDistinct : List ℤ → Type 0
IsDistinct [] = Unit
IsDistinct (x ∷ xs) = (has_pid x xs ≡ false) × IsDistinct xs

-- The list of an entry is counted right and has no pid twice; the mode is 0, 1 or 2.
pub record IsCounted (e : Entry) : Type 0 where
  pub counted : e.listcount ≡ pos (length e.my_list)
  pub distinct : IsDistinct e.my_list
  pub mode : e.monitored ≤ 2

-- Both locks are free, and the page of the system call table is present and read-only.
pub record IsQuiet (s : Kernel) : Type 0 where
  pub calltable_free : s.calltable_lock ≡ false
  pub pidlist_free : s.pidlist_lock ≡ false
  pub present : s.page.rest ≢ 0
  pub read_only : s.page.rw ≡ false

-- The state is well formed as far as system call `n` goes.
pub record IsWellFormedAt (cfg : Config) (s : Kernel) (n : ℕ) : Type 0 where
  pub quiet : IsQuiet s
  pub hooked : IsHooked cfg s n
  pub counted : IsCounted (s.table n)

abbrev pub IsWellFormed : Config → Kernel → Type 0
IsWellFormed cfg s = (n : ℕ) → IsWellFormedAt cfg s n

-- A postcondition for every `n` may be proved for each `n` apart.
pub Returns-all :
    {A : Type 0} (P : A → Kernel → ℕ → Type 0) (o : Outcome A)
    → ((n : ℕ) → Returns o (λ a s. P a s n))
    → Returns o (λ a s. (n : ℕ) → P a s n)
Returns-all P (done a s) h = h
Returns-all P deadlock h = h 0
Returns-all P oops h = h 0

-- The rule for a sequence of two actions.
pub Returns-bind :
    {A B : Type 0} (Q : A → Kernel → Type 0) (P : B → Kernel → Type 0) (o : Outcome A) (k : A → M B)
    → Returns o Q
    → ((a : A) (s : Kernel) → Q a s → Returns (k a s) P)
    → Returns (elim o [ done a s ↦ k a s | deadlock ↦ deadlock | oops ↦ oops ]) P
Returns-bind Q P (done a s) k h next = next a s h
Returns-bind Q P deadlock k h next = h
Returns-bind Q P oops k h next = h
