-- ===== src/Interceptor/State.antt =====
-- The state that interceptor.c shares with the kernel, and the monad of its functions.
use cscc.Prelude.{ℕ, Bool, true, false, Option, List, ℤ}
use cscc.Prelude.{◌==◌, update}

-- A pointer to a system call: the kernel's own, one of the module's three, or NULL.
pub data Handler : Type 0 where
  null : Handler
  original : ℕ → Handler
  interceptor my_syscall my_exit_group : Handler

-- `mytable`: what the module keeps of one system call. `my_list` has the pids, newest first.
pub record Entry : Type 0 where
  pub f : Handler
  pub intercepted : ℕ
  pub monitored : ℕ
  pub listcount : ℤ
  pub my_list : List ℤ

-- A page-table entry: the bit `_PAGE_RW`, and the number that the other bits make.
pub record Pte : Type 0 where
  pub rw : Bool
  pub rest : ℕ

-- A line of `log_message`: the pid, the system call and its six parameters.
pub record Message : Type 0 where
  pub sender : ℤ
  pub call : ℕ
  pub params : List ℕ

-- All shared state: the kernel's table and its page, the module's table, the two locks, the saved
-- pointers and the kernel log, newest line first.
pub record Kernel : Type 0 where
  pub sys_call_table : ℕ → Handler
  pub page : Pte
  pub table : ℕ → Entry
  pub calltable_lock : Bool
  pub pidlist_lock : Bool
  pub orig_custom_syscall : Handler
  pub orig_exit_group : Handler
  pub log : List Message

-- The kernel's side of one call: `current`, `current_uid()`, the owner of each live process
-- (`pid_task(find_vpid(pid), PIDTYPE_PID)`, none if it is NULL), whether `kmalloc` succeeds.
pub record Caller : Type 0 where
  pub pid : ℤ
  pub uid : ℕ
  pub owner : ℤ → Option ℕ
  pub kmalloc : Bool

-- A call returns, or spins for ever on a lock that is held, or faults.
pub data Outcome (A : Type 0) : Type 0 where
  done : A → Kernel → Outcome A
  deadlock : Outcome A
  oops : Outcome A

abbrev pub M : Type 0 → Type 0
M A = Kernel → Outcome A

infixl 5 ◌>>=◌ ◌>>◌
abbrev pub ◌>>=◌ : {A B : Type 0} → M A → (A → M B) → M B
◌>>=◌ m k s = elim (m s) [ done a s' ↦ k a s' | deadlock ↦ deadlock | oops ↦ oops ]

abbrev pub ◌>>◌ : {B : Type 0} → M (Unit {0}) → M B → M B
m >> k = m >>= λ _. k

-- The conditional between two actions.
abbrev pub branch : {A : Type 0} → Bool → M A → M A → M A
branch true m k s = m s
branch false m k s = k s

abbrev pub return : {A : Type 0} → A → M A
return a s = done a s

abbrev pub get : {A : Type 0} → (Kernel → A) → M A
get g s = done (g s) s

abbrev pub modify : (Kernel → Kernel) → M (Unit {0})
modify g s = done tt (g s)

abbrev pub set_entry : ℕ → (Entry → Entry) → Kernel → Kernel
set_entry n g s = record s { table = update s.table n (g (s.table n)) }

-- `spin_lock` on a lock that is held never returns: the holder is waiting in this very call.
abbrev pub lock_calltable : M (Unit {0})
lock_calltable s = elim s.calltable_lock [
  | true ↦ deadlock
  | false ↦ done tt (record s { calltable_lock = true })
]

abbrev pub unlock_calltable : M (Unit {0})
unlock_calltable s = done tt (record s { calltable_lock = false })

abbrev pub lock_pidlist : M (Unit {0})
lock_pidlist s = elim s.pidlist_lock [
  | true ↦ deadlock
  | false ↦ done tt (record s { pidlist_lock = true })
]

abbrev pub unlock_pidlist : M (Unit {0})
unlock_pidlist s = done tt (record s { pidlist_lock = false })

-- The test of the code is `pte & ~_PAGE_RW`: some other bit is set.
abbrev pub set_addr_rw : M (Unit {0})
set_addr_rw s = elim (s.page.rest == 0) [
  | true ↦ done tt s
  | false ↦ done tt (record s { page = record { rw = true; rest = s.page.rest } })
]

abbrev pub set_addr_ro : M (Unit {0})
set_addr_ro s = done tt (record s { page = record { rw = false; rest = s.page.rest } })

-- A store into the table of system calls faults while its page is read-only.
abbrev pub set_call : ℕ → Handler → M (Unit {0})
set_call n h s = elim s.page.rw [
  | true ↦ done tt (record s { sys_call_table = update s.sys_call_table n h })
  | false ↦ oops
]

-- A call through a pointer, with which the function ends: the callee is returned.
abbrev pub tail_call : Handler → M Handler
tail_call Handler.null s = oops
tail_call h s = done h s
