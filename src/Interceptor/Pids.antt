-- ===== src/Interceptor/Pids.antt =====
-- The list operations of interceptor.c on the monitored pids, and `exit_group`.
use cscc.Prelude.{ℕ, zero, suc, ◌-◌, Bool, true, false, ◌&&◌, ◌||◌, Option, none, some}
use cscc.Prelude.{List, [], ◌∷◌, ℤ, pos, negsuc, ◌==ℤ◌, increment, decrement}
use cscc.Prelude.{◌==◌, if◌then◌else◌, update}
use cscc.Interceptor.State.{Handler, Entry, Caller, M, ◌>>=◌, ◌>>◌, done, oops}
use cscc.Interceptor.State.{
  return, branch, get, modify, set_entry, lock_pidlist, unlock_pidlist, tail_call,
}

-- What linux/errno.h defines, negated as the module returns it.
abbrev pub e_perm : ℤ
e_perm = negsuc 0

abbrev pub e_nomem : ℤ
e_nomem = negsuc 11

abbrev pub e_busy : ℤ
e_busy = negsuc 15

abbrev pub e_inval : ℤ
e_inval = negsuc 21

-- The kernel's constants `NR_syscalls` and `__NR_exit_group`, of asm/unistd.h.
pub record Config : Type 0 where
  pub nr_syscalls : ℕ
  pub nr_exit_group : ℕ

abbrev pub push_pid : ℤ → Entry → Entry
push_pid pid e = record e { my_list = pid ∷ e.my_list; listcount = increment e.listcount }

abbrev pub add_pid_sysc : Caller → ℤ → ℕ → M ℤ
add_pid_sysc c pid sysc =
    branch c.kmalloc (do modify (set_entry sysc (push_pid pid)); return (pos 0)) (return e_nomem)

-- The count after an unlink: at 0 the monitoring stops, unless it is for all pids.
abbrev pub unlinked : Entry → Entry
unlinked e =
    let count = decrement e.listcount in
    record e {
      listcount = count;
      monitored = if (count ==ℤ pos 0) && (e.monitored == 1) then 0 else e.monitored;
    }

-- The list without its first node for `pid`, if there is one.
unfoldable pub unlink_first : ℤ → List ℤ → Option (List ℤ)
unlink_first pid [] = none
unlink_first pid (x ∷ xs) =
    let rest = unlink_first pid xs in
    if x ==ℤ pid then some xs else (elim rest [ none ↦ none | some r ↦ some (x ∷ r) ])

abbrev pub del_pid_sysc : ℤ → ℕ → M ℤ
del_pid_sysc pid sysc s = elim (unlink_first pid (s.table sysc).my_list) [
  | none ↦ done e_inval s
  | some r ↦ done (pos 0) (set_entry sysc (λ e. record (unlinked e) { my_list = r }) s)
]

-- The inner loop of `del_pid`: every node for `pid` goes, and `ispid` is set if there was one.
unfoldable pub sweep : ℤ → List ℤ → Entry → Bool → Entry × Bool
sweep pid [] e ispid = (record e { my_list = [] }, ispid)
sweep pid (x ∷ xs) e ispid = elim (x ==ℤ pid) [
  | true ↦ sweep pid xs (unlinked e) true
  | false ↦
      let (e', ispid') = sweep pid xs e ispid in (record e' { my_list = x ∷ e'.my_list }, ispid')
]

-- The outer loop, over `rounds` system calls from `s` on.
unfoldable pub del_from : ℤ → (rounds s : ℕ) → (ℕ → Entry) → Bool → (ℕ → Entry) × Bool
del_from pid zero s t ispid = (t, ispid)
del_from pid (suc rounds) s t ispid =
    let (e, ispid') = sweep pid (t s).my_list (t s) ispid in
    del_from pid rounds (suc s) (update t s e) ispid'

unfoldable pub del_pid : Config → ℤ → M ℤ
del_pid cfg pid s =
    let (t, ispid) = del_from pid (cfg.nr_syscalls - 1) 1 s.table false in
    done (if ispid then pos 0 else negsuc 0) (record s { table = t })

abbrev pub destroy_list : ℕ → M (Unit {0})
destroy_list sysc =
    modify (set_entry sysc (λ e. record e { my_list = []; listcount = pos 0; monitored = 0 }))

-- Faults where one of the two processes does not exist.
abbrev pub check_pid_from_list : Caller → ℤ → ℤ → M ℤ
check_pid_from_list c pid1 pid2 s = elim (c.owner pid1) [
  | none ↦ oops
  | some u1 ↦ elim (c.owner pid2) [
    | none ↦ oops
    | some u2 ↦ done (if u1 == u2 then pos 0 else e_perm) s
  ]
]

unfoldable pub has_pid : ℤ → List ℤ → Bool
has_pid pid [] = false
has_pid pid (x ∷ xs) = (x ==ℤ pid) || has_pid pid xs

abbrev pub check_pid_monitored : ℕ → ℤ → M ℤ
check_pid_monitored sysc pid =
    get (λ s. if has_pid pid (s.table sysc).my_list then pos 1 else pos 0)

-- `orig_exit_group(status)`, with which the call ends, is returned; a null pointer faults.
unfoldable pub my_exit_group : Config → Caller → M Handler
unfolding del_pid
my_exit_group cfg c = do
  lock_pidlist
  _ ← del_pid cfg c.pid
  unlock_pidlist
  f ← get (λ s. s.orig_exit_group)
  tail_call f
