-- ===== src/Paging/Lru.antt =====
-- lru.c: the list of the pages in memory, the newest first, on an explicit heap.
pub mod Chain
pub mod Refine
use cscc.Prelude.{ℕ, zero, suc, ◌==◌, Option, none, some, if◌then◌else◌, update}
use cscc.Swap.Bitmap.{Run, ok, abort, ◌>>=◌}

-- `Node`; its field `entry` is never used. The null pointer is 0.
pub record Node : Type 0 where
  pub pre : ℕ
  pub nxt : ℕ
  pub index : ℕ

-- What is allocated.
abbrev pub Heap : Type 0
Heap = ℕ → Option Node

-- `coremap->head` and the heap.
pub record Lru : Type 0 where
  pub head : ℕ
  pub heap : Heap

-- `*p`, which aborts at the null pointer and at memory that was freed.
unfoldable pub deref : ℕ → Heap → Run Node
deref p h = if p == 0 then abort else elim (h p) [ none ↦ abort | some n ↦ ok n ]

-- `p->nxt = q` and `p->pre = q`
unfoldable pub set_nxt : (p q : ℕ) → Heap → Run Heap
unfolding deref
set_nxt p q h = deref p h >>= λ n. ok (update h p (some (record n { nxt = q })))

unfoldable pub set_pre : (p q : ℕ) → Heap → Run Heap
unfolding deref
set_pre p q h = deref p h >>= λ n. ok (update h p (some (record n { pre = q })))

-- The loop of `lru_evict`. Out of fuel it aborts.
unfoldable pub last_from : (fuel p : ℕ) → Heap → Run ℕ
last_from zero p h = abort
last_from (suc fuel) p h =
    deref p h >>= λ n. let rest = last_from fuel n.nxt h in if n.nxt == 0 then ok p else rest

-- The head is left as it is, also where it is the node that is freed.
unfoldable pub lru_evict : (fuel : ℕ) → Lru → Run (ℕ × Lru)
unfolding last_from set_nxt
lru_evict fuel s = last_from fuel s.head s.heap >>= λ last. deref last s.heap >>= λ n.
    (if n.pre == 0 then ok (update s.heap last none) else set_nxt n.pre 0 (update s.heap last none))
    >>= λ heap. ok (n.index, record s { heap = heap })

-- The loop of `lru_ref`: the first node for the frame.
unfoldable pub find_from : (fuel frame p : ℕ) → Heap → Run (Option ℕ)
find_from zero frame p h = abort
find_from (suc fuel) frame p h =
    let more = deref p h >>= λ n.
    let rest = find_from fuel frame n.nxt h in if n.index == frame then ok (some p) else rest in
    if p == 0 then ok none else more

-- The node is taken out of the list and freed.
unfoldable pub unlink_node : (p : ℕ) → Heap → Run Heap
unfolding set_nxt set_pre
unlink_node p h = deref p h >>= λ n. (if n.pre == 0 then ok h else set_nxt n.pre n.nxt h) >>= λ h1.
    deref p h1 >>= λ m.
    (if m.nxt == 0 then ok h1 else set_pre m.nxt m.pre h1) >>= λ h2. ok (update h2 p none)

unfoldable pub take_out : Option ℕ → Heap → Run Heap
unfolding unlink_node
take_out none h = ok h
take_out (some p) h = unlink_node p h

-- The new node in front of the list at `head`, also where the node there was freed. `fresh` is what
-- `malloc` returns.
unfoldable pub push_front : (fresh frame head : ℕ) → Heap → Run Heap
unfolding set_pre
push_front fresh frame head h =
    let filled = update h fresh (some (record { pre = 0; nxt = head; index = frame })) in
    if head == 0 then ok filled else set_pre head fresh filled

unfoldable pub lru_ref : (fuel fresh frame : ℕ) → Lru → Run Lru
unfolding find_from take_out push_front
lru_ref fuel fresh frame s = find_from fuel frame s.head s.heap >>= λ old.
    take_out old s.heap >>= λ h.
    push_front fresh frame s.head h >>= λ h'. ok (record { head = fresh; heap = h' })

unfoldable pub lru_init : Heap → Lru
lru_init heap = record { head = 0; heap = heap }
