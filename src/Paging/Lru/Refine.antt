-- ===== src/Paging/Lru/Refine.antt =====
-- lru.c against its abstract view: the frames in the order of their last reference.
use cscc.Prelude.{
  ℕ, zero, suc, ◌+◌, ◌≡◌, ◌≢◌, ◌<◌, arith, refl, ap, ◌∙◌, false, ◌==◌, Option, none, some, List, [],
  ◌∷◌, length, if◌then◌else◌, update, Bool-cases, inl, inr,
}
use cscc.Swap.Bitmap.{ok, abort}
use cscc.Paging.Lru.{Heap, Lru, deref, find_from, lru_evict, lru_ref, take_out, push_front}
use cscc.Paging.Lru.Chain.{
  Cells, start, node, Chain, has, Distinct, drop_frame, address, Chain-update, find_from-address,
  unlink_node-drop_frame, last_frame, drop_last, last_from-Cut,
}

-- The list at the head has these nodes, and no node twice.
pub record IsLru (s : Lru) (xs : Cells) : Type 0 where
  pub head : s.head ≡ start xs
  pub chain : Chain s.heap 0 xs
  pub distinct : Distinct xs

-- The abstract view: the frames, and what a reference and an eviction make of them.
abbrev pub frames : Cells → List ℕ
frames [] = []
frames ((a, i) ∷ xs) = i ∷ frames xs

abbrev pub forget : (frame : ℕ) → List ℕ → List ℕ
forget f [] = []
forget f (i ∷ l) = if i == f then l else i ∷ forget f l

abbrev pub touch : (frame : ℕ) → List ℕ → List ℕ
touch f l = f ∷ forget f l

abbrev pub oldest : (i : ℕ) → List ℕ → ℕ
oldest i [] = i
oldest i (j ∷ l) = oldest j l

abbrev pub without_oldest : (i : ℕ) → List ℕ → List ℕ
without_oldest i [] = []
without_oldest i (j ∷ l) = i ∷ without_oldest j l

-- The state stands for these frames.
abbrev pub Represents : Lru → List ℕ → Type 0
Represents s l = (xs : Cells) × IsLru s xs × (frames xs ≡ l)

frames-drop_frame : (f : ℕ) (xs : Cells) → frames (drop_frame f xs) ≡ forget f (frames xs)
frames-drop_frame f [] = refl
frames-drop_frame f ((a, i) ∷ xs) = elim (Bool-cases (i == f)) [
  | inl e ↦ rw e refl
  | inr e ↦ rw e (ap (λ l. i ∷ l) (frames-drop_frame f xs))
]

last_frame-oldest : (i : ℕ) (xs : Cells) → last_frame i xs ≡ oldest i (frames xs)
last_frame-oldest i [] = refl
last_frame-oldest i ((a, j) ∷ xs) = last_frame-oldest j xs

frames-drop_last : (a i : ℕ) (xs : Cells) → frames (drop_last a i xs) ≡ without_oldest i (frames xs)
frames-drop_last a i [] = refl
frames-drop_last a i ((b, j) ∷ xs) = ap (λ l. i ∷ l) (frames-drop_last b j xs)

has-drop_frame : (c f : ℕ) (xs : Cells) → has c xs ≡ false → has c (drop_frame f xs) ≡ false
has-drop_frame c f [] h = refl
has-drop_frame c f ((a, i) ∷ xs) h = ground (arith, has-drop_frame c f xs)

Distinct-drop_frame : (f : ℕ) (xs : Cells) → Distinct xs → Distinct (drop_frame f xs)
Distinct-drop_frame f [] d = d
Distinct-drop_frame f ((a, i) ∷ xs) (out, d) = elim (Bool-cases (i == f)) [
  | inl e ↦ rw e d
  | inr e ↦ rw e (has-drop_frame a f xs out, Distinct-drop_frame f xs d)
]

has-drop_last :
    (c a i : ℕ) (xs : Cells) → has c ((a, i) ∷ xs) ≡ false → has c (drop_last a i xs) ≡ false
has-drop_last c a i [] h = refl
has-drop_last c a i ((b, j) ∷ xs) h = ground (arith, has-drop_last c b j xs)

Distinct-drop_last : (a i : ℕ) (xs : Cells) → Distinct ((a, i) ∷ xs) → Distinct (drop_last a i xs)
Distinct-drop_last a i [] d = tt
Distinct-drop_last a i ((b, j) ∷ xs) (out, d) =
    (has-drop_last a b j xs out, Distinct-drop_last b j xs d)

drop_frame-none : (f : ℕ) (xs : Cells) → address f xs ≡ none → drop_frame f xs ≡ xs
drop_frame-none f [] e = refl
drop_frame-none f ((a, i) ∷ xs) e = ground (arith, drop_frame-none f xs)

-- On a list of two nodes or more and with fuel for its length, `lru_evict` returns the frame whose
-- last reference is the oldest, and the list without it.
pub lru_evict-Represents :
    (s : Lru) (b j a i fuel : ℕ) (xs : Cells)
    → IsLru s ((b, j) ∷ (a, i) ∷ xs)
    → length xs + 1 < fuel
    → (s' : Lru) × (lru_evict fuel s ≡ ok (oldest j (frames ((a, i) ∷ xs)), s'))
      × Represents s' (without_oldest j (frames ((a, i) ∷ xs)))
unfolding lru_evict
lru_evict-Represents s b j a i zero xs v lt = absurd (omega arith)
lru_evict-Represents s b j a i (suc fuel) xs v lt =
    let (p, q, g, run, ppos, qpos, here, set, chain, outside) =
      last_from-Cut s.heap 0 b j a i fuel xs v.chain v.distinct (omega arith) in
    (
      record s { heap = g },
      ground
          (arith, v.head, run, ppos, qpos, here, set, last_frame-oldest i xs, v.chain.0, v.chain.1),
      (
        (b, j) ∷ drop_last a i xs,
        record {
          head = v.head;
          chain = chain;
          distinct = (has-drop_last b a i xs v.distinct.0, Distinct-drop_last a i xs v.distinct.1);
        },
        ap (λ l. j ∷ l) (frames-drop_last a i xs),
      ),
    )

-- The new node in front of a list.
front :
    (fresh frame : ℕ) (h : Heap) (xs : Cells)
    → fresh ≢ 0
    → has fresh xs ≡ false
    → Chain h 0 xs
    → Distinct xs
    → (g : Heap) × (push_front fresh frame (start xs) h ≡ ok g) × Chain g 0 ((fresh, frame) ∷ xs)
unfolding push_front deref
front fresh frame h [] pos out ch dist =
    (update h fresh (node 0 0 frame), refl, (pos, ground arith, tt))
front fresh frame h ((b, j) ∷ xs) pos out (bpos, here, rest) (bout, dist) = (
  update (update h fresh (node 0 b frame)) b (node fresh (start xs) j),
  ground arith,
  (
    pos,
    ground arith,
    (
      bpos,
      ground arith,
      Chain-update (update h fresh (node 0 b frame)) b b (node fresh (start xs) j) xs bout
          (Chain-update h b fresh (node 0 b frame) xs (ground arith) rest),
    ),
  ),
)

-- A page that is not at the front is taken out of its place, or was not in the list.
take_out-Chain :
    (s : Lru) (b j frame : ℕ) (xs : Cells)
    → IsLru s ((b, j) ∷ xs)
    → (g : Heap) × (take_out (address frame xs) s.heap ≡ ok g)
      × Chain g 0 ((b, j) ∷ drop_frame frame xs)
take_out-Chain s b j frame xs v = go (address frame xs) refl
  where
    go :
        (o : Option ℕ)
        → address frame xs ≡ o
        → (g : Heap) × (take_out o s.heap ≡ ok g) × Chain g 0 ((b, j) ∷ drop_frame frame xs)
    go none e = (s.heap, unfold take_out in refl, rw (drop_frame-none frame xs e) v.chain)
    go (some p) e =
        let (g, run, chain, outside) =
          unlink_node-drop_frame s.heap 0 b j frame xs p v.chain v.distinct e in
        (g, unfold take_out in run, chain)

lru_ref-steps :
    (s : Lru) (fuel fresh frame : ℕ) (old : Option ℕ) (h g : Heap)
    → find_from fuel frame s.head s.heap ≡ ok old
    → take_out old s.heap ≡ ok h
    → push_front fresh frame s.head h ≡ ok g
    → lru_ref fuel fresh frame s ≡ ok (record { head = fresh; heap = g })
lru_ref-steps s fuel fresh frame old h g found taken pushed =
    (unfold lru_ref in rw found (rw taken (rw pushed refl)))

-- For a frame that is not at the front, `lru_ref` with fuel for the length of the list puts the frame
-- in front, and takes it from where it was. `fresh`, the result of `malloc`, is not null and not
-- the address of a node that stays in the list.
pub lru_ref-Represents :
    (s : Lru) (fresh frame b j fuel : ℕ) (xs : Cells)
    → IsLru s ((b, j) ∷ xs)
    → (j == frame) ≡ false
    → fresh ≢ 0
    → has fresh ((b, j) ∷ drop_frame frame xs) ≡ false
    → length xs + 1 < fuel
    → (s' : Lru) × (lru_ref fuel fresh frame s ≡ ok s')
      × Represents s' (touch frame (frames ((b, j) ∷ xs)))
lru_ref-Represents s fresh frame b j fuel xs v other pos out lt =
    let (heap, taken, chain) = take_out-Chain s b j frame xs v in
    let (heap', pushed, whole) =
      front fresh frame heap ((b, j) ∷ drop_frame frame xs) pos out chain
        (has-drop_frame b frame xs v.distinct.0, Distinct-drop_frame frame xs v.distinct.1) in
    (
      record { head = fresh; heap = heap' },
      lru_ref-steps s fuel fresh frame (address frame xs) heap heap'
          (ap (λ p. find_from fuel frame p s.heap) v.head
            ∙ find_from-address s.heap 0 frame fuel ((b, j) ∷ xs) (omega arith) v.chain
            ∙ ap (λ (o : Option ℕ). ok o) (rw other refl))
          taken (ap (λ p. push_front fresh frame p heap) v.head ∙ pushed),
      (
        (fresh, frame) ∷ (b, j) ∷ drop_frame frame xs,
        record {
          head = refl;
          chain = whole;
          distinct = (
            out,
            (has-drop_frame b frame xs v.distinct.0, Distinct-drop_frame frame xs v.distinct.1),
          );
        },
        ap (λ l. frame ∷ l) (rw other (ap (λ l. j ∷ l) (frames-drop_frame frame xs))),
      ),
    )

-- The first reference of all.
lru_ref-empty :
    (s : Lru) (fresh frame fuel : ℕ)
    → IsLru s []
    → fresh ≢ 0
    → 0 < fuel
    → (s' : Lru) × (lru_ref fuel fresh frame s ≡ ok s') × Represents s' (frame ∷ [])
lru_ref-empty s fresh frame fuel v pos lt =
    let (g, pushed, whole) = front fresh frame s.heap [] pos refl tt tt in
    (
      record { head = fresh; heap = g },
      lru_ref-steps s fuel fresh frame none s.heap g
          (ap (λ p. find_from fuel frame p s.heap) v.head
            ∙ find_from-address s.heap 0 frame fuel [] (omega arith) tt)
          (unfold take_out in refl) (ap (λ p. push_front fresh frame p s.heap) v.head ∙ pushed),
      ((fresh, frame) ∷ [], record { head = refl; chain = whole; distinct = (refl, tt) }, refl),
    )

-- A second reference in a row to the same frame, the one at the front, aborts, unless `malloc` gives
-- the memory of the front node back: the new node is linked to the front node after that is freed.
pub lru_ref-front :
    (s : Lru) (fresh b j fuel : ℕ) (xs : Cells)
    → IsLru s ((b, j) ∷ xs)
    → fresh ≢ b
    → lru_ref (suc fuel) fresh j s ≡ abort
unfolding lru_ref
lru_ref-front s fresh b j fuel [] v ne = ground arith
lru_ref-front s fresh b j fuel ((a, i) ∷ xs) v ne =
    ground (arith, v.head, v.chain.0, v.chain.1, v.chain.2.0, v.chain.2.1, v.distinct.0)
