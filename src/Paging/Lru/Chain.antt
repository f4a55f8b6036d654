-- ===== src/Paging/Lru/Chain.antt =====
-- Doubly linked lists on the heap, and taking a node out of them.
use cscc.Prelude.{
  ℕ, zero, suc, ◌≡◌, ◌≢◌, ◌<◌, arith, refl, ◌∙◌, Bool, false, ◌==◌, ◌||◌, Option, none, some, List,
  [], ◌∷◌, length, if◌then◌else◌, update, Bool-cases, inl, inr, subst,
}
use cscc.Swap.Bitmap.{ok}
use cscc.Paging.Lru.{Node, Heap, deref, set_nxt, last_from, find_from, unlink_node}

-- A node's address and its frame, in the order of the list.
abbrev pub Cells : Type 0
Cells = List (ℕ × ℕ)

abbrev pub start : Cells → ℕ
start [] = 0
start ((a, i) ∷ xs) = a

abbrev pub node : (pre nxt index : ℕ) → Option Node
node p q i = some (record { pre = p; nxt = q; index = i })

-- The nodes of `xs` follow one another, behind the node `pre`.
abbrev pub Chain : Heap → (pre : ℕ) → Cells → Type 0
Chain h pre [] = Unit
Chain h pre ((a, i) ∷ xs) = (a ≢ 0) × (h a ≡ node pre (start xs) i) × Chain h a xs

abbrev pub has : ℕ → Cells → Bool
has a [] = false
has a ((b, i) ∷ xs) = (a == b) || has a xs

abbrev pub Distinct : Cells → Type 0
Distinct [] = Unit
Distinct ((a, i) ∷ xs) = (has a xs ≡ false) × Distinct xs

-- The list without the first node for a frame, and the address of that node.
abbrev pub drop_frame : (frame : ℕ) → Cells → Cells
drop_frame f [] = []
drop_frame f ((a, i) ∷ xs) = if i == f then xs else (a, i) ∷ drop_frame f xs

abbrev pub address : (frame : ℕ) → Cells → Option ℕ
address f [] = none
address f ((a, i) ∷ xs) = if i == f then some a else address f xs

pub Chain-update :
    (h : Heap) (pre a : ℕ) (c : Option Node) (xs : Cells)
    → has a xs ≡ false
    → Chain h pre xs
    → Chain (update h a c) pre xs
Chain-update h pre a c [] out ch = tt
Chain-update h pre a c ((b, i) ∷ xs) out (pos, here, rest) =
    (pos, ground arith, Chain-update h b a c xs (ground arith) rest)

pub find_from-address :
    (h : Heap) (pre frame fuel : ℕ) (xs : Cells)
    → length xs < fuel
    → Chain h pre xs
    → find_from fuel frame (start xs) h ≡ ok (address frame xs)
unfolding find_from deref
find_from-address h pre frame zero xs lt ch = absurd (omega arith)
find_from-address h pre frame (suc fuel) [] lt ch = refl
find_from-address h pre frame (suc fuel) ((a, i) ∷ xs) lt (pos, here, rest) =
    ground (arith, find_from-address h a frame fuel xs (omega arith) rest)

-- The rest of the heap stays.
abbrev pub SameOutside : Cells → Heap → Heap → Type 0
SameOutside xs h g = (c : ℕ) → has c xs ≡ false → g c ≡ h c

-- What taking the node `p` out of `xs`, behind the node `b`, comes to where `ys` is left.
abbrev pub Unlinked : Heap → (pre b j : ℕ) → (xs ys : Cells) → (p : ℕ) → Type 0
Unlinked h pre b j xs ys p =
    (g : Heap) × (unlink_node p h ≡ ok g)
    × Chain g pre ((b, j) ∷ ys)
    × SameOutside ((b, j) ∷ xs) h g

unlink-here :
    (h : Heap) (pre b j a i : ℕ) (xs : Cells)
    → Chain h pre ((b, j) ∷ (a, i) ∷ xs)
    → Distinct ((b, j) ∷ (a, i) ∷ xs)
    → Unlinked h pre b j ((a, i) ∷ xs) xs a
unfolding unlink_node deref
unlink-here h pre b j a i [] (bpos, bhere, (apos, ahere, rest)) (bout, (aout, dist)) = (
  update (update h b (node pre 0 j)) a none,
  ground arith,
  (bpos, ground arith, tt),
  λ c out. ground arith,
)
unlink-here h pre b j a i ((c, k) ∷ xs) (bpos, bhere, (apos, ahere, (cpos, chere, rest)))
      (bout, (aout, (cout, dist))) =
    (
      update (update (update h b (node pre c j)) c (node b (start xs) k)) a none,
      ground arith,
      (
        bpos,
        ground arith,
        (
          cpos,
          ground arith,
          Chain-update (update (update h b (node pre c j)) c (node b (start xs) k)) c a none xs
              (ground arith)
              (Chain-update (update h b (node pre c j)) c c (node b (start xs) k) xs (ground arith)
                (Chain-update h c b (node pre c j) xs (ground arith) rest)),
        ),
      ),
      λ d out. ground arith,
    )

-- The node for a frame behind the first node.
pub unlink_node-drop_frame :
    (h : Heap) (pre b j frame : ℕ) (xs : Cells) (p : ℕ)
    → Chain h pre ((b, j) ∷ xs)
    → Distinct ((b, j) ∷ xs)
    → address frame xs ≡ some p
    → Unlinked h pre b j xs (drop_frame frame xs) p
unlink_node-drop_frame h pre b j frame [] p ch dist e = cc
unlink_node-drop_frame h pre b j frame ((a, i) ∷ xs) p ch dist e = elim (Bool-cases (i == frame)) [
  | inl same ↦ rw same (
      let at : a ≡ p = ground arith in
      subst (λ p. Unlinked h pre b j ((a, i) ∷ xs) xs p) at (unlink-here h pre b j a i xs ch dist))
  | inr other ↦ rw other (
      let (g, run, chain, outside) =
        unlink_node-drop_frame h b a i frame xs p ch.2 dist.1 (ground arith) in
      (g, run, (ch.0, outside b dist.0 ∙ ch.1, chain), λ c out. outside c (ground arith)))
]

abbrev pub last_frame : (i : ℕ) → Cells → ℕ
last_frame i [] = i
last_frame i ((b, j) ∷ xs) = last_frame j xs

-- The list behind a node without its last node.
abbrev pub drop_last : (a i : ℕ) → Cells → Cells
drop_last a i [] = []
drop_last a i ((b, j) ∷ xs) = (a, i) ∷ drop_last b j xs

-- What `lru_evict` does with the list `xs` behind the nodes `b` and `a`.
abbrev pub Cut : Heap → (pre b j a i fuel : ℕ) → Cells → Type 0
Cut h pre b j a i fuel xs =
    (p q : ℕ) × (g : Heap) × (last_from fuel a h ≡ ok p)
    × (p ≢ 0)
    × (q ≢ 0)
    × (h p ≡ node q 0 (last_frame i xs))
    × (set_nxt q 0 (update h p none) ≡ ok g)
    × Chain g pre ((b, j) ∷ drop_last a i xs)
    × SameOutside ((b, j) ∷ (a, i) ∷ xs) h g

pub last_from-Cut :
    (h : Heap) (pre b j a i fuel : ℕ) (xs : Cells)
    → Chain h pre ((b, j) ∷ (a, i) ∷ xs)
    → Distinct ((b, j) ∷ (a, i) ∷ xs)
    → length xs < fuel
    → Cut h pre b j a i fuel xs
unfolding last_from set_nxt deref
last_from-Cut h pre b j a i zero xs ch dist lt = absurd (omega arith)
last_from-Cut h pre b j a i (suc fuel) [] (bpos, bhere, (apos, ahere, rest)) dist lt = (
  a,
  b,
  update (update h a none) b (node pre 0 j),
  ground arith,
  apos,
  bpos,
  ahere,
  ground arith,
  (bpos, ground arith, tt),
  λ c out. ground arith,
)
last_from-Cut h pre b j a i (suc fuel) ((c, k) ∷ xs) ch dist lt =
    let (p, q, g, run, ppos, qpos, here, set, chain, outside) =
      last_from-Cut h b a i c k fuel xs ch.2 dist.1 (omega arith) in
    (
      p,
      q,
      g,
      ground (arith, run, ch.2.0, ch.2.1, ch.2.2.0),
      ppos,
      qpos,
      here,
      set,
      (ch.0, outside b dist.0 ∙ ch.1, chain),
      λ d out. outside d (ground arith),
    )
