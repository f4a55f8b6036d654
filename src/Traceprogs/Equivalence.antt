-- ===== src/Traceprogs/Equivalence.antt =====
-- The multiplication in blocks prints what the standard multiplication prints.
use cscc.Prelude.{
  ℕ, ◌+◌, ◌*◌, ◌/◌, ◌%◌, ◌≡◌, ◌<◌, refl, ap, ap₂, ◌∙◌, sym, arith, subst, Option, none, some, ◌==◌,
  true, false,
}
use native.Mathlib.Nat.{mul-div_cancel, div-add-mod', mod-lt, div-lt_iff_lt-mul}
use cscc.Traceprogs.Loop.{loop, loop-acts, loop_blocks}
use cscc.Traceprogs.Matmul.{
  Matrix, Doubles, printed, get_matrices, mat_mult, print_matrix, matmul_main,
}
use cscc.Traceprogs.Blocked.{
  Product, to_blocked, from_blocked, blocked_mat_mult, blocked_product, blocked_main,
}
use cscc.Traceprogs.Standard.{dot, mat_mult-dot}
use cscc.Traceprogs.Layout.{in_rows, in_blocks}
use cscc.Traceprogs.Convert.{Inside, to_blocked-placed, from_blocked-placed}
use cscc.Traceprogs.Printing.{dot_cong, print_matrix_cong, get_matrices-random}
use cscc.Traceprogs.InBlocks.{partial, blocked_mat_mult-sums}

module _ (f : Doubles) (m b : ℕ) (x y x' y' : Matrix f.V)
    (in_x : (i_bar j_bar i j : ℕ)
      → Inside m b i_bar j_bar i j
      → x' (in_blocks m b i_bar j_bar i j) ≡ x (in_rows m b i_bar j_bar i j))
    (in_y : (i_bar j_bar i j : ℕ)
      → Inside m b i_bar j_bar i j
      → y' (in_blocks m b i_bar j_bar i j) ≡ y (in_rows m b i_bar j_bar i j)) where
  -- The partial sums over the blocks are the whole sum, in the same order.
  partial-dot :
      (i_bar j_bar i j : ℕ)
      → Inside m b i_bar j_bar i j
      → loop m (partial f m b x' y' i_bar j_bar i j) f.nought
        ≡ dot f (m * b) x y (i_bar * b + i) (j_bar * b + j)
  partial-dot i_bar j_bar i j h =
      let n = m * b in
      let term : ℕ → f.V → f.V =
        λ k acc. f.add acc (f.mul (x ((i_bar * b + i) * n + k)) (y (k * n + (j_bar * b + j)))) in
      loop-acts (λ (v : f.V). v) (partial f m b x' y' i_bar j_bar i j)
        (λ k_bar. loop b (λ k. term (k_bar * b + k))) m f.nought
        (λ k_bar lt v.
          loop-acts (λ (v : f.V). v)
            (λ k acc. f.add acc (
              f.mul (x' ((i_bar * m + k_bar) * (b * b) + i * b + k))
                (y' ((k_bar * m + j_bar) * (b * b) + k * b + j))))
            (λ k. term (k_bar * b + k)) b v
            (λ k lt' acc.
              let here : Inside m b i_bar k_bar i k = record {
                block_row = h.block_row;
                block_column = lt;
                row = h.row;
                column = lt';
              } in
              let there : Inside m b k_bar j_bar k j = record {
                block_row = lt;
                block_column = h.block_column;
                row = lt';
                column = h.column;
              } in
              let at : (i_bar * m + k_bar) * (b * b) + i * b + k ≡ in_blocks m b i_bar k_bar i k =
                omega arith in
              let at' : (k_bar * m + j_bar) * (b * b) + k * b + j ≡ in_blocks m b k_bar j_bar k j =
                omega arith in
              ap₂ (λ u v. f.add acc (f.mul u v)) (ap x' at ∙ in_x i_bar k_bar i k here)
                (ap y' at' ∙ in_y k_bar j_bar k j there)))
      ∙ sym (loop_blocks term m b f.nought)

product_step :
    (f : Doubles) (t₁ t₂ t₃ : Option (Matrix f.V)) (n b : ℕ) (x y x' y' : Matrix f.V)
    (s : Product f.V)
    → to_blocked t₁ x n b ≡ some x'
    → to_blocked t₂ y n b ≡ some y'
    → blocked_product f t₁ t₂ t₃ n b x y s
      ≡ from_blocked t₃ (blocked_mat_mult f (n / b) b (b * b) x' y' s).c n b
unfolding blocked_product
product_step f t₁ t₂ t₃ n b x y x' y' s e e' =
    let finish : Matrix f.V → Matrix f.V → Option (Matrix f.V) =
      λ x' y'. from_blocked t₃ (blocked_mat_mult f (n / b) b (b * b) x' y' s).c n b in
    ap
      (λ (o : Option (Matrix f.V)). elim o as (λ _. Option (Matrix f.V)) [
        | none ↦ none
        | some x' ↦ elim (to_blocked t₂ y n b) as (λ _. Option (Matrix f.V)) [
          | none ↦ none
          | some y' ↦ finish x' y'
        ]
      ])
      e
    ∙ ap
        (λ (o : Option (Matrix f.V)). elim o as (λ _. Option (Matrix f.V)) [
          | none ↦ none
          | some y' ↦ finish x' y'
        ])
        e'

-- In each place stands what the standard multiplication puts there, with the same additions in the
-- same order.
product_lem :
    (f : Doubles) (m b : ℕ) (t₁ t₂ t₃ x y : Matrix f.V) (s : Product f.V)
    → 0 < b
    → (r : Matrix f.V) × (blocked_product f (some t₁) (some t₂) (some t₃) (m * b) b x y s ≡ some r)
      × ((i_bar j_bar i j : ℕ)
          → Inside m b i_bar j_bar i j
          → r (in_rows m b i_bar j_bar i j) ≡ dot f (m * b) x y (i_bar * b + i) (j_bar * b + j))
product_lem f m b t₁ t₂ t₃ x y s pos =
    let (x', is_x, in_x) = to_blocked-placed m b t₁ x in
    let (y', is_y, in_y) = to_blocked-placed m b t₂ y in
    let product = (blocked_mat_mult f m b (b * b) x' y' s).c in
    let (r, is, in_r) = from_blocked-placed m b t₃ product in
    (
      r,
      product_step f (some t₁) (some t₂) (some t₃) (m * b) b x y x' y' s is_x is_y
          ∙ ap (λ k. from_blocked (some t₃) (blocked_mat_mult f k b (b * b) x' y' s).c (m * b) b)
              (mul-div_cancel m {n = b} pos)
          ∙ is,
      λ i_bar j_bar i j h.
          in_r i_bar j_bar i j h
          ∙ blocked_mat_mult-sums f m b x' y' i_bar j_bar i j h s
          ∙ partial-dot f m b x y x' y' in_x in_y i_bar j_bar i j h,
    )

main_step :
    (f : Doubles) (n b : ℕ) (random : ℕ → f.V) (x y c : Matrix f.V) (t₁ t₂ t₃ : Option (Matrix f.V))
    (c_p : ℕ) (r : Matrix f.V)
    → 0 < b
    → n % b ≡ 0
    → blocked_product f t₁ t₂ t₃ n b
        (get_matrices f n random x y).0
        (get_matrices f n random x y).1
        (record { c = c; c_p = c_p })
      ≡ some r
    → blocked_main f n b random (some x) (some y) (some c) t₁ t₂ t₃ c_p ≡ printed (print_matrix r n)
unfolding blocked_main
main_step f n b random x y c t₁ t₂ t₃ c_p r pos divides made =
    let some_b : (b == 0) ≡ false = ground arith in
    let even : (n % b == 0) ≡ true = ground (arith, divides) in rw (some_b, even, made) refl

-- A row or column in its block.
in_block : (m b i : ℕ) → 0 < b → i < m * b → (i / b < m) × ((i % b < b) × (i / b * b + i % b ≡ i))
in_block m b i pos lt =
    ((div-lt_iff_lt-mul {k = b} {x = i} {y = m} pos).1 lt, (mod-lt i {m = b} pos, div-add-mod' i b))

cells_lem :
    (f : Doubles) (m b : ℕ) (r x y : Matrix f.V)
    → 0 < b
    → ((i_bar j_bar i j : ℕ)
        → Inside m b i_bar j_bar i j
        → r (in_rows m b i_bar j_bar i j) ≡ dot f (m * b) x y (i_bar * b + i) (j_bar * b + j))
    → (i j : ℕ) → i < m * b
    → j < m * b
    → r (i * (m * b) + j) ≡ dot f (m * b) x y i j
cells_lem f m b r x y pos h i j lt lt' =
    let (block, (cell, is)) = in_block m b i pos lt in
    let (block', (cell', is')) = in_block m b j pos lt' in
    subst (λ i. r (i * (m * b) + j) ≡ dot f (m * b) x y i j) is
      (subst (λ j. r ((i / b * b + i % b) * (m * b) + j) ≡ dot f (m * b) x y (i / b * b + i % b) j)
        is'
        (h (i / b) (j / b) (i % b) (j % b)
          (record { block_row = block; block_column = block'; row = cell; column = cell' })))

main_lem :
    (f : Doubles) (m b : ℕ) (random : ℕ → f.V) (x y c t₁ t₂ t₃ x' y' c' : Matrix f.V) (c_p : ℕ)
    → 0 < b
    → m * b % b ≡ 0
    → blocked_main f (m * b) b random (some x) (some y) (some c) (some t₁) (some t₂) (some t₃) c_p
      ≡ matmul_main f (m * b) random (some x') (some y') (some c')
unfolding matmul_main
main_lem f m b random x y c t₁ t₂ t₃ x' y' c' c_p pos even =
    let n = m * b in
    let drawn = get_matrices f n random x y in
    let drawn' = get_matrices f n random x' y' in
    let (r, made, sums) =
      product_lem f m b t₁ t₂ t₃ drawn.0 drawn.1 (record { c = c; c_p = c_p }) pos in
    main_step f n b random x y c (some t₁) (some t₂) (some t₃) c_p r pos even made
    ∙ ap (λ rows. printed rows)
        (print_matrix_cong r (mat_mult f n drawn'.0 drawn'.1 c') n (λ i j lt lt'.
          cells_lem f m b r drawn.0 drawn.1 pos sums i j lt lt'
          ∙ dot_cong f n drawn.0 drawn.1 drawn'.0 drawn'.1
              (λ k low.
                (get_matrices-random f n random x y k low).0
                ∙ sym (get_matrices-random f n random x' y' k low).0)
              (λ k low.
                (get_matrices-random f n random x y k low).1
                ∙ sym (get_matrices-random f n random x' y' k low).1)
              i j lt lt'
          ∙ sym (mat_mult-dot f n drawn'.0 drawn'.1 i j c' lt lt')))

-- Where the order `b` of the blocks is not zero and divides the order `n` of the matrices, where
-- there is memory for all arrays, and for the same random numbers, the multiplication in blocks with
-- DEBUG prints the same matrix as the standard multiplication: each number is the same sum of the same
-- products in the same order, for any addition and multiplication, so also for `double`. What the
-- arrays hold at first, in either program, does not matter.
pub blocked_main-matmul_main :
    (f : Doubles) (n b : ℕ) (random : ℕ → f.V) (x y c t₁ t₂ t₃ x' y' c' : Matrix f.V) (c_p : ℕ)
    → 0 < b
    → n % b ≡ 0
    → blocked_main f n b random (some x) (some y) (some c) (some t₁) (some t₂) (some t₃) c_p
      ≡ matmul_main f n random (some x') (some y') (some c')
blocked_main-matmul_main f n b random x y c t₁ t₂ t₃ x' y' c' c_p pos divides =
    let order : n / b * b ≡ n = omega (arith, div-add-mod' n b, divides) in
    subst
      (λ n.
        n % b ≡ 0
        → blocked_main f n b random (some x) (some y) (some c) (some t₁) (some t₂) (some t₃) c_p
          ≡ matmul_main f n random (some x') (some y') (some c'))
      order (λ even. main_lem f (n / b) b random x y c t₁ t₂ t₃ x' y' c' c_p pos even) divides
