-- ===== src/Traceprogs/Blocked.antt =====
-- blocked.c: the multiplication in blocks, and the conversions to and from blocked storage.
use cscc.Prelude.{ℕ, ◌+◌, ◌-◌, ◌*◌, ◌/◌, ◌%◌, Option, none, some, update, ltb, ◌==◌, if◌then◌else◌}
use cscc.Traceprogs.Loop.{loop}
use cscc.Traceprogs.Matmul.{
  Matrix, Doubles, Ended, usage, no_memory, crash, printed, get_matrices, add_product, print_matrix,
}

-- The product and the global `C_p`, an index into it.
pub record Product (V : Type 0) : Type 0 where
  pub c : Matrix V
  pub c_p : ℕ

-- The two pointers of a conversion, into row-major storage and into blocks, and the array `T`.
pub record Walk (V : Type 0) : Type 0 where
  pub t : Matrix V
  pub row_p : ℕ
  pub block_p : ℕ

module _ (f : Doubles) where
  -- `Zero_C`
  abbrev pub zero_c : (n_bar b_sqr i_bar j_bar : ℕ) → Product f.V → Product f.V
  zero_c n_bar b_sqr i_bar j_bar s =
      let c_p = (i_bar * n_bar + j_bar) * b_sqr in
      record { c = loop b_sqr (λ i c. update c (c_p + i) f.nought) s.c; c_p = c_p }

  -- `Mult_add`
  abbrev pub mult_add :
      (n_bar b b_sqr : ℕ) (a b' : Matrix f.V) (i_bar j_bar k_bar : ℕ) → Product f.V → Product f.V
  mult_add n_bar b b_sqr a b' i_bar j_bar k_bar s =
      let a_p = (i_bar * n_bar + k_bar) * b_sqr in
      let b_p = (k_bar * n_bar + j_bar) * b_sqr in
      record s {
        c =
            loop b
              (λ i. loop b λ j.
                loop b λ k.
                  add_product f (s.c_p + i * b + j) (a (a_p + i * b + k)) (b' (b_p + k * b + j)))
              s.c;
      }

  -- `Blocked_mat_mult`
  unfoldable pub blocked_mat_mult :
      (n_bar b b_sqr : ℕ) (a b' : Matrix f.V) → Product f.V → Product f.V
  unfolding loop
  blocked_mat_mult n_bar b b_sqr a b' = loop n_bar λ i_bar. loop n_bar λ j_bar s.
      loop n_bar (mult_add n_bar b b_sqr a b' i_bar j_bar) (zero_c n_bar b_sqr i_bar j_bar s)

module _ {V : Type 0} where
  -- The four loops of a conversion. `put` is the assignment, from the positions in row-major storage
  -- and in blocks; the first goes over a row of a block and then to the row below.
  abbrev pub convert : (put : (row block : ℕ) → Matrix V → Matrix V) → (n b : ℕ) → Walk V → Walk V
  convert put n b = loop (n / b) λ i_bar. loop (n / b) λ j_bar s.
      loop b
        (λ i s.
          let s' =
            loop b
              (λ j (s : Walk V). record {
                t = put s.row_p s.block_p s.t;
                row_p = s.row_p + 1;
                block_p = s.block_p + 1;
              })
              s in
          record s' { row_p = s'.row_p + (n - b) })
        (record s { row_p = i_bar * b * n + j_bar * b })

  -- `memcpy` of the `n * n` records.
  abbrev pub copied : (n : ℕ) (t a : Matrix V) → Matrix V
  copied n t a i = if ltb i (n * n) then t i else a i

  -- `To_blocked`, where `malloc` gives what `T` holds; without memory the program exits.
  unfoldable pub to_blocked :
      (malloc : Option (Matrix V)) → (a : Matrix V) → (n b : ℕ) → Option (Matrix V)
  unfolding loop
  to_blocked none a n b = none
  to_blocked (some t) a n b =
      let done =
        convert (λ row block t. update t block (a row)) n b
          (record { t = t; row_p = 0; block_p = 0 }) in
      some (copied n done.t a)

  -- `From_blocked`
  unfoldable pub from_blocked :
      (malloc : Option (Matrix V)) → (c : Matrix V) → (n b : ℕ) → Option (Matrix V)
  unfolding loop
  from_blocked none c n b = none
  from_blocked (some t) c n b =
      let done =
        convert (λ row block t. update t row (c block)) n b
          (record { t = t; row_p = 0; block_p = 0 }) in
      some (copied n done.t c)

module _ (f : Doubles) where
  -- The part of `main` with DEBUG on the arrays, from the two conversions to the third: without
  -- memory for the array `T` of one of these, the program exits.
  unfoldable pub blocked_product :
      (t₁ t₂ t₃ : Option (Matrix f.V)) (n b : ℕ) (x y : Matrix f.V)
      → Product f.V
      → Option (Matrix f.V)
  unfolding to_blocked from_blocked blocked_mat_mult
  blocked_product t₁ t₂ t₃ n b x y s = elim (to_blocked t₁ x n b) [
    | none ↦ none
    | some x' ↦ elim (to_blocked t₂ y n b) [
      | none ↦ none
      | some y' ↦ from_blocked t₃ (blocked_mat_mult f (n / b) b (b * b) x' y' s).c n b
    ]
  ]

  -- `main` with DEBUG, for the orders `n` and `b` that the arguments give, what the calls of `malloc`
  -- give, and the value of `C_p` before.
  unfoldable pub blocked_main :
      (n b : ℕ)
      → (random : ℕ → f.V) → (x y c t₁ t₂ t₃ : Option (Matrix f.V)) → (c_p : ℕ) → Ended f.V
  unfolding get_matrices blocked_product print_matrix
  blocked_main n b random (some x) (some y) (some c) t₁ t₂ t₃ c_p =
      let factors = get_matrices f n random x y in
      if b == 0
      then crash
      else if n % b == 0
      then elim (blocked_product t₁ t₂ t₃ n b factors.0 factors.1 (record { c = c; c_p = c_p })) [
        | none ↦ no_memory
        | some r ↦ printed (print_matrix r n)
      ]
      else usage
  blocked_main n b random _ _ _ t₁ t₂ t₃ c_p =
      if b == 0 then crash else if n % b == 0 then no_memory else usage
