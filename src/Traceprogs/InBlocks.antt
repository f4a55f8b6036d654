-- ===== src/Traceprogs/InBlocks.antt =====
-- What the multiplication in blocks leaves in each place.
use cscc.Prelude.{ℕ, zero, suc, ◌+◌, ◌*◌, ◌≡◌, ◌≢◌, ◌<◌, refl, ap, ◌∙◌, arith, update}
use cscc.Traceprogs.Loop.{
  loop, loop-stays, loop-acts, loop-once, pair-once, pair-stays, radix-lt, radix-ne, radix-inj,
}
use cscc.Traceprogs.Matmul.{Matrix, Doubles, add_product}
use cscc.Traceprogs.Blocked.{Product, zero_c, mult_add, blocked_mat_mult}
use cscc.Traceprogs.Standard.{
  update_same, update_apart, add_up, add_products-acts, add_products-stays,
}
use cscc.Traceprogs.Layout.{in_blocks}
use cscc.Traceprogs.Convert.{Inside}

module _ (f : Doubles) (m b : ℕ) (x y : Matrix f.V) where
  -- The part of row `i` and column `j` in block `k_bar`, added to `acc`.
  abbrev pub partial : (i_bar j_bar i j k_bar : ℕ) → f.V → f.V
  partial i_bar j_bar i j k_bar =
      add_up f b (λ k. x ((i_bar * m + k_bar) * (b * b) + i * b + k))
        (λ k. y ((k_bar * m + j_bar) * (b * b) + k * b + j))

  abbrev add_cell : (i_bar j_bar k_bar c_p i j : ℕ) → Matrix f.V → Matrix f.V
  add_cell i_bar j_bar k_bar c_p i j = loop b λ k.
      add_product f (c_p + i * b + j) (x ((i_bar * m + k_bar) * (b * b) + i * b + k))
        (y ((k_bar * m + j_bar) * (b * b) + k * b + j))

  abbrev add_block : (i_bar j_bar k_bar c_p : ℕ) → Matrix f.V → Matrix f.V
  add_block i_bar j_bar k_bar c_p = loop b λ i. loop b (add_cell i_bar j_bar k_bar c_p i)

  abbrev block : (i_bar j_bar : ℕ) → Product f.V → Product f.V
  block i_bar j_bar s =
      loop m (mult_add f m b (b * b) x y i_bar j_bar) (zero_c f m (b * b) i_bar j_bar s)

  -- `Mult_add` leaves `C_p` where `Zero_C` put it.
  mult_adds_lem :
      (i_bar j_bar n : ℕ) (s : Product f.V)
      → loop n (mult_add f m b (b * b) x y i_bar j_bar) s
        ≡ record s { c = loop n (λ k_bar. add_block i_bar j_bar k_bar s.c_p) s.c }
  unfolding loop
  mult_adds_lem i_bar j_bar zero s = refl
  mult_adds_lem i_bar j_bar (suc n) s =
      ap (mult_add f m b (b * b) x y i_bar j_bar n) (mult_adds_lem i_bar j_bar n s)

  zero_block : (i_bar j_bar : ℕ) → Matrix f.V → Matrix f.V
  zero_block i_bar j_bar = loop (b * b) λ i c. update c ((i_bar * m + j_bar) * (b * b) + i) f.nought

  block_lem :
      (i_bar j_bar : ℕ) (s : Product f.V) (at : ℕ)
      → (block i_bar j_bar s).c at
        ≡ loop m
            (λ k_bar. add_block i_bar j_bar k_bar ((i_bar * m + j_bar) * (b * b)))
            (zero_block i_bar j_bar s.c)
            at
  unfolding zero_block
  block_lem i_bar j_bar s at =
      ap (λ (s : Product f.V). s.c at)
        (mult_adds_lem i_bar j_bar m (zero_c f m (b * b) i_bar j_bar s))

  module _ (i_bar j_bar i j : ℕ) (h : Inside m b i_bar j_bar i j) where
    abbrev place : ℕ
    place = in_blocks m b i_bar j_bar i j

    -- A place in another block.
    block-stays :
        (i_bar' j_bar' : ℕ) (s : Product f.V)
        → j_bar' < m
        → ¬ ((i_bar' ≡ i_bar) × (j_bar' ≡ j_bar))
        → (block i_bar' j_bar' s).c place ≡ s.c place
    unfolding zero_block
    block-stays i_bar' j_bar' s lt other =
        let apart : i_bar' * m + j_bar' ≢ i_bar * m + j_bar =
          λ same. other (radix-inj m i_bar' j_bar' i_bar j_bar lt h.block_column same) in
        let low = radix-lt b b i j h.row h.column in
        let obs : Matrix f.V → f.V = λ c. c place in
        let c_p = (i_bar' * m + j_bar') * (b * b) in
        block_lem i_bar' j_bar' s place
        ∙ loop-stays obs (λ k_bar. add_block i_bar' j_bar' k_bar c_p) m
            (zero_block i_bar' j_bar' s.c)
            (λ k_bar _ c.
              pair-stays obs (add_cell i_bar' j_bar' k_bar c_p) b b c (λ i' j' low' low'' c.
                add_products-stays f b (c_p + i' * b + j') place
                  (λ k. x ((i_bar' * m + k_bar) * (b * b) + i' * b + k))
                  (λ k. y ((k_bar * m + j_bar') * (b * b) + k * b + j')) c
                  (λ same.
                    radix-ne (b * b) (i_bar' * m + j_bar') (i' * b + j') (i_bar * m + j_bar)
                      (i * b + j) (radix-lt b b i' j' low' low'') low apart (omega (arith, same)))))
        ∙ loop-stays obs (λ i c. update c (c_p + i) f.nought) (b * b) s.c
            (λ t low' c. update_apart c (c_p + t) place f.nought (
              radix-ne (b * b) (i_bar' * m + j_bar') t (i_bar * m + j_bar) (i * b + j) low' low
                apart))

    -- Its own block sets it to zero and adds the products.
    block-sums :
        (s : Product f.V)
        → (block i_bar j_bar s).c place ≡ loop m (partial i_bar j_bar i j) f.nought
    unfolding zero_block
    block-sums s =
        let low = radix-lt b b i j h.row h.column in
        let obs : Matrix f.V → f.V = λ c. c place in
        let c_p = (i_bar * m + j_bar) * (b * b) in
        let here : c_p + i * b + j ≡ place = omega arith in
        block_lem i_bar j_bar s place
        ∙ loop-acts obs (λ k_bar. add_block i_bar j_bar k_bar c_p) (partial i_bar j_bar i j) m
            (zero_block i_bar j_bar s.c)
            (λ k_bar _ c.
              pair-once obs (add_cell i_bar j_bar k_bar c_p) b b (partial i_bar j_bar i j k_bar) i j
                c h.row h.column
                (λ i' j' low' low'' other c.
                  add_products-stays f b (c_p + i' * b + j') place
                    (λ k. x ((i_bar * m + k_bar) * (b * b) + i' * b + k))
                    (λ k. y ((k_bar * m + j_bar) * (b * b) + k * b + j')) c
                    (λ same. other (radix-inj b i' j' i j low'' h.column (omega (arith, same)))))
                (λ c.
                  add_products-acts f b (c_p + i * b + j) place
                    (λ k. x ((i_bar * m + k_bar) * (b * b) + i * b + k))
                    (λ k. y ((k_bar * m + j_bar) * (b * b) + k * b + j)) c here))
        ∙ ap (loop m (partial i_bar j_bar i j)) (
            loop-once obs (λ i c. update c (c_p + i) f.nought) (λ _. f.nought) (i * b + j) (b * b)
              s.c low
              (λ t low' other c. update_apart c (c_p + t) place f.nought (omega (arith, other)))
              (λ c. update_same c (c_p + (i * b + j)) place f.nought refl))

    pub blocked_mat_mult-sums :
        (s : Product f.V)
        → (blocked_mat_mult f m b (b * b) x y s).c place ≡ loop m (partial i_bar j_bar i j) f.nought
    unfolding blocked_mat_mult
    blocked_mat_mult-sums s =
        pair-once (λ (s : Product f.V). s.c place) block m m
          (λ _. loop m (partial i_bar j_bar i j) f.nought) i_bar j_bar s h.block_row h.block_column
          (λ i_bar' j_bar' lt lt' other s. block-stays i_bar' j_bar' s lt' other) block-sums
