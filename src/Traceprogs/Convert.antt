-- ===== src/Traceprogs/Convert.antt =====
-- What the conversions to and from blocked storage leave in each place.
use cscc.Prelude.{ℕ, ◌+◌, ◌*◌, ◌≡◌, ◌<◌, refl, ap, ◌∙◌, arith, some, update}
use cscc.Traceprogs.Loop.{loop, radix-lt, pair-once, pair-stays}
use cscc.Traceprogs.Matmul.{Matrix}
use cscc.Traceprogs.Blocked.{convert, copied, to_blocked, from_blocked}
use cscc.Traceprogs.Standard.{update_same, update_apart}
use cscc.Traceprogs.Layout.{in_rows, in_blocks, Equal, in_rows-inj, in_blocks-inj, convert_lem}

-- Row `i` and column `j` of block `i_bar`, `j_bar` are there.
pub record Inside (m b i_bar j_bar i j : ℕ) : Type 0 where
  pub block_row : i_bar < m
  pub block_column : j_bar < m
  pub row : i < b
  pub column : j < b

pub in_blocks-lt :
    (m b i_bar j_bar i j : ℕ)
    → Inside m b i_bar j_bar i j
    → in_blocks m b i_bar j_bar i j < m * b * (m * b)
in_blocks-lt m b i_bar j_bar i j h =
    let blocks = radix-lt m m i_bar j_bar h.block_row h.block_column in
    let cells = radix-lt b b i j h.row h.column in
    let lt = radix-lt (b * b) (m * m) (i_bar * m + j_bar) (i * b + j) blocks cells in
    omega (arith, lt)

pub in_rows-lt :
    (m b i_bar j_bar i j : ℕ)
    → Inside m b i_bar j_bar i j
    → in_rows m b i_bar j_bar i j < m * b * (m * b)
in_rows-lt m b i_bar j_bar i j h =
    let rows = radix-lt b m i_bar i h.block_row h.row in
    let columns = radix-lt b m j_bar j h.block_column h.column in
    radix-lt (m * b) (m * b) (i_bar * b + i) (j_bar * b + j) rows columns

module _ {V : Type 0} (m b : ℕ) where
  -- A place that one assignment of a conversion writes, and no other.
  convert-once :
      (put : (row block : ℕ) → Matrix V → Matrix V) (i_bar j_bar i j y : ℕ) (v : V) (t : Matrix V)
      → Inside m b i_bar j_bar i j
      → ((i_bar' j_bar' i' j' : ℕ)
          → Inside m b i_bar' j_bar' i' j'
          → ¬ Equal i_bar j_bar i j i_bar' j_bar' i' j'
          → (t : Matrix V)
          → put (in_rows m b i_bar' j_bar' i' j') (in_blocks m b i_bar' j_bar' i' j') t y ≡ t y)
      → ((t : Matrix V) → put (in_rows m b i_bar j_bar i j) (in_blocks m b i_bar j_bar i j) t y ≡ v)
      → (convert put (m * b) b (record { t = t; row_p = 0; block_p = 0 })).t y ≡ v
  convert-once put i_bar j_bar i j y v t h others here =
      let obs : Matrix V → V = λ t. t y in
      let assign : (i_bar j_bar i j : ℕ) → Matrix V → Matrix V =
        λ i_bar j_bar i j. put (in_rows m b i_bar j_bar i j) (in_blocks m b i_bar j_bar i j) in
      let pos : 0 < b = omega (arith, h.row) in
      let pos' : 0 < m = omega (arith, h.block_row) in
      ap obs (convert_lem put m b t pos pos')
      ∙ pair-once obs (λ i_bar j_bar. loop b λ i. loop b (assign i_bar j_bar i)) m m (λ _. v) i_bar
          j_bar t h.block_row h.block_column
          (λ i_bar' j_bar' lt lt' other t.
            pair-stays obs (assign i_bar' j_bar') b b t (λ i' j' low low' t.
              others i_bar' j_bar' i' j'
                (record { block_row = lt; block_column = lt'; row = low; column = low' })
                (λ same. other same.0) t))
          (λ t.
            pair-once obs (assign i_bar j_bar) b b (λ _. v) i j t h.row h.column
              (λ i' j' low low' other t.
                others i_bar j_bar i' j'
                  (record {
                    block_row = h.block_row;
                    block_column = h.block_column;
                    row = low;
                    column = low';
                  })
                  (λ same. other same.1) t)
              here)

  copied-inside : (n : ℕ) (t a : Matrix V) (y : ℕ) → y < n * n → copied n t a y ≡ t y
  copied-inside n t a y lt = ground arith

  -- In blocked storage stands what stood in row-major storage.
  pub to_blocked-placed :
      (t a : Matrix V)
      → (r : Matrix V) × (to_blocked (some t) a (m * b) b ≡ some r)
        × ((i_bar j_bar i j : ℕ)
            → Inside m b i_bar j_bar i j
            → r (in_blocks m b i_bar j_bar i j) ≡ a (in_rows m b i_bar j_bar i j))
  unfolding to_blocked
  to_blocked-placed t a =
      let put : (row block : ℕ) → Matrix V → Matrix V = λ row block t. update t block (a row) in
      let walked = convert put (m * b) b (record { t = t; row_p = 0; block_p = 0 }) in
      (
        copied (m * b) walked.t a,
        refl,
        λ i_bar j_bar i j h.
            let y = in_blocks m b i_bar j_bar i j in
            copied-inside (m * b) walked.t a y (in_blocks-lt m b i_bar j_bar i j h)
            ∙ convert-once put i_bar j_bar i j y (a (in_rows m b i_bar j_bar i j)) t h
                (λ i_bar' j_bar' i' j' h' other t.
                  update_apart t (in_blocks m b i_bar' j_bar' i' j') y
                    (a (in_rows m b i_bar' j_bar' i' j'))
                    (λ same. other (
                      in_blocks-inj m b i_bar j_bar i j i_bar' j_bar' i' j' h.block_column h.row
                        h.column h'.block_column h'.row h'.column same)))
                (λ t. update_same t y y (a (in_rows m b i_bar j_bar i j)) refl),
      )

  -- And the other way round.
  pub from_blocked-placed :
      (t c : Matrix V)
      → (r : Matrix V) × (from_blocked (some t) c (m * b) b ≡ some r)
        × ((i_bar j_bar i j : ℕ)
            → Inside m b i_bar j_bar i j
            → r (in_rows m b i_bar j_bar i j) ≡ c (in_blocks m b i_bar j_bar i j))
  unfolding from_blocked
  from_blocked-placed t c =
      let put : (row block : ℕ) → Matrix V → Matrix V = λ row block t. update t row (c block) in
      let walked = convert put (m * b) b (record { t = t; row_p = 0; block_p = 0 }) in
      (
        copied (m * b) walked.t c,
        refl,
        λ i_bar j_bar i j h.
            let y = in_rows m b i_bar j_bar i j in
            copied-inside (m * b) walked.t c y (in_rows-lt m b i_bar j_bar i j h)
            ∙ convert-once put i_bar j_bar i j y (c (in_blocks m b i_bar j_bar i j)) t h
                (λ i_bar' j_bar' i' j' h' other t.
                  update_apart t (in_rows m b i_bar' j_bar' i' j') y
                    (c (in_blocks m b i_bar' j_bar' i' j'))
                    (λ same. other (
                      in_rows-inj m b i_bar j_bar i j i_bar' j_bar' i' j' h.block_column h.row
                        h.column h'.block_column h'.row h'.column same)))
                (λ t. update_same t y y (c (in_blocks m b i_bar j_bar i j)) refl),
      )
