-- ===== src/Traceprogs/Layout.antt =====
-- Row-major storage and storage in blocks: places, and the walk from the one to the other.
use cscc.Prelude.{ℕ, zero, suc, ◌+◌, ◌-◌, ◌*◌, ◌/◌, ◌≡◌, ◌<◌, ◌≤◌, refl, ap, ap₂, ◌∙◌, arith}
use native.Mathlib.Nat.{mul-div_cancel}
use mathlib.Core.Path.{fun_ext}
use cscc.Traceprogs.Loop.{loop, radix-inj, radix-lt}
use cscc.Traceprogs.Matmul.{Matrix}
use cscc.Traceprogs.Blocked.{Walk, convert}

-- The place of row `i` and column `j` of block `i_bar`, `j_bar`, with `m` blocks of order `b` in a row.
abbrev pub in_rows : (m b i_bar j_bar i j : ℕ) → ℕ
in_rows m b i_bar j_bar i j = (i_bar * b + i) * (m * b) + (j_bar * b + j)

abbrev pub in_blocks : (m b i_bar j_bar i j : ℕ) → ℕ
in_blocks m b i_bar j_bar i j = (i_bar * m + j_bar) * (b * b) + (i * b + j)

-- Two places are one only if the rows and columns are.
abbrev pub Equal : (i_bar j_bar i j i_bar' j_bar' i' j' : ℕ) → Type 0
Equal i_bar j_bar i j i_bar' j_bar' i' j' =
    ((i_bar' ≡ i_bar) × (j_bar' ≡ j_bar)) × ((i' ≡ i) × (j' ≡ j))

module _ (m b i_bar j_bar i j i_bar' j_bar' i' j' : ℕ) (h₁ : j_bar < m) (h₂ : i < b) (h₃ : j < b)
    (h₁' : j_bar' < m) (h₂' : i' < b) (h₃' : j' < b) where
  pub in_blocks-inj :
      in_blocks m b i_bar' j_bar' i' j' ≡ in_blocks m b i_bar j_bar i j
      → Equal i_bar j_bar i j i_bar' j_bar' i' j'
  in_blocks-inj same =
      let (block, cell) =
        radix-inj (b * b) (i_bar' * m + j_bar') (i' * b + j') (i_bar * m + j_bar) (i * b + j)
          (radix-lt b b i' j' h₂' h₃') (radix-lt b b i j h₂ h₃) same in
      (radix-inj m i_bar' j_bar' i_bar j_bar h₁' h₁ block, radix-inj b i' j' i j h₃' h₃ cell)

  pub in_rows-inj :
      in_rows m b i_bar' j_bar' i' j' ≡ in_rows m b i_bar j_bar i j
      → Equal i_bar j_bar i j i_bar' j_bar' i' j'
  in_rows-inj same =
      let (row, column) =
        radix-inj (m * b) (i_bar' * b + i') (j_bar' * b + j') (i_bar * b + i) (j_bar * b + j)
          (radix-lt b m j_bar' j' h₁' h₃') (radix-lt b m j_bar j h₁ h₃) same in
      let (i_bars, is) = radix-inj b i_bar' i' i_bar i h₂' h₂ row in
      let (j_bars, js) = radix-inj b j_bar' j' j_bar j h₃' h₃ column in ((i_bars, j_bars), (is, js))

module _ {V : Type 0} (put : (row block : ℕ) → Matrix V → Matrix V) where
  abbrev at : Matrix V → (row block : ℕ) → Walk V
  at t row block = record { t = t; row_p = row; block_p = block }

  -- One row of a block.
  abbrev row_step : ℕ → Walk V → Walk V
  row_step j s = record {
    t = put s.row_p s.block_p s.t;
    row_p = s.row_p + 1;
    block_p = s.block_p + 1;
  }

  row_walk :
      (b row block : ℕ) (t : Matrix V)
      → loop b row_step (at t row block)
        ≡ at (loop b (λ j. put (row + j) (block + j)) t) (row + b) (block + b)
  unfolding loop
  row_walk zero row block t = ap₂ (at t) (omega arith) (omega arith)
  row_walk (suc b) row block t =
      let e : row + b + 1 ≡ row + suc b = omega arith in
      let e' : block + b + 1 ≡ block + suc b = omega arith in
      ap (row_step b) (row_walk b row block t)
      ∙ ap₂ (at (loop (suc b) (λ j. put (row + j) (block + j)) t)) e e'

  module _ (n b : ℕ) (le : b ≤ n) where
    abbrev block_step : ℕ → Walk V → Walk V
    block_step i s = let s' = loop b row_step s in record s' { row_p = s'.row_p + (n - b) }

    block_walk :
        (m row block : ℕ) (t : Matrix V)
        → loop m block_step (at t row block)
          ≡ at
              (loop m (λ i. loop b λ j. put (row + i * n + j) (block + i * b + j)) t)
              (row + m * n)
              (block + m * b)
    unfolding loop
    block_walk zero row block t = ap₂ (at t) (omega arith) (omega arith)
    block_walk (suc m) row block t =
        let walked = loop m (λ i. loop b λ j. put (row + i * n + j) (block + i * b + j)) t in
        let e : row + m * n + b + (n - b) ≡ row + suc m * n = omega (arith, le) in
        let e' : block + m * b + b ≡ block + suc m * b = omega arith in
        ap (block_step m) (block_walk m row block t)
        ∙ ap (λ (s : Walk V). record s { row_p = s.row_p + (n - b) })
            (row_walk b (row + m * n) (block + m * b) walked)
        ∙ ap₂ (at (loop b (λ j. put (row + m * n + j) (block + m * b + j)) walked)) e e'

    -- The array and the position in blocks; the other pointer is set anew for each block.
    abbrev Shape : Walk V → Matrix V → ℕ → Type 0
    Shape s t block = (s.t ≡ t) × (s.block_p ≡ block)

    abbrev band_step : (i_bar j_bar : ℕ) → Walk V → Walk V
    band_step i_bar j_bar s = loop b block_step (record s { row_p = i_bar * b * n + j_bar * b })

    -- What a conversion has put into the array when block `i_bar`, `j_bar` is done.
    abbrev put_block : (i_bar j_bar block : ℕ) → Matrix V → Matrix V
    put_block i_bar j_bar block = loop b (λ i.
        loop b
          λ j. put (i_bar * b * n + j_bar * b + i * n + j) (block + j_bar * (b * b) + i * b + j))

    band_walk :
        (i_bar m block : ℕ) (s : Walk V) (t : Matrix V)
        → Shape s t block
        → Shape
            (loop m (band_step i_bar) s)
            (loop m (λ j_bar. put_block i_bar j_bar block) t)
            (block + m * (b * b))
    unfolding loop
    band_walk i_bar zero block s t (same, here) = (same, here ∙ omega arith)
    band_walk i_bar (suc m) block s t start =
        let (same, here) = band_walk i_bar m block s t start in
        let s' = loop m (band_step i_bar) s in
        let walked = block_walk b (i_bar * b * n + m * b) s'.block_p s'.t in
        (
          ap (λ (s : Walk V). s.t) walked
              ∙ ap₂
                  (λ k t.
                    loop b
                      (λ i. loop b λ j. put (i_bar * b * n + m * b + i * n + j) (k + i * b + j)) t)
                  here same,
          ap (λ (s : Walk V). s.block_p) walked ∙ ap (λ k. k + b * b) here ∙ omega arith,
        )

    all_walk :
        (m k : ℕ) (s : Walk V) (t : Matrix V)
        → Shape s t 0
        → Shape
            (loop m (λ i_bar. loop k (band_step i_bar)) s)
            (loop m (λ i_bar. loop k λ j_bar. put_block i_bar j_bar (i_bar * (k * (b * b)))) t)
            (m * (k * (b * b)))
    unfolding loop
    all_walk zero k s t (same, here) = (same, here ∙ omega arith)
    all_walk (suc m) k s t start =
        let (same, here) = all_walk m k s t start in
        let done =
          loop m (λ i_bar. loop k λ j_bar. put_block i_bar j_bar (i_bar * (k * (b * b)))) t in
        let (t', p') =
          band_walk m k (m * (k * (b * b))) (loop m (λ i_bar. loop k (band_step i_bar)) s) done
            (same, here) in
        (t', p' ∙ omega arith)

-- A conversion is a loop over all places, of the two storages side by side.
pub convert_lem :
    {V : Type 0} (put : (row block : ℕ) → Matrix V → Matrix V) (m b : ℕ) (t : Matrix V)
    → 0 < b
    → 0 < m
    → (convert put (m * b) b (record { t = t; row_p = 0; block_p = 0 })).t
      ≡ loop m
          (λ i_bar. loop m λ j_bar.
            loop b
              λ i. loop b λ j. put (in_rows m b i_bar j_bar i j) (in_blocks m b i_bar j_bar i j))
          t
convert_lem {V} put m b t pos pos' =
    let le : b ≤ m * b = grind arith in
    let start : Walk V = record { t = t; row_p = 0; block_p = 0 } in
    let order : m * b / b ≡ m = mul-div_cancel m {n = b} pos in
    ap (λ k. (loop k (λ i_bar. loop k (band_step put (m * b) b le i_bar)) start).t) order
    ∙ (all_walk put (m * b) b le m m start t (refl, refl)).0
    ∙ ap
        (λ (step : ℕ → ℕ → ℕ → ℕ → Matrix V → Matrix V).
          loop m (λ i_bar. loop m λ j_bar. loop b λ i. loop b λ j. step i_bar j_bar i j) t)
        (fun_ext λ i_bar. fun_ext λ j_bar. fun_ext λ i. fun_ext λ j.
          let row : i_bar * b * (m * b) + j_bar * b + i * (m * b) + j
              ≡ in_rows m b i_bar j_bar i j =
            omega arith in
          let block : i_bar * (m * (b * b)) + j_bar * (b * b) + i * b + j
              ≡ in_blocks m b i_bar j_bar i j =
            omega arith in
          ap₂ put row block)
