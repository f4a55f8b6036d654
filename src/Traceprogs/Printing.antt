-- ===== src/Traceprogs/Printing.antt =====
-- The factors that the two programs draw, and what of a matrix is printed.
use cscc.Prelude.{ℕ, zero, suc, ◌+◌, ◌*◌, ◌≡◌, ◌<◌, refl, ap₂, arith, subst, update, ◌∷◌}
use cscc.Traceprogs.Loop.{loop-acts, loop-once, radix-lt}
use cscc.Traceprogs.Matmul.{Matrix, Doubles, get_matrices, print_row, print_rows, print_matrix}
use cscc.Traceprogs.Blocked.{}
use cscc.Traceprogs.Standard.{update_same, update_apart, dot}

-- The same for each row and column, where the factors may differ outside the matrices.
module _ (f : Doubles) (n : ℕ) (x y x' y' : Matrix f.V) (same_x : (k : ℕ) → k < n * n → x k ≡ x' k)
    (same_y : (k : ℕ) → k < n * n → y k ≡ y' k) where
  pub dot_cong : (i j : ℕ) → i < n → j < n → dot f n x y i j ≡ dot f n x' y' i j
  dot_cong i j lt lt' =
      loop-acts (λ (v : f.V). v) (λ k acc. f.add acc (f.mul (x (i * n + k)) (y (k * n + j))))
        (λ k acc. f.add acc (f.mul (x' (i * n + k)) (y' (k * n + j)))) n f.nought
        (λ k low acc.
          ap₂ (λ u v. f.add acc (f.mul u v)) (same_x (i * n + k) (radix-lt n n i k lt low))
            (same_y (k * n + j) (radix-lt n n k j low lt')))

print_row_cong :
    {V : Type 0} (c c' : Matrix V) (count at : ℕ)
    → ((k : ℕ) → k < count → c (at + k) ≡ c' (at + k))
    → print_row c count at ≡ print_row c' count at
unfolding print_row
print_row_cong c c' zero at h = refl
print_row_cong c c' (suc count) at h =
    let e : at + 0 ≡ at = omega arith in
    ap₂ ◌∷◌ (subst (λ k. c k ≡ c' k) e (h 0 (omega arith))) (
      print_row_cong c c' count (at + 1) (λ k lt.
        let e' : at + suc k ≡ at + 1 + k = omega arith in
        subst (λ k. c k ≡ c' k) e' (h (suc k) (omega arith))))

print_rows_cong :
    {V : Type 0} (c c' : Matrix V) (n count i : ℕ)
    → i + count ≡ n
    → ((i j : ℕ) → i < n → j < n → c (i * n + j) ≡ c' (i * n + j))
    → print_rows c n count i ≡ print_rows c' n count i
unfolding print_rows
print_rows_cong c c' n zero i e h = refl
print_rows_cong c c' n (suc count) i e h =
    ap₂ ◌∷◌ (print_row_cong c c' n (i * n) (λ k lt. h i k (omega arith) lt))
      (print_rows_cong c c' n count (i + 1) (omega (arith, e)) h)

pub print_matrix_cong :
    {V : Type 0} (c c' : Matrix V) (n : ℕ)
    → ((i j : ℕ) → i < n → j < n → c (i * n + j) ≡ c' (i * n + j))
    → print_matrix c n ≡ print_matrix c' n
unfolding print_matrix
print_matrix_cong c c' n h = print_rows_cong c c' n n 0 (omega arith) h

-- The factors are the random numbers, whatever the arrays held.
pub get_matrices-random :
    (f : Doubles) (n : ℕ) (random : ℕ → f.V) (a b : Matrix f.V) (k : ℕ)
    → k < n * n
    → ((get_matrices f n random a b).0 k ≡ random (2 * k))
      × ((get_matrices f n random a b).1 k ≡ random (2 * k + 1))
unfolding get_matrices
get_matrices-random f n random a b k lt =
    let draw : ℕ → Matrix f.V × Matrix f.V → Matrix f.V × Matrix f.V =
      λ i s. (update s.0 i (random (2 * i)), update s.1 i (random (2 * i + 1))) in
    (
      loop-once (λ (s : Matrix f.V × Matrix f.V). s.0 k) draw (λ _. random (2 * k)) k (n * n) (a, b)
          lt (λ i _ other s. update_apart s.0 i k (random (2 * i)) other)
          (λ s. update_same s.0 k k (random (2 * k)) refl),
      loop-once (λ (s : Matrix f.V × Matrix f.V). s.1 k) draw (λ _. random (2 * k + 1)) k (n * n)
          (a, b) lt (λ i _ other s. update_apart s.1 i k (random (2 * i + 1)) other)
          (λ s. update_same s.1 k k (random (2 * k + 1)) refl),
    )
