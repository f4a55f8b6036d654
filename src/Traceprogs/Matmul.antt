-- ===== src/Traceprogs/Matmul.antt =====
-- matmul.c: the standard multiplication.
use cscc.Prelude.{ℕ, zero, suc, ◌+◌, ◌*◌, List, [], ◌∷◌, Option, some, update}
use cscc.Traceprogs.Loop.{loop}

-- The fields `value` of an array of `struct record`.
abbrev pub Matrix : Type 0 → Type 0
Matrix V = ℕ → V

-- The arithmetic of `double`.
pub record Doubles : Type 1 where
  pub V : Type 0
  pub nought : V
  pub add : V → V → V
  pub mul : V → V → V

-- How a program ends: with the usage line, without memory, by a division by zero, or after it has
-- printed a matrix, as the rows of the numbers that `printf` gets.
pub data Ended (V : Type 0) : Type 0 where
  usage : Ended V
  no_memory : Ended V
  crash : Ended V
  printed : List (List V) → Ended V

-- `count` numbers from index `at` on, and `count` rows from row `i` on.
unfoldable pub print_row : {V : Type 0} → (c : Matrix V) → (count at : ℕ) → List V
print_row c zero at = []
print_row c (suc count) at = c at ∷ print_row c count (at + 1)

unfoldable pub print_rows : {V : Type 0} → (c : Matrix V) → (n count i : ℕ) → List (List V)
unfolding print_row
print_rows c n zero i = []
print_rows c n (suc count) i = print_row c n (i * n) ∷ print_rows c n count (i + 1)

-- `Print_matrix`
unfoldable pub print_matrix : {V : Type 0} → (c : Matrix V) → (n : ℕ) → List (List V)
unfolding print_rows
print_matrix c n = print_rows c n n 0

module _ (f : Doubles) where
  -- `Get_matrices`: `random` are the numbers `random()/DRAND_MAX` in the order of the calls.
  unfoldable pub get_matrices :
      (n : ℕ) → (random : ℕ → f.V) → (a b : Matrix f.V) → Matrix f.V × Matrix f.V
  unfolding loop
  get_matrices n random a b =
      loop (n * n)
        (λ i (s : Matrix f.V × Matrix f.V).
          (update s.0 i (random (2 * i)), update s.1 i (random (2 * i + 1))))
        (a, b)

  -- `C[at].value += x * y`
  abbrev pub add_product : (at : ℕ) (x y : f.V) → Matrix f.V → Matrix f.V
  add_product at x y c = update c at (f.add (c at) (f.mul x y))

  -- `Mat_mult`
  unfoldable pub mat_mult : (n : ℕ) (a b c : Matrix f.V) → Matrix f.V
  unfolding loop
  mat_mult n a b c =
      loop n
        (λ i. loop n λ j c.
          loop n (λ k. add_product (i * n + j) (a (i * n + k)) (b (k * n + j)))
            (update c (i * n + j) f.nought))
        c

  -- `main` with DEBUG, for the order `n` that the argument gives, and what the three calls of
  -- `malloc` give.
  unfoldable pub matmul_main :
      (n : ℕ) → (random : ℕ → f.V) → (a b c : Option (Matrix f.V)) → Ended f.V
  unfolding get_matrices mat_mult print_matrix
  matmul_main n random (some a) (some b) (some c) =
      let factors = get_matrices n random a b in
      printed (print_matrix (mat_mult n factors.0 factors.1 c) n)
  matmul_main n random _ _ _ = no_memory
