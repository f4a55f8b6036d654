-- ===== src/Traceprogs/Sample.antt =====
-- Matrices of order 4 in blocks of order 2, over the natural numbers.
use cscc.Prelude.{ℕ, ◌+◌, ◌*◌, ◌≡◌, refl, arith, some}
use cscc.Traceprogs.Matmul.{Doubles, Matrix, matmul_main}
use cscc.Traceprogs.Blocked.{blocked_main}
use cscc.Traceprogs.Equivalence.{blocked_main-matmul_main}

abbrev counting : Doubles
counting = record { V = ℕ; nought = 0; add = λ x y. x + y; mul = λ x y. x * y }

abbrev garbage : ℕ → Matrix ℕ
garbage k i = k

blocked_main-matmul_main_example :
    blocked_main counting 4 2
      (λ i. i)
      (some (garbage 1))
      (some (garbage 2))
      (some (garbage 3))
      (some (garbage 4))
      (some (garbage 5))
      (some (garbage 6))
      7
    ≡ matmul_main counting 4 (λ i. i) (some (garbage 8)) (some (garbage 9)) (some (garbage 10))
blocked_main-matmul_main_example =
    blocked_main-matmul_main counting 4 2 (λ i. i) (garbage 1) (garbage 2) (garbage 3) (garbage 4)
      (garbage 5) (garbage 6) (garbage 8) (garbage 9) (garbage 10) 7 (omega arith) refl
