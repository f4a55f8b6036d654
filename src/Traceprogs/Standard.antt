-- ===== src/Traceprogs/Standard.antt =====
-- What the standard multiplication leaves in each place.
use cscc.Prelude.{ℕ, ◌+◌, ◌*◌, ◌≡◌, ◌≢◌, ◌<◌, refl, ap, ◌∙◌, arith, update}
use cscc.Traceprogs.Loop.{loop, loop-stays, loop-acts, loop-once, radix-ne}
use cscc.Traceprogs.Matmul.{Matrix, Doubles, add_product, mat_mult}

pub update_same : {V : Type 0} (c : Matrix V) (x y : ℕ) (v : V) → x ≡ y → update c x v y ≡ v
update_same c x y v h = ground (arith, h)

pub update_apart : {V : Type 0} (c : Matrix V) (x y : ℕ) (v : V) → x ≢ y → update c x v y ≡ c y
update_apart c x y v h = ground (arith, h)

module _ (f : Doubles) where
  -- The products `x k * y k` added up in the order of `k`, to `v`.
  abbrev pub add_up : (n : ℕ) (x y : ℕ → f.V) → f.V → f.V
  add_up n x y = loop n (λ k acc. f.add acc (f.mul (x k) (y k)))

  -- Row `i` of `a` with column `j` of `b`.
  abbrev pub dot : (n : ℕ) (a b : Matrix f.V) (i j : ℕ) → f.V
  dot n a b i j = add_up n (λ k. a (i * n + k)) (λ k. b (k * n + j)) f.nought

  -- The sum at `at` grows, and no other place changes.
  pub add_products-acts :
      (n at y : ℕ) (u v : ℕ → f.V) (c : Matrix f.V)
      → at ≡ y
      → loop n (λ k. add_product f at (u k) (v k)) c y ≡ add_up n u v (c y)
  add_products-acts n at y u v c same =
      loop-acts (λ (c : Matrix f.V). c y) (λ k. add_product f at (u k) (v k))
        (λ k acc. f.add acc (f.mul (u k) (v k))) n c
        (λ k lt c.
          update_same c at y (f.add (c at) (f.mul (u k) (v k))) same
          ∙ ap (λ x. f.add (c x) (f.mul (u k) (v k))) same)

  pub add_products-stays :
      (n at y : ℕ) (u v : ℕ → f.V) (c : Matrix f.V)
      → at ≢ y
      → loop n (λ k. add_product f at (u k) (v k)) c y ≡ c y
  add_products-stays n at y u v c apart =
      loop-stays (λ (c : Matrix f.V). c y) (λ k. add_product f at (u k) (v k)) n c
        (λ k lt c. update_apart c at y (f.add (c at) (f.mul (u k) (v k))) apart)

  module _ (n : ℕ) (a b : Matrix f.V) where
    abbrev cell : (i j : ℕ) → Matrix f.V → Matrix f.V
    cell i j c =
        loop n (λ k. add_product f (i * n + j) (a (i * n + k)) (b (k * n + j)))
          (update c (i * n + j) f.nought)

    cell-stays : (i j y : ℕ) (c : Matrix f.V) → i * n + j ≢ y → cell i j c y ≡ c y
    cell-stays i j y c apart =
        add_products-stays n (i * n + j) y (λ k. a (i * n + k)) (λ k. b (k * n + j))
          (update c (i * n + j) f.nought) apart
        ∙ update_apart c (i * n + j) y f.nought apart

    cell-dot : (i j : ℕ) (c : Matrix f.V) → cell i j c (i * n + j) ≡ dot n a b i j
    cell-dot i j c =
        add_products-acts n (i * n + j) (i * n + j) (λ k. a (i * n + k)) (λ k. b (k * n + j))
          (update c (i * n + j) f.nought) refl
        ∙ ap (add_up n (λ k. a (i * n + k)) (λ k. b (k * n + j)))
            (update_same c (i * n + j) (i * n + j) f.nought refl)

    pub mat_mult-dot :
        (i j : ℕ) (c : Matrix f.V) → i < n → j < n → mat_mult f n a b c (i * n + j) ≡ dot n a b i j
    unfolding mat_mult
    mat_mult-dot i j c lt lt' =
        let y = i * n + j in
        loop-once (λ (c : Matrix f.V). c y) (λ i. loop n (cell i)) (λ _. dot n a b i j) i n c lt
          (λ i' low other c.
            loop-stays (λ (c : Matrix f.V). c y) (cell i') n c
              (λ j' low' c. cell-stays i' j' y c (radix-ne n i' j' i j low' lt' other)))
          (λ c.
            loop-once (λ (c : Matrix f.V). c y) (cell i) (λ _. dot n a b i j) j n c lt'
              (λ j' low' other c. cell-stays i j' y c (omega (arith, other))) (λ c. cell-dot i j c))
