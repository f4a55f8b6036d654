-- ===== src/Ext2/Free.antt =====
-- The searches of the two bitmaps take the lowest free number and mark it.
use cscc.Prelude.{ℕ, zero, suc, ◌+◌, ◌*◌, ◌/◌, ◌%◌, ◌^◌, ◌≤◌, ◌<◌, ◌≡◌, ◌⊎◌, arith, refl, ap, ◌∙◌}
use cscc.Prelude.{Bool, true, ltb, ◌==◌, if◌then◌else◌, Option, none, some, inl, inr}
use cscc.Prelude.{
  bit, bit_and, bit_or, bit-bit_or, bit-pow, bit-le, bit_or-lt, pow-lt, clear_iff, Bool-cases,
}
use cscc.Prelude.{Memory}
use native.Mathlib.Decide.{ℕ_discrete}
use cscc.Prelude.{subst}
use cscc.Ext2.Blocks.{
  block_size, disk_size, u16, u32, put_u8, put_u16, s_blocks_count, s_inodes_count, bg_block_bitmap,
  bg_inode_bitmap, bg_free_blocks_count, bg_free_inodes_count, find_clear, claim_bit,
  find_free_block, find_free_inode,
}

-- 1 if the bitmap at `bm` has number `i` in use, else 0.
abbrev pub in_use : Memory → (bm i : ℕ) → ℕ
in_use disk bm i = bit (disk (bm + i / 8)) (i % 8)

-- The least free number from `i` on, below `last`, that is allowed.
abbrev pub Found : Memory → (bm : ℕ) (allowed : ℕ → Bool) (i last : ℕ) → Option ℕ → Type 0
Found disk bm allowed i last none =
    (j : ℕ) → i ≤ j → j < last → allowed j ≡ true → in_use disk bm j ≡ 1
Found disk bm allowed i last (some k) =
    (i ≤ k)
    × (k < last)
    × (allowed k ≡ true)
    × (in_use disk bm k ≡ 0)
    × ((j : ℕ) → i ≤ j → j < k → allowed j ≡ true → in_use disk bm j ≡ 1)

module _ (disk : Memory) (bm : ℕ) (allowed : ℕ → Bool) where
  -- A number that is passed over is in use, or not allowed.
  Found-skip :
      (i last : ℕ) (r : Option ℕ)
      → (allowed i ≡ true → in_use disk bm i ≡ 1)
      → Found disk bm allowed (suc i) last r
      → Found disk bm allowed i last r
  Found-skip i last none h f = λ j from to ok. elim (ℕ_discrete i j) [
    | yes e ↦ subst (λ j. allowed j ≡ true → in_use disk bm j ≡ 1) e h ok
    | no n ↦ f j (omega arith) to ok
  ]
  Found-skip i last (some k) h (low, high, fits, clear, before) = (
    omega arith,
    high,
    fits,
    clear,
    λ j from to ok. elim (ℕ_discrete i j) [
      | yes e ↦ subst (λ j. allowed j ≡ true → in_use disk bm j ≡ 1) e h ok
      | no n ↦ before j (omega arith) to ok
    ],
  )

  find_clear-Found :
      (rounds i last : ℕ)
      → i + rounds ≡ last
      → Found disk bm allowed i last (find_clear disk bm allowed rounds i)
  unfolding find_clear
  find_clear-Found zero i last e = λ j from to ok. absurd (omega arith)
  find_clear-Found (suc rounds) i last e =
      let later = find_clear-Found rounds (suc i) last (omega arith) in
      let skip : (allowed i ≡ true → in_use disk bm i ≡ 1)
          → Found disk bm allowed i last (find_clear disk bm allowed rounds (suc i)) =
        λ h. Found-skip i last (find_clear disk bm allowed rounds (suc i)) h later in
      elim (Bool-cases (bit_and (disk (bm + i / 8)) (2 ^ (i % 8)) == 0)) [
        | inl c ↦ elim (Bool-cases (allowed i)) [
          | inl a ↦
              rw (c, a)
                (
                  omega arith,
                  omega arith,
                  a,
                  ground (arith, clear_iff (disk (bm + i / 8)) (i % 8)),
                  λ j from to ok. absurd (omega arith),
                )
          | inr a ↦ rw (c, a) (skip (λ ok. absurd (ground arith)))
        ]
        | inr c ↦ rw c (
            skip (λ ok.
              ground
                (arith, clear_iff (disk (bm + i / 8)) (i % 8), bit-le (disk (bm + i / 8)) (i % 8))))
      ]

-- What a claim leaves: number `k` is in use, the others are as they were, and the 16-bit count at
-- `count`, which stands before the bitmap, goes down by one round 2^16.
abbrev pub Claimed : Memory → (bm count k : ℕ) → Memory → Type 0
Claimed disk bm count k disk' =
    ((j : ℕ) → in_use disk' bm j ≡ (if j == k then 1 else in_use disk bm j))
    × (u16 disk' count ≡ (u16 disk count + 65535) % 65536)

u16-put_u16 : (disk : Memory) (a v : ℕ) → v < 65536 → u16 (put_u16 a v disk) a ≡ v
u16-put_u16 disk a v h = ground arith

-- A byte elsewhere leaves a field of two bytes alone.
u16-put_u8 : (disk : Memory) (a b v : ℕ) → a + 2 ≤ b → u16 (put_u8 b v disk) a ≡ u16 disk a
u16-put_u8 disk a b v h = ground arith

claim_bit-Claimed :
    (disk : Memory) (bm count k : ℕ)
    → ((a : ℕ) → disk a < 256)
    → count + 2 ≤ bm
    → Claimed disk bm count k (claim_bit bm count k disk)
claim_bit-Claimed disk bm count k bytes apart = (
  λ j. ground (
    arith,
    bit-bit_or (disk (bm + k / 8)) (2 ^ (k % 8)) (j % 8),
    bit-pow (k % 8) (j % 8),
    bit-le (disk (bm + k / 8)) (j % 8),
    bit_or-lt 8 (disk (bm + k / 8)) (2 ^ (k % 8)) (bytes (bm + k / 8))
        (pow-lt (k % 8) 8 (omega arith)),
  ),
  u16-put_u16 (put_u8 (bm + k / 8) (bit_or (disk (bm + k / 8)) (2 ^ (k % 8))) disk) count
        ((u16 (put_u8 (bm + k / 8) (bit_or (disk (bm + k / 8)) (2 ^ (k % 8))) disk) count + 65535)
          % 65536)
        (omega arith)
      ∙ ap (λ n. (n + 65535) % 65536)
          (u16-put_u8 disk count (bm + k / 8) (bit_or (disk (bm + k / 8)) (2 ^ (k % 8)))
            (omega arith)),
)

-- The outcome of a search over `total` numbers: none is free, or the lowest is claimed.
abbrev pub Taken : Memory → (bm count total : ℕ) (allowed : ℕ → Bool) → ℕ × Memory → Type 0
Taken disk bm count total allowed (n, disk') =
    ((n ≡ 0) × (disk' ≡ disk) × Found disk bm allowed 0 total none)
    ⊎ ((k : ℕ) × (n ≡ k + 1)
        × Found disk bm allowed 0 total (some k)
        × Claimed disk bm count k disk')

claim-Taken :
    (disk : Memory) (bm count total : ℕ) (allowed : ℕ → Bool)
    → ((a : ℕ) → disk a < 256)
    → count + 2 ≤ bm
    → (r : Option ℕ) → Found disk bm allowed 0 total r
    → Taken disk bm count total allowed
        (elim r [ none ↦ (0, disk) | some i ↦ (i + 1, claim_bit bm count i disk) ])
claim-Taken disk bm count total allowed bytes apart none f = inl (refl, refl, f)
claim-Taken disk bm count total allowed bytes apart (some k) f =
    inr (k, refl, f, claim_bit-Claimed disk bm count k bytes apart)

-- The search at an address that the wrapping to 32 bits leaves alone.
search-Taken :
    (disk : Memory) (b count total : ℕ) (allowed : ℕ → Bool)
    → ((a : ℕ) → disk a < 256)
    → count + 2 ≤ b * block_size
    → b * block_size + total / 8 < disk_size
    → Taken disk
        (b * block_size)
        count
        total
        allowed
        (elim (find_clear disk (b * block_size % 2 ^ 32) allowed total 0) [
          | none ↦ (0, disk)
          | some i ↦ (i + 1, claim_bit (b * block_size % 2 ^ 32) count i disk)
        ])
search-Taken disk b count total allowed bytes apart inside =
    let bm : ℕ = b * block_size in
    let unwrapped : bm ≡ bm % 2 ^ 32 = omega (arith, inside) in
    subst
      (λ at. Taken disk bm count total allowed (elim (find_clear disk at allowed total 0) [
        | none ↦ (0, disk)
        | some i ↦ (i + 1, claim_bit at count i disk)
      ]))
      unwrapped
      (claim-Taken disk bm count total allowed bytes apart (find_clear disk bm allowed total 0)
        (find_clear-Found disk bm allowed total 0 total (omega arith)))

-- On an image of bytes whose block bitmap stands behind the group descriptor, and with all its bits in
-- the mapped image, `find_free_block`
-- returns 0 and changes nothing where all blocks are in use, and else marks the lowest free block,
-- no other, counts one free block less, and returns its number plus 1.
pub find_free_block-Taken :
    (disk : Memory)
    → ((a : ℕ) → disk a < 256)
    → 3 ≤ u32 disk bg_block_bitmap
    → u32 disk bg_block_bitmap * block_size + u32 disk s_blocks_count / 8 < disk_size
    → Taken disk
        (u32 disk bg_block_bitmap * block_size)
        bg_free_blocks_count
        (u32 disk s_blocks_count)
        (λ _. true)
        (find_free_block disk)
unfolding find_free_block
find_free_block-Taken disk bytes apart inside =
    search-Taken disk (u32 disk bg_block_bitmap) bg_free_blocks_count (u32 disk s_blocks_count)
      (λ _. true) bytes (omega arith) inside

-- On an image of bytes whose inode bitmap stands behind the group descriptor, and with all its bits in
-- the mapped image, `find_free_inode`
-- returns 0 and changes nothing where all inodes from index 11 on are in use, and else marks the
-- lowest free one of these, no other, counts one free inode less, and returns its index plus 1.
pub find_free_inode-Taken :
    (disk : Memory)
    → ((a : ℕ) → disk a < 256)
    → 3 ≤ u32 disk bg_inode_bitmap
    → u32 disk bg_inode_bitmap * block_size + u32 disk s_inodes_count / 8 < disk_size
    → Taken disk
        (u32 disk bg_inode_bitmap * block_size)
        bg_free_inodes_count
        (u32 disk s_inodes_count)
        (λ i. ltb 10 i)
        (find_free_inode disk)
unfolding find_free_inode
find_free_inode-Taken disk bytes apart inside =
    search-Taken disk (u32 disk bg_inode_bitmap) bg_free_inodes_count (u32 disk s_inodes_count)
      (λ i. ltb 10 i) bytes (omega arith) inside
