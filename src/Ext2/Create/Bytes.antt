-- ===== src/Ext2/Create/Bytes.antt =====
-- The entries of a directory block as records, and memories that agree on them.
use cscc.Prelude.{
  ℕ, zero, suc, ◌+◌, ◌*◌, ◌%◌, ◌≡◌, ◌≤◌, ◌<◌, arith, refl, ap, ap₂, ◌∙◌, List, [], ◌∷◌, length,
  get_or, Memory, load, ◌==◌, true, false,
}
use cscc.Ext2.Blocks.{block_size}
use cscc.Ext2.Directory.{rec_len, name_len, entry_inode, file_type}
use cscc.Ext2.Search.{name_at, Entries}

-- What an entry says: a name, an inode, a file type.
pub record DirEntry : Type 0 where
  pub name : List ℕ
  pub inode : ℕ
  pub type : ℕ

abbrev pub entry_at : Memory → ℕ → DirEntry
entry_at disk p = record {
  name = name_at disk p;
  inode = entry_inode disk p;
  type = file_type disk p;
}

abbrev pub listing : Memory → List ℕ → List DirEntry
listing disk [] = []
listing disk (p ∷ ps) = entry_at disk p ∷ listing disk ps

-- `ps` are the entries from `pos` to the end `finish` of the block, each with room for its name.
abbrev pub Block : Memory → (finish pos : ℕ) → List ℕ → Type 0
Block disk finish pos [] = pos ≡ finish
Block disk finish pos (p ∷ ps) =
    (p ≡ pos)
    × (8 + name_len disk pos ≤ rec_len disk pos)
    × (pos + rec_len disk pos ≤ finish)
    × Block disk finish (pos + rec_len disk pos) ps

-- The two memories hold the same from `a` to `b`.
abbrev pub Same : (a b : ℕ) → Memory → Memory → Type 0
Same a b disk disk' = (k : ℕ) → a ≤ k → k < b → disk' k ≡ disk k

load-Same :
    (disk disk' : Memory) (n a : ℕ) → Same a (a + n) disk disk' → load disk' n a ≡ load disk n a
load-Same disk disk' zero a h = refl
load-Same disk disk' (suc n) a h =
    ap₂ ◌∷◌ (h a (omega arith) (omega arith))
      (load-Same disk disk' n (suc a) (λ k from to. h k (omega arith) (omega arith)))

-- The bytes at `a` are these.
pub load-bytes :
    (disk : Memory) (s : List ℕ) (a : ℕ)
    → ((k : ℕ) → k < length s → disk (a + k) ≡ get_or s k 0)
    → load disk (length s) a ≡ s
load-bytes disk [] a h = refl
load-bytes disk (c ∷ s) a h =
    ap₂ ◌∷◌ (ap disk (omega arith) ∙ h 0 (omega arith))
      (load-bytes disk s (suc a) (λ k lt. ap disk (omega arith) ∙ h (suc k) (omega arith)))

pub DirEntry_eq :
    {n n' : List ℕ} {i i' t t' : ℕ}
    → n ≡ n'
    → i ≡ i'
    → t ≡ t'
    → ◌≡◌ {A = DirEntry}
        (record { name = n; inode = i; type = t })
        (record { name = n'; inode = i'; type = t' })
DirEntry_eq a b c = cc

-- What the entry at `p` says lies in memory that does not change; its length may.
module _ (disk disk' : Memory) (p : ℕ) (number : Same p (p + 4) disk disk')
    (text : Same (p + 6) (p + (8 + name_len disk p)) disk disk') where
  pub name_len-Kept : name_len disk' p ≡ name_len disk p
  name_len-Kept = text (p + 6) (omega arith) (omega arith)

  pub entry_at-Kept : entry_at disk' p ≡ entry_at disk p
  entry_at-Kept =
      let four = λ (b c d e : ℕ). b + 256 * (c + 256 * (d + 256 * (e + 256 * 0))) in
      let name : name_at disk' p ≡ name_at disk p =
        ap (λ n. load disk' n (p + 8)) name_len-Kept
        ∙ load-Same disk disk' (name_len disk p) (p + 8)
            (λ k from to. text k (omega arith) (omega arith)) in
      let inode : entry_inode disk' p ≡ entry_inode disk p =
        ap₂ (λ b c. four b c (disk' (suc (suc p))) (disk' (suc (suc (suc p)))))
          (number p (omega arith) (omega arith)) (number (suc p) (omega arith) (omega arith))
        ∙ ap₂ (four (disk p) (disk (suc p))) (number (suc (suc p)) (omega arith) (omega arith))
            (number (suc (suc (suc p))) (omega arith) (omega arith)) in
      let type : file_type disk' p ≡ file_type disk p = text (p + 7) (omega arith) (omega arith) in
      DirEntry_eq name inode type

-- The whole entry at `p` lies in memory that does not change.
module _ (disk disk' : Memory) (p : ℕ) (same : Same p (p + (8 + name_len disk p)) disk disk') where
  pub rec_len-Same : rec_len disk' p ≡ rec_len disk p
  rec_len-Same =
      ap₂ (λ (b c : ℕ). b + 256 * (c + 256 * 0)) (same (p + 4) (omega arith) (omega arith))
        (same (suc (p + 4)) (omega arith) (omega arith))

  pub name_len-Same : name_len disk' p ≡ name_len disk p
  name_len-Same = same (p + 6) (omega arith) (omega arith)

  pub entry_at-Same : entry_at disk' p ≡ entry_at disk p
  entry_at-Same =
      entry_at-Kept disk disk' p (λ k from to. same k from (omega arith))
        (λ k from to. same k (omega arith) to)

pub is_round : (n : ℕ) → n % block_size ≡ 0 → (n % block_size == 0) ≡ true
is_round n h = ground arith

pub not_round :
    (finish a : ℕ)
    → finish % block_size ≡ 0
    → a < finish
    → finish < a + block_size
    → (a % block_size == 0) ≡ false
not_round finish a h lt near = ground arith

-- The end of a block is where the walk over it stops.
pub Block-Entries :
    (disk : Memory) (finish pos p : ℕ) (ps : List ℕ)
    → finish % block_size ≡ 0
    → finish ≤ pos + block_size
    → Block disk finish pos (p ∷ ps)
    → Entries disk pos (p ∷ ps)
Block-Entries disk finish pos p [] round near (at, fits, inside, end) =
    (at, ap (λ a. a % block_size == 0) end ∙ is_round finish round)
Block-Entries disk finish pos p (q ∷ ps) round near
      (at, fits, inside, (at', fits', inside', rest)) =
    (
      at,
      not_round finish (pos + rec_len disk pos) round (omega arith) (omega arith),
      Block-Entries disk finish (pos + rec_len disk pos) q ps round (omega arith)
          (at', fits', inside', rest),
    )

-- The entries take eight bytes or more each.
pub Block-length :
    (disk : Memory) (finish pos : ℕ) (ps : List ℕ)
    → Block disk finish pos ps
    → pos + 8 * length ps ≤ finish
Block-length disk finish pos [] end = omega (arith, end)
Block-length disk finish pos (p ∷ ps) (at, fits, inside, rest) =
    omega (arith, fits, Block-length disk finish (pos + rec_len disk pos) ps rest)
