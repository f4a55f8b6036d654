-- ===== src/Ext2/Create/Split.antt =====
-- `create_link` cuts an entry and puts the new one behind it.
use cscc.Prelude.{
  ℕ, zero, suc, ◌+◌, ◌-◌, ◌*◌, ◌%◌, ◌^◌, ◌≡◌, ◌≢◌, ◌≤◌, ◌<◌, ◌⊎◌, inr, arith, refl, ap, ◌∙◌, List,
  [], ◌∷◌, ◌++◌, length, get_or, Memory, load, store, le_bytes, le_value, ap₂, ◌/◌,
}
use cscc.Ext2.Blocks.{round_up, put_u8, put_u16, put_u32}
use cscc.Ext2.Directory.{
  rec_len, name_len, entry_inode, file_type, dir_size, total_size, split_entry, ft_symlink,
}
use cscc.Ext2.Search.{name_at}
use cscc.Ext2.Create.Bytes.{load-bytes}

pub round_up_lem : (n : ℕ) → (n < round_up n) × (round_up n ≤ n + 4)
unfolding round_up
round_up_lem n = omega arith

store_in :
    (disk : Memory) (a : ℕ) (bytes : List ℕ) (k : ℕ)
    → k < length bytes
    → store disk a bytes (a + k) ≡ get_or bytes k 0
store_in disk a bytes k lt = ground arith

store_out :
    (disk : Memory) (a : ℕ) (bytes : List ℕ) (k : ℕ)
    → (k < a) ⊎ (a + length bytes ≤ k)
    → store disk a bytes k ≡ disk k
store_out disk a bytes k out = ground arith

length-snoc : (s : List ℕ) (c : ℕ) → length (s ++ (c ∷ [])) ≡ suc (length s)
length-snoc [] c = refl
length-snoc (x ∷ s) c = omega (arith, length-snoc s c)

get_or-snoc : (s : List ℕ) (c k : ℕ) → k < length s → get_or (s ++ (c ∷ [])) k 0 ≡ get_or s k 0
get_or-snoc [] c k lt = absurd (omega arith)
get_or-snoc (x ∷ s) c zero lt = refl
get_or-snoc (x ∷ s) c (suc k) lt = get_or-snoc s c k (omega arith)

le_value_lem : (v : ℕ) → v < 2 ^ 32 → le_value (le_bytes 4 v) ≡ v
le_value_lem v h = omega arith

-- The six stores, at any two addresses that are apart.
module _ (disk : Memory) (p at size left inode mode : ℕ) (name : List ℕ) where
  abbrev spell : Memory
  spell = store (put_u8 (at + 7) mode (put_u16 (p + 4) size disk)) (at + 8) (name ++ (0 ∷ []))

  abbrev pub written : Memory
  written = put_u32 at inode (put_u16 (at + 4) left (put_u8 (at + 6) (length name) spell))

  module _ (apart : p + 6 ≤ at) where
    spell_out :
        (k : ℕ)
        → (k < at + 8) ⊎ (at + 9 + length name ≤ k)
        → spell k ≡ put_u8 (at + 7) mode (put_u16 (p + 4) size disk) k
    spell_out k out =
        let len = length-snoc name 0 in
        store_out (put_u8 (at + 7) mode (put_u16 (p + 4) size disk)) (at + 8) (name ++ (0 ∷ [])) k
          (ground arith)

    header_out : (k : ℕ) → (k < at) ⊎ (at + 7 ≤ k) → written k ≡ spell k
    header_out k out = ground arith

    pub written_out :
        (k : ℕ)
        → (k < p + 4) ⊎ (((p + 6 ≤ k) × (k < at)) ⊎ (at + 9 + length name ≤ k))
        → written k ≡ disk k
    written_out k out = ground (arith, header_out k, spell_out k)

    pub written-cut : size < 2 ^ 16 → rec_len written p ≡ size
    written-cut h =
        ground (arith, header_out (p + 4), header_out (p + 5), spell_out (p + 4), spell_out (p + 5))

    pub written-rest : left < 2 ^ 16 → rec_len written at ≡ left
    written-rest h = ground arith

    pub written-named : length name < 256 → name_len written at ≡ length name
    written-named h = ground arith

    pub written-typed : mode < 256 → file_type written at ≡ mode
    written-typed h = ground (arith, header_out (at + 7), spell_out (at + 7))

    pub written-numbered : inode < 2 ^ 32 → entry_inode written at ≡ inode
    written-numbered h =
        let at' = put_u16 (at + 4) left (put_u8 (at + 6) (length name) spell) in
        let lead = store_in at' at (le_bytes 4 inode) in
        ap₂
          (λ b c.
            b
            + 256
              * (c
                  + 256
                    * (written (suc (suc at)) + 256 * (written (suc (suc (suc at))) + 256 * 0))))
          (ap written (omega arith) ∙ lead 0 (omega arith))
          (ap written (omega arith) ∙ lead 1 (omega arith))
        ∙ ap₂ (λ d e. inode % 256 + 256 * (inode / 256 % 256 + 256 * (d + 256 * (e + 256 * 0))))
            (ap written (omega arith) ∙ lead 2 (omega arith))
            (ap written (omega arith) ∙ lead 3 (omega arith))
        ∙ le_value_lem inode h

    pub written-spelled : length name < 256 → name_at written at ≡ name
    written-spelled h =
        ap (λ n. load written n (at + 8)) (written-named h)
        ∙ load-bytes written name (at + 8) (λ k lt.
          let len = length-snoc name 0 in
          header_out (at + 8 + k) (inr (omega arith))
          ∙ store_in (put_u8 (at + 7) mode (put_u16 (p + 4) size disk)) (at + 8) (name ++ (0 ∷ []))
              k (omega arith)
          ∙ get_or-snoc name 0 k lt)

-- The entry at `p` has room for itself and for the new one.
module _ (disk : Memory) (p inode : ℕ) (name : List ℕ) (mode : ℕ) (bytes : (a : ℕ) → disk a < 256)
    (plain : mode ≢ ft_symlink)
    (room : dir_size disk p + total_size name mode ≤ rec_len disk p) where
  pub size-bounds : (8 + name_len disk p < dir_size disk p) × (dir_size disk p < 2 ^ 16)
  size-bounds =
      let b = bytes (p + 6) in
      let r = round_up_lem (4 + 2 + 1 + name_len disk p + 1) in (omega (arith, r), omega (arith, r))

  pub total-bounds : 18 + length name < total_size name mode
  total-bounds = let r = round_up_lem (4 + 2 + 8 + length name + 4) in ground arith

  pub split_entry-written :
      split_entry inode name mode p disk
      ≡ written disk p
          (p + dir_size disk p)
          (dir_size disk p)
          (rec_len disk p - dir_size disk p)
          inode
          mode
          name
  split_entry-written =
      let place : dir_size disk p % 2 ^ 16 ≡ dir_size disk p = omega (arith, size-bounds) in
      ap
        (λ v.
          written disk p (p + v) (dir_size disk p) (rec_len disk p - dir_size disk p) inode mode
            name)
        place
