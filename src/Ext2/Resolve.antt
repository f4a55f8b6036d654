-- ===== src/Ext2/Resolve.antt =====
-- `traverse` against the entries of the directories: what a path leads to.
mod Sample
use cscc.Prelude.{
  ℕ, ◌+◌, ◌*◌, ◌%◌, ◌≡◌, ◌≢◌, ◌≤◌, ◌⊎◌, inl, inr, refl, sym, ap, ap₂, ◌∙◌, arith, subst, Bool, true,
  false, Bool-cases, Option, none, some, List, [], ◌∷◌, length, if◌then◌else◌, Memory,
}
use native.Mathlib.Decide.{ℕ_discrete}
use cscc.Ext2.Blocks.{block_size}
use cscc.Ext2.Directory.{
  Search, found, missing, endless, fault, scan_block, is_home, is_named, entry_inode, scan,
}
use cscc.Ext2.Blocks.{disk_size}
use cscc.Ext2.Search.{First, name_at, entry_of, is_named-name_at, scan-First}
use cscc.Ext2.Run.{Run, done, loops, crash}
use cscc.Ext2.Traverse.{same_string, step_in, walk, traverse, root_ino}
use cscc.Ext2.Paths.{slash}
use cscc.Ext2.Lookup.{lookup, follow, step_in-follow, lookup-name, same_string_refl}
use cscc.Ext2.Create.Bytes.{DirEntry, entry_at, listing, Block-Entries, Block-length}
use cscc.Ext2.Create.Dirs.{Holds, DirBlocks}

-- The inode that a path leads to from an inode, up to the first component with the name `filename`; 0
-- where there is none.
abbrev pub resolve :
    Memory
    → (dirs : List ℕ) → List (List ℕ)
    → (filename : List ℕ) → (path : List (List ℕ)) (inode : ℕ) → ℕ
resolve disk dirs blocks filename [] inode = 0
resolve disk dirs blocks filename (s ∷ path) inode = elim (lookup disk dirs blocks inode s) [
  | none ↦ 0
  | some e ↦
      let rest = resolve disk dirs blocks filename path e.inode in
      if same_string e.name filename then e.inode else rest
]

-- The last component of a path.
abbrev pub last_of : List ℕ → List (List ℕ) → List ℕ
last_of s [] = s
last_of s (t ∷ path) = last_of t path

module _ (disk : Memory) (dirs : List ℕ) (blocks : List (List ℕ))
    (good : DirBlocks disk dirs blocks) where
  -- The rest of the walk from an entry, where the walk from its inode is known.
  follow-resolve :
      (filename : List ℕ) (path : List (List ℕ)) (o : Option DirEntry)
      → ((inode : ℕ)
          → walk disk dirs filename path inode
            ≡ done (resolve disk dirs blocks filename path inode))
      → follow filename (walk disk dirs filename path) o
        ≡ done (elim o as (λ _. ℕ) [
          | none ↦ 0
          | some e ↦
              let rest = resolve disk dirs blocks filename path e.inode in
              if same_string e.name filename then e.inode else rest
        ])
  follow-resolve filename path none again = refl
  follow-resolve filename path (some e) again = elim (Bool-cases (same_string e.name filename)) [
    | inl same ↦ rw same refl
    | inr other ↦ rw other (again e.inode)
  ]

  follow-last :
      (s : List ℕ) (next : ℕ → Run ℕ) (o : Option DirEntry)
      → ((e : DirEntry) → o ≡ some e → e.name ≡ s)
      → follow s next o
        ≡ done
            (elim o as (λ _. ℕ) [ none ↦ 0 | some e ↦ if same_string e.name s then e.inode else 0 ])
  follow-last s next none named = refl
  follow-last s next (some e) named =
      rw (ap (λ n. same_string n s) (named e refl) ∙ same_string_refl s) refl

  walk-resolve :
      (s : List ℕ) (path : List (List ℕ)) (inode : ℕ)
      → walk disk dirs (last_of s path) (s ∷ path) inode
        ≡ done (resolve disk dirs blocks (last_of s path) (s ∷ path) inode)
  unfolding walk
  walk-resolve s [] inode =
      step_in-follow disk s s (walk disk dirs s []) dirs blocks inode good
      ∙ follow-last s (walk disk dirs s []) (lookup disk dirs blocks inode s)
          (λ e. lookup-name disk dirs blocks inode s e)
  walk-resolve s (t ∷ path) inode =
      let filename = last_of t path in
      step_in-follow disk s filename (walk disk dirs filename (t ∷ path)) dirs blocks inode good
      ∙ follow-resolve filename (t ∷ path) (lookup disk dirs blocks inode s)
          (λ inode. walk-resolve t path inode)

  -- On well-formed directory blocks, `traverse` returns, for a path with a component and its last
  -- component: the root's inode where this is "/", and else the inode of the entry to which the
  -- components lead, each looked up among the entries of the directory that the one before names, up
  -- to the first component with the name of the last; or 0 where a component is not there. No null
  -- pointer is read.
  pub traverse-resolve :
      (s : List ℕ) (path : List (List ℕ)) (inode : ℕ)
      → traverse disk dirs inode (s ∷ path) (last_of s path)
        ≡ done (
            if same_string (last_of s path) (slash ∷ [])
            then root_ino
            else resolve disk dirs blocks (last_of s path) (s ∷ path) inode)
  unfolding traverse
  traverse-resolve s path inode = elim (Bool-cases (same_string (last_of s path) (slash ∷ []))) [
    | inl root ↦ rw root refl
    | inr other ↦ rw other (walk-resolve s path inode)
  ]
