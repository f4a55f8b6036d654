-- ===== src/Ext2/Paths.antt =====
-- Paths: `count_item_in_path`, `arr_names` and `get_parent_path` of str_helper.c, and `traverse` of
-- helper.c.
use cscc.Prelude.{ℕ, true, false, ◌==◌, Option, none, some}
use cscc.Prelude.{List, [], ◌∷◌, length, if◌then◌else◌}

-- `/`
abbrev pub slash : ℕ
slash = 47

-- The first list in reverse, before the second.
unfoldable pub rev_onto : List ℕ → List ℕ → List ℕ
rev_onto [] ys = ys
rev_onto (x ∷ xs) ys = rev_onto xs (x ∷ ys)

abbrev pub close_run : List ℕ → List (List ℕ) → List (List ℕ)
close_run [] rest = rest
close_run (c ∷ run) rest = rev_onto (c ∷ run) [] ∷ rest

-- The tokens that `strtok` gives for "/", one call after another: the runs of other characters.
-- `run` is the token that is being read, last character first.
unfoldable pub tokens_from : (run path : List ℕ) → List (List ℕ)
unfolding rev_onto
tokens_from run [] = close_run run []
tokens_from run (c ∷ path) = elim (c == slash) [
  | true ↦ close_run run (tokens_from [] path)
  | false ↦ tokens_from (c ∷ run) path
]

unfoldable pub tokens : List ℕ → List (List ℕ)
unfolding tokens_from
tokens path = tokens_from [] path

abbrev pub count_item_in_path : List ℕ → ℕ
count_item_in_path path = length (tokens path)

abbrev pub arr_names : List ℕ → List (List ℕ)
arr_names path = tokens path

-- A slash at the end is cut.
unfoldable pub trim_slash : List ℕ → List ℕ
trim_slash [] = []
trim_slash (c ∷ []) = if c == slash then [] else c ∷ []
trim_slash (c ∷ d ∷ path) = c ∷ trim_slash (d ∷ path)

-- `strrchr(copy, '/')`, and a zero byte there: what stands before the last slash.
unfoldable pub before_last : List ℕ → Option (List ℕ)
before_last [] = none
before_last (c ∷ path) = elim (before_last path) [
  | some front ↦ some (c ∷ front)
  | none ↦ if c == slash then some [] else none
]

unfoldable pub get_parent_path : (count : ℕ) → List ℕ → List ℕ
unfolding trim_slash before_last
get_parent_path count path =
    if count == 1
    then slash ∷ []
    else (elim (before_last (trim_slash path)) [ some front ↦ front | none ↦ trim_slash path ])
