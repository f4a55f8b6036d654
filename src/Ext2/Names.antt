-- ===== src/Ext2/Names.antt =====
-- Paths made of names, and what str_helper.c takes out of them.
use cscc.Prelude.{ℕ, ◌+◌, ◌≡◌, ◌==◌, arith, refl, ap, sym, ◌∙◌, Bool, true, false}
use cscc.Prelude.{none, some, List, [], ◌∷◌, ◌++◌, length}
use cscc.Ext2.Paths.{
  slash, rev_onto, close_run, tokens_from, tokens, count_item_in_path, arr_names, trim_slash,
  before_last, get_parent_path,
}

-- No character of it is a slash.
abbrev pub Plain : List ℕ → Type 0
Plain [] = Unit
Plain (c ∷ name) = ((c == slash) ≡ false) × Plain name

-- A name has a character, and no slash.
abbrev pub IsName : List ℕ → Type 0
IsName [] = ⊥
IsName (c ∷ name) = Plain (c ∷ name)

IsName-Plain : (name : List ℕ) → IsName name → Plain name
IsName-Plain [] h = elim h [ ]
IsName-Plain (c ∷ name) h = h

abbrev pub AllNames : List (List ℕ) → Type 0
AllNames [] = Unit
AllNames (n ∷ names) = IsName n × AllNames names

-- The absolute path of the names.
unfoldable pub join : List (List ℕ) → List ℕ
join [] = []
join (n ∷ names) = slash ∷ (n ++ join names)

-- A slash at the end, or none.
abbrev pub trail : Bool → List ℕ
trail true = slash ∷ []
trail false = []

append_assoc : (xs ys zs : List ℕ) → (xs ++ ys) ++ zs ≡ xs ++ (ys ++ zs)
append_assoc [] ys zs = refl
append_assoc (x ∷ xs) ys zs = ap (λ l. x ∷ l) (append_assoc xs ys zs)

append-nil : (xs : List ℕ) → xs ++ [] ≡ xs
append-nil [] = refl
append-nil (x ∷ xs) = ap (λ l. x ∷ l) (append-nil xs)

rev_onto-rev_onto : (xs ys zs : List ℕ) → rev_onto (rev_onto xs ys) zs ≡ rev_onto ys (xs ++ zs)
unfolding rev_onto
rev_onto-rev_onto [] ys zs = refl
rev_onto-rev_onto (x ∷ xs) ys zs = rev_onto-rev_onto xs (x ∷ ys) zs

tokens_from-Plain :
    (run name path : List ℕ)
    → Plain name
    → tokens_from run (name ++ path) ≡ tokens_from (rev_onto name run) path
unfolding tokens_from rev_onto
tokens_from-Plain run [] path h = refl
tokens_from-Plain run (c ∷ name) path (h, hs) =
    rw (tokens_from, h) (tokens_from-Plain (c ∷ run) name path hs)

-- A run that is not empty is a token.
close_run-rev_onto :
    (xs : List ℕ) (y : ℕ) (ys : List ℕ) (rest : List (List ℕ))
    → close_run (rev_onto xs (y ∷ ys)) rest ≡ rev_onto (rev_onto xs (y ∷ ys)) [] ∷ rest
unfolding rev_onto
close_run-rev_onto [] y ys rest = refl
close_run-rev_onto (x ∷ xs) y ys rest = close_run-rev_onto xs x (y ∷ ys) rest

close_run-name :
    (name : List ℕ) (rest : List (List ℕ))
    → IsName name
    → close_run (rev_onto name []) rest ≡ name ∷ rest
unfolding rev_onto
close_run-name [] rest h = elim h [ ]
close_run-name (c ∷ name) rest h =
    close_run-rev_onto name c [] rest
    ∙ ap (λ l. l ∷ rest) (rev_onto-rev_onto name (c ∷ []) [] ∙ ap (λ l. c ∷ l) (append-nil name))

tokens_from-join :
    (run : List ℕ) (names : List (List ℕ)) (t : Bool)
    → AllNames names
    → tokens_from run (join names ++ trail t) ≡ close_run run names
unfolding tokens_from join
tokens_from-join run [] true h = refl
tokens_from-join run [] false h = refl
tokens_from-join run (n ∷ names) t (h, hs) = ap (close_run run) (
    ap (tokens_from []) (append_assoc n (join names) (trail t))
    ∙ tokens_from-Plain [] n (join names ++ trail t) (IsName-Plain n h)
    ∙ tokens_from-join (rev_onto n []) names t hs
    ∙ close_run-name n names h)

before_last-Plain : (name : List ℕ) → Plain name → before_last name ≡ none
unfolding before_last
before_last-Plain [] h = refl
before_last-Plain (c ∷ name) (h, hs) = rw (before_last-Plain name hs, h) refl

before_last-slash :
    (front name : List ℕ) → Plain name → before_last (front ++ (slash ∷ name)) ≡ some front
unfolding before_last
before_last-slash [] name h = rw (before_last-Plain name h) refl
before_last-slash (c ∷ front) name h = rw (before_last-slash front name h) refl

trim_slash-append :
    (front : List ℕ) (c : ℕ) (name : List ℕ)
    → trim_slash (front ++ (c ∷ name)) ≡ front ++ trim_slash (c ∷ name)
unfolding trim_slash
trim_slash-append [] c name = refl
trim_slash-append (x ∷ []) c name = refl
trim_slash-append (x ∷ y ∷ front) c name = ap (λ l. x ∷ l) (trim_slash-append (y ∷ front) c name)

-- The slash at the end goes, and nothing else.
trim_slash-name :
    (c : ℕ) (name : List ℕ) (t : Bool)
    → Plain (c ∷ name)
    → trim_slash (c ∷ (name ++ trail t)) ≡ c ∷ name
unfolding trim_slash
trim_slash-name c [] true h = refl
trim_slash-name c [] false (h, hs) = rw h refl
trim_slash-name c (d ∷ name) t (h, hs) = ap (λ l. c ∷ l) (trim_slash-name d name t hs)

join-append :
    (names : List (List ℕ)) (name : List ℕ)
    → join (names ++ (name ∷ [])) ≡ join names ++ (slash ∷ name)
unfolding join
join-append [] name = ap (λ l. slash ∷ l) (append-nil name)
join-append (n ∷ names) name =
    ap (λ l. slash ∷ l)
      (ap (λ l. n ++ l) (join-append names name) ∙ sym (append_assoc n (join names) (slash ∷ name)))

-- The absolute path of names, with or without a slash at its end, is split into these names, and
-- their number is what `count_item_in_path` counts.
pub arr_names-join :
    (names : List (List ℕ)) (t : Bool)
    → AllNames names
    → (arr_names (join names ++ trail t) ≡ names)
      × (count_item_in_path (join names ++ trail t) ≡ length names)
unfolding tokens
arr_names-join names t h =
    (tokens_from-join [] names t h, ap length (tokens_from-join [] names t h))

slash-first :
    (c : ℕ) (name : List ℕ) (t : Bool)
    → Plain (c ∷ name)
    → trim_slash (slash ∷ c ∷ (name ++ trail t)) ≡ slash ∷ c ∷ name
unfolding trim_slash
slash-first c name t h = ap (λ l. slash ∷ l) (trim_slash-name c name t h)

-- What is left of a path by `get_parent_path`, once a slash at its end is cut.
before_last-trim_slash :
    (names : List (List ℕ)) (name : List ℕ) (t : Bool)
    → IsName name
    → before_last (trim_slash (join (names ++ (name ∷ [])) ++ trail t)) ≡ some (join names)
before_last-trim_slash names [] t h = elim h [ ]
before_last-trim_slash names (c ∷ name) t h =
    ap before_last (
      ap (λ l. trim_slash (l ++ trail t)) (join-append names (c ∷ name))
      ∙ ap trim_slash (append_assoc (join names) (slash ∷ c ∷ name) (trail t))
      ∙ trim_slash-append (join names) slash (c ∷ (name ++ trail t))
      ∙ ap (λ l. join names ++ l) (slash-first c name t h))
    ∙ before_last-slash (join names) (c ∷ name) h

AllNames-append :
    (names : List (List ℕ)) (name : List ℕ)
    → AllNames names
    → IsName name
    → AllNames (names ++ (name ∷ []))
AllNames-append [] name h g = (g, tt)
AllNames-append (n ∷ names) name (h, hs) g = (h, AllNames-append names name hs g)

length-append :
    (names : List (List ℕ)) (name : List ℕ) → length (names ++ (name ∷ [])) ≡ length names + 1
length-append [] name = refl
length-append (n ∷ names) name = omega (arith, length-append names name)

parent-root : (path : List ℕ) → arr_names (get_parent_path 1 path) ≡ []
unfolding get_parent_path tokens tokens_from
parent-root path = refl

parent-front :
    (count : ℕ) (path : List ℕ) (names : List (List ℕ))
    → (count == 1) ≡ false
    → AllNames names
    → before_last (trim_slash path) ≡ some (join names)
    → arr_names (get_parent_path count path) ≡ names
unfolding get_parent_path
parent-front count path names n h e =
    rw (n, e) (sym (ap arr_names (append-nil (join names))) ∙ (arr_names-join names false h).0)

-- For the absolute path of `names` and one more name, with or without a slash at its end,
-- `get_parent_path` at the number of names of this path gives a path whose names are `names`.
pub get_parent_path-join :
    (names : List (List ℕ)) (name : List ℕ) (t : Bool)
    → AllNames names
    → IsName name
    → let path = join (names ++ (name ∷ [])) ++ trail t in
      arr_names (get_parent_path (count_item_in_path path) path) ≡ names
get_parent_path-join names name t h g =
    ap (λ k. arr_names (get_parent_path k path)) counted ∙ go names refl
  where
    path : List ℕ
    path = join (names ++ (name ∷ [])) ++ trail t

    counted : count_item_in_path path ≡ length names + 1
    counted =
        (arr_names-join (names ++ (name ∷ [])) t (AllNames-append names name h g)).1
        ∙ length-append names name

    go :
        (ns : List (List ℕ))
        → names ≡ ns
        → arr_names (get_parent_path (length names + 1) path) ≡ names
    go [] e = rw e (parent-root _)
    go (n ∷ ns) e =
        parent-front (length names + 1) path names (rw e (ground arith)) h
          (before_last-trim_slash names name t g)
