-- ===== src/Ext2/Tools/Errors.antt =====
-- What the programs leave of the image when they fail.
use cscc.Prelude.{
  ℕ, Bool, true, false, ◌≡◌, ◌≢◌, refl, arith, Option, none, some, List, [], ◌∷◌, Memory,
}
use cscc.Prelude.{subst, if◌then◌else◌, ◌||◌}
use cscc.Ext2.Paths.{slash, tokens}
use cscc.Ext2.Traverse.{same_string}
use cscc.Ext2.Run.{Run, done, loops, crash, ◌>>=◌}
use cscc.Ext2.Inodes.{Fs, init}
use cscc.Ext2.Init.{Built, init-Built}
use cscc.Ext2.Tools.Cp.{cp_from, cp_names, cp_main, ext2_cp}
use cscc.Ext2.Tools.Ln.{ln_from, ln_paths, ln_names, ln_main, ext2_ln, symbolic_flag}
use cscc.Ext2.Tools.Exit.{
  Exit, success, failure, eisdir, complain, refuse, usage, with_image, paths_and_flag, dir_err,
  last_name,
}
use cscc.Ext2.Tools.Rm.{ext2_rm, rm_path, rm_names, rm_main}

-- If the program ends with another code than 0, the image is as it was.
abbrev pub Atomic : Option Memory → Run Exit → Type 0
Atomic image (done e) = e.code ≢ success → e.image ≡ image
Atomic image loops = Unit
Atomic image crash = Unit

-- The program does not end with 0.
abbrev pub Unsuccessful : Run Exit → Type 0
Unsuccessful (done e) = e.code ≢ success
Unsuccessful loops = Unit
Unsuccessful crash = Unit

pub rm_path-Atomic :
    (now : ℕ) (fs : Fs) (names : List (List ℕ)) (filename : List ℕ)
    → Atomic (some fs.disk) (rm_path now fs names filename)
unfolding rm_path
rm_path-Atomic now fs names filename = ground arith

pub Atomic-init :
    (disk : Memory) (f : Fs → Run Exit)
    → ((fs : Fs) → Atomic (some fs.disk) (f fs))
    → Atomic (some disk) (init disk >>= f)
Atomic-init disk f h = go (init disk) (init-Built disk)
  where
    go : (r : Run Fs) → Built disk r → Atomic (some disk) (r >>= f)
    go (done fs) e = subst (λ d. Atomic (some d) (f fs)) e.0 (h fs)
    go loops e = tt
    go crash e = tt

cp_from-Atomic :
    (buffer : List ℕ) (reads : Option (List (List ℕ))) (path2 filename : List ℕ) (fs : Fs)
    → Atomic (some fs.disk) (cp_from buffer reads path2 filename fs)
unfolding cp_from
cp_from-Atomic buffer reads path2 filename fs = ground arith

ln_paths-Unsuccessful :
    (sflag : Bool) (path2 first1 : List ℕ) (rest1 : List (List ℕ)) (first2 : List ℕ)
    → (rest2 : List (List ℕ)) (fs : Fs)
    → Unsuccessful (ln_paths sflag path2 first1 rest1 first2 rest2 fs)
unfolding ln_paths ln_from
ln_paths-Unsuccessful sflag path2 first1 rest1 first2 rest2 fs = ground arith

-- A choice of two ends.
Atomic-if :
    (b : Bool) (image : Option Memory) (x y : Run Exit)
    → Atomic image x
    → Atomic image y
    → Atomic image (if b then x else y)
Atomic-if true image x y h g = h
Atomic-if false image x y h g = g

rm_names-Atomic :
    (now : ℕ) (filename : List ℕ) (names : List (List ℕ)) (fs : Fs)
    → Atomic (some fs.disk) (rm_names now filename names fs)
unfolding rm_names
rm_names-Atomic now filename [] fs = λ _. refl
rm_names-Atomic now filename (cur ∷ names) fs = rm_path-Atomic now fs (cur ∷ names) filename

rm_main-Atomic :
    (basename : List ℕ → List ℕ) (now : ℕ) (path : List ℕ) (fs : Fs)
    → Atomic (some fs.disk) (rm_main basename now path fs)
unfolding rm_main
rm_main-Atomic basename now path fs =
    Atomic-if _ (some fs.disk) (complain dir_err failure fs.disk)
      (rm_names now (basename path) (tokens path) fs) (λ _. refl)
      (rm_names-Atomic now (basename path) (tokens path) fs)

cp_names-Atomic :
    (exists : Bool) (buffer : List ℕ) (reads : Option (List (List ℕ))) (path2 : List ℕ)
    → (names : List (List ℕ)) (fs : Fs)
    → Atomic (some fs.disk) (cp_names exists buffer reads path2 names fs)
unfolding cp_names
cp_names-Atomic exists buffer reads path2 [] fs = λ _. refl
cp_names-Atomic true buffer reads path2 (first ∷ rest) fs =
    cp_from-Atomic buffer reads path2 (last_name first rest) fs
cp_names-Atomic false buffer reads path2 (first ∷ rest) fs = λ _. refl

cp_main-Atomic :
    (exists : Bool) (buffer : List ℕ) (reads : Option (List (List ℕ))) (path1 path2 : List ℕ)
    (fs : Fs)
    → Atomic (some fs.disk) (cp_main exists buffer reads path1 path2 fs)
unfolding cp_main
cp_main-Atomic exists buffer reads path1 path2 fs =
    Atomic-if _ (some fs.disk) (complain dir_err eisdir fs.disk)
      (cp_names exists buffer reads path2 (tokens path1) fs) (λ _. refl)
      (cp_names-Atomic exists buffer reads path2 (tokens path1) fs)

-- Where ext2_rm ends with an error code, the image is unchanged.
pub ext2_rm-Atomic :
    (basename : List ℕ → List ℕ) (now : ℕ) (args : List (List ℕ)) (image : Option Memory)
    → Atomic image (ext2_rm basename now args image)
unfolding ext2_rm
ext2_rm-Atomic basename now (name ∷ path ∷ []) none = λ _. refl
ext2_rm-Atomic basename now (name ∷ path ∷ []) (some disk) =
    Atomic-init disk (rm_main basename now path) (rm_main-Atomic basename now path)
ext2_rm-Atomic basename now [] image = λ _. refl
ext2_rm-Atomic basename now (name ∷ []) image = λ _. refl
ext2_rm-Atomic basename now (name ∷ path ∷ x ∷ more) image = λ _. refl

-- Where ext2_cp ends with an error code, the image is unchanged.
pub ext2_cp-Atomic :
    (exists : Bool) (buffer : List ℕ) (reads : Option (List (List ℕ))) (args : List (List ℕ))
    → (image : Option Memory) → Atomic image (ext2_cp exists buffer reads args image)
unfolding ext2_cp
ext2_cp-Atomic exists buffer reads (name ∷ path1 ∷ path2 ∷ []) none = λ _. refl
ext2_cp-Atomic exists buffer reads (name ∷ path1 ∷ path2 ∷ []) (some disk) =
    Atomic-init disk (cp_main exists buffer reads path1 path2)
      (cp_main-Atomic exists buffer reads path1 path2)
ext2_cp-Atomic exists buffer reads [] image = λ _. refl
ext2_cp-Atomic exists buffer reads (name ∷ []) image = λ _. refl
ext2_cp-Atomic exists buffer reads (name ∷ path1 ∷ []) image = λ _. refl
ext2_cp-Atomic exists buffer reads (name ∷ path1 ∷ path2 ∷ x ∷ more) image = λ _. refl

ln_main-Unsuccessful :
    (sflag : Bool) (path1 path2 : List ℕ) (fs : Fs) → Unsuccessful (ln_main sflag path1 path2 fs)
unfolding ln_main
ln_main-Unsuccessful sflag path1 path2 fs =
    go (same_string path1 (slash ∷ []) || same_string path2 (slash ∷ [])) (tokens path1)
      (tokens path2)
  where
    names : (names1 names2 : List (List ℕ)) → Unsuccessful (ln_names sflag path2 names1 names2 fs)
    names [] names2 = cc
    names (first1 ∷ rest1) [] = cc
    names (first1 ∷ rest1) (first2 ∷ rest2) =
        ln_paths-Unsuccessful sflag path2 first1 rest1 first2 rest2 fs

    go :
        (b : Bool) (names1 names2 : List (List ℕ))
        → Unsuccessful
            (if b then complain dir_err eisdir fs.disk else ln_names sflag path2 names1 names2 fs)
    go true names1 names2 = cc
    go false names1 names2 = names names1 names2

-- ext2_ln never ends with 0, also where it has made the link.
pub ext2_ln-Unsuccessful :
    (args : List (List ℕ)) (image : Option Memory) → Unsuccessful (ext2_ln args image)
unfolding ext2_ln
ext2_ln-Unsuccessful args image = go (paths_and_flag symbolic_flag args) image
  where
    run :
        (sflag : Bool) (path1 path2 : List ℕ) (r : Run Fs)
        → Unsuccessful (r >>= ln_main sflag path1 path2)
    run sflag path1 path2 (done fs) = ln_main-Unsuccessful sflag path1 path2 fs
    run sflag path1 path2 loops = tt
    run sflag path1 path2 crash = tt

    go :
        (parsed : Option (List ℕ × List ℕ × Bool)) (image : Option Memory)
        → Unsuccessful (elim parsed [
          | none ↦ refuse usage image
          | some (path1, path2, sflag) ↦
              with_image image λ disk. init disk >>= ln_main sflag path1 path2
        ])
    go none image = cc
    go (some parsed) none = cc
    go (some (path1, path2, sflag)) (some disk) = run sflag path1 path2 (init disk)
