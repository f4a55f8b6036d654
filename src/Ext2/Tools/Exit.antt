-- ===== src/Ext2/Tools/Exit.antt =====
-- What the programs share: how they end, and how they read their arguments.
use cscc.Prelude.{
  ℕ, Bool, true, false, ◌==◌, ◌&&◌, ◌||◌, Option, none, some, List, [], ◌∷◌, if◌then◌else◌, Memory,
}
use cscc.Ext2.Directory.{ft_symlink, file_type}
use cscc.Ext2.Run.{Run, done}
use cscc.Ext2.Allocate.{ft_reg_file}

-- 0, 1 and the numbers of errno.h.
pub data Code : Type 0 where
  success : Code
  failure : Code
  enoent : Code
  eexist : Code
  eisdir : Code

-- `dir_err`, `dne_err` and `exist_err` of helper.c, and the messages on the arguments.
pub data Diagnostic : Type 0 where
  dir_err : Diagnostic
  dne_err : Diagnostic
  exist_err : Diagnostic
  usage : Diagnostic
  mmap_failed : Diagnostic

-- The exit code, the image as it is left, the lines on standard output and the message on standard
-- error.
pub record Exit : Type 0 where
  pub code : Code
  pub image : Option Memory
  pub out : List (List ℕ)
  pub err : Option Diagnostic

abbrev pub ended : Code → Memory → Run Exit
ended c disk = done (record { code = c; image = some disk; out = []; err = none })

abbrev pub complain : Diagnostic → Code → Memory → Run Exit
complain m c disk = done (record { code = c; image = some disk; out = []; err = some m })

-- The image is what `mmap` gives for the first argument, where it can be opened.
abbrev pub refuse : Diagnostic → Option Memory → Run Exit
refuse m image = done (record { code = failure; image = image; out = []; err = some m })

abbrev pub with_image : Option Memory → (Memory → Run Exit) → Run Exit
with_image none f = refuse mmap_failed none
with_image (some disk) f = f disk

-- `strncmp(arg, flag, strlen(flag)) == 0`
unfoldable pub starts_with : (flag arg : List ℕ) → Bool
starts_with [] arg = true
starts_with (c ∷ flag) [] = false
starts_with (c ∷ flag) (d ∷ arg) = (c == d) && starts_with flag arg

-- The path and the flag from the arguments of ext2_ls and ext2_rm_bonus, without the program's name.
-- With three arguments one must be the flag, and not the first.
unfoldable pub path_and_flag : (flag : List ℕ) → List (List ℕ) → Option (List ℕ × Bool)
unfolding starts_with
path_and_flag flag (disk ∷ path ∷ []) = some (path, false)
path_and_flag flag (x ∷ y ∷ z ∷ []) =
    if starts_with flag x
    then none
    else if starts_with flag y
    then some (z, true)
    else if starts_with flag z
    then some (y, true)
    else none
path_and_flag flag _ = none

-- The two paths and the flag from the arguments of ext2_ln.
unfoldable pub paths_and_flag : (flag : List ℕ) → List (List ℕ) → Option (List ℕ × List ℕ × Bool)
unfolding starts_with
paths_and_flag flag (disk ∷ path1 ∷ path2 ∷ []) = some (path1, path2, false)
paths_and_flag flag (w ∷ x ∷ y ∷ z ∷ []) =
    if starts_with flag w
    then none
    else if starts_with flag x
    then some (y, z, true)
    else if starts_with flag y
    then some (x, z, true)
    else if starts_with flag z
    then some (x, y, true)
    else none
paths_and_flag flag _ = none

-- `names[count - 1]`, where there is a name.
unfoldable pub last_name : List ℕ → List (List ℕ) → List ℕ
last_name name [] = name
last_name name (n ∷ names) = last_name n names

-- Is the entry a file or a symbolic link?
abbrev pub is_file : Memory → (pos : ℕ) → Bool
is_file disk pos = (file_type disk pos == ft_symlink) || (file_type disk pos == ft_reg_file)
