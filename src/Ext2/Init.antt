-- ===== src/Ext2/Init.antt =====
-- What `init` leaves in the globals.
use cscc.Prelude.{
  ℕ, zero, suc, ◌+◌, ◌≡◌, ◌<◌, ◌≤◌, arith, refl, Bool, true, false, List, ◌∷◌, length, get_or,
}
use cscc.Prelude.{leb, ltb, ◌&&◌, if◌then◌else◌, Memory}
use cscc.Ext2.Blocks.{u32, s_inodes_count}
use cscc.Ext2.Run.{Run, done, loops, crash, ◌>>=◌, require}
use cscc.Ext2.Inodes.{Fs, init, used_from, dirs_of, is_used, inode_bitmap}

-- The globals stand for this image, and the inodes are the root and those in use.
abbrev pub Built : Memory → Run Fs → Type 0
Built disk (done fs) = (fs.disk ≡ disk) × (fs.inum ≡ 1 ∷ used_from disk (u32 disk s_inodes_count) 0)
Built disk loops = Unit
Built disk crash = Unit

Built-bind :
    {A : Type 0} (disk : Memory) (m : Run A) (f : A → Run Fs)
    → ((a : A) → Built disk (f a))
    → Built disk (m >>= f)
Built-bind disk (done a) f h = h a
Built-bind disk loops f h = tt
Built-bind disk crash f h = tt

pub init-Built : (disk : Memory) → Built disk (init disk)
unfolding init
init-Built disk =
    let inum = 1 ∷ used_from disk (u32 disk s_inodes_count) 0 in
    let globals : List ℕ → Fs = λ dirs. record { disk = disk; dirs = dirs; inum = inum } in
    Built-bind disk (require (leb (length inum) 32)) _ (λ _.
      Built-bind disk (dirs_of disk inum) _ (λ dirs.
        Built-bind disk (require (leb (length dirs) 128)) (λ _. done (globals dirs))
          (λ _. (refl, refl))))

-- Each index stands above its position, and above 10.
abbrev pub Ascends : (i k : ℕ) → List ℕ → Type 0
Ascends i k xs = k < length xs → (i + k ≤ get_or xs k 0) × (11 + k ≤ get_or xs k 0)

Ascends-cons :
    (b : Bool) (i k : ℕ) (rest : List ℕ)
    → (b ≡ true → 10 < i)
    → ((k : ℕ) → Ascends (suc i) k rest)
    → Ascends i k (if b then i ∷ rest else rest)
Ascends-cons true i zero rest h ih lt = let low = h refl in (omega arith, omega arith)
Ascends-cons true i (suc k) rest h ih lt =
    let low = h refl in let (later, high) = ih k (omega arith) in (omega arith, omega arith)
Ascends-cons false i k rest h ih lt = let (later, high) = ih k lt in (omega arith, high)

-- The indices that `init` finds ascend, from 11 on.
pub used_from-Ascends : (disk : Memory) (rounds i k : ℕ) → Ascends i k (used_from disk rounds i)
unfolding used_from
used_from-Ascends disk zero i k = λ lt. absurd (omega arith)
used_from-Ascends disk (suc rounds) i k =
    Ascends-cons (is_used disk (inode_bitmap disk) i && ltb 10 i) i k
      (used_from disk rounds (suc i)) (λ e. ground arith) (used_from-Ascends disk rounds (suc i))
