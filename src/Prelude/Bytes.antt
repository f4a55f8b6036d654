-- ===== src/Prelude/Bytes.antt =====
-- Memory as a byte at each address, and the numbers that its bytes make.
use Prim.Native.Nat.{ℕ, zero, suc, ◌+◌, ◌-◌, ◌*◌, ◌/◌, ◌%◌}
use mathlib.Core.Bool.{◌&&◌}
use mathlib.Core.List.{List, [], ◌∷◌}
use cscc.Prelude.Tests.{leb, ltb, if◌then◌else◌}
use cscc.Prelude.Lists.{length, get_or}

abbrev pub Memory : Type 0
Memory = ℕ → ℕ

-- The `n` bytes from address `a` on.
abbrev pub load : Memory → (n a : ℕ) → List ℕ
load mem zero a = []
load mem (suc n) a = mem a ∷ load mem n (suc a)

-- The memory with `bytes` written from address `a` on.
abbrev pub store : Memory → ℕ → List ℕ → Memory
store mem a bytes i = if leb a i && ltb i (a + length bytes) then get_or bytes (i - a) 0 else mem i

-- The `n` bytes of a number, lowest first, as a store to memory writes them.
abbrev pub le_bytes : (n v : ℕ) → List ℕ
le_bytes zero v = []
le_bytes (suc n) v = v % 256 ∷ le_bytes n (v / 256)

-- The number that `n` bytes in memory make, lowest first.
abbrev pub le_value : List ℕ → ℕ
le_value [] = 0
le_value (x ∷ xs) = x + 256 * le_value xs
