-- ===== src/Ext2/Resolve/Sample.antt =====
-- A directory with "." and the file "a", through which a path is followed.
use cscc.Prelude.{◌==◌, ◌≡◌, arith, refl, [], ◌∷◌, if◌then◌else◌, Memory}
use cscc.Ext2.Run.{done}
use cscc.Ext2.Traverse.{traverse}
use cscc.Ext2.Resolve.{traverse-resolve}
use cscc.Ext2.Create.Sample.{folder}

-- The second entry is "a", with inode 12.
abbrev shelf : Memory
shelf a = if a == 9228 then 12 else if a == 9234 then 1 else if a == 9236 then 97 else folder a

-- The path "./a".
traverse-resolve_example :
    traverse shelf (9 ∷ []) 2 ((46 ∷ []) ∷ (97 ∷ []) ∷ []) (97 ∷ []) ≡ done 12
unfolding cscc.Ext2.Traverse.same_string cscc.Ext2.Directory.strcmp_eq
traverse-resolve_example =
    traverse-resolve shelf (9 ∷ []) ((9216 ∷ 9228 ∷ []) ∷ [])
      ((refl, omega arith, omega arith, (refl, omega arith, omega arith, refl)), tt) (46 ∷ [])
      ((97 ∷ []) ∷ []) 2
