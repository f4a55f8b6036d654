-- ===== src/Ext2/Run.antt =====
-- The outcomes of the ext2 tools.
use cscc.Prelude.{Option, none, some, Bool, true, false}
use cscc.Ext2.Directory.{Search, found, missing, endless, fault}

-- A call comes to its end, goes round for ever, or reads or writes outside the image or an array.
pub data Run (A : Type 0) : Type 0 where
  done : A → Run A
  loops : Run A
  crash : Run A

infixl 5 ◌>>=◌ ◌>>◌
abbrev pub ◌>>=◌ : {A B : Type 0} → Run A → (A → Run B) → Run B
done a >>= f = f a
loops >>= f = loops
crash >>= f = crash

abbrev pub ◌>>◌ : {A B : Type 0} → Run A → Run B → Run B
m >> k = m >>= λ _. k

abbrev pub require : Bool → Run (Unit {0})
require true = done tt
require false = crash

-- A pointer that a search returns, null where it finds nothing.
abbrev pub pointer : {A : Type 0} → Search A → Run (Option A)
pointer (found a) = done (some a)
pointer missing = done none
pointer endless = loops
pointer fault = crash

-- A pointer that is followed.
abbrev pub deref : {A : Type 0} → Search A → Run A
deref (found a) = done a
deref missing = crash
deref endless = loops
deref fault = crash
