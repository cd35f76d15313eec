-- ===== src/UserDb/Op.antt =====
-- An operation of the database: it changes the state and returns, fails with an error, or panics.
-- What was written before an error stays written, so the state comes back beside it.
use mnm.Prelude.{Option, none, some, Text, Dict}
use mnm.UserDb.Model.{User, Group, Error}
use mnm.UserDb.Disk.{Disk}

-- tUserDb: the caches, and the directories under root.
pub record UserDb : Type 0 where
  pub user : Dict User
  pub alias : Dict Text
  pub group : Dict Group
  pub disk : Disk

pub data Result {ℓ} (A : Type ℓ) : Type ℓ where
  ok : A → Result A
  err : Error → Result A
  panic : Result A

abbrev pub Op {ℓ} : Type ℓ → Type ℓ
Op A = UserDb → Result A × UserDb

module _ {ℓ} {A : Type ℓ} where
  abbrev pub pure : A → Op A
  pure a db = (ok a, db)

  abbrev pub raise : Error → Op A
  raise e db = (err e, db)

  abbrev pub crash : Op A
  crash db = (panic, db)

  abbrev pub lift : Result A → Op A
  lift r db = (r, db)

  -- A nil pointer, or a nil map that is written to, panics.
  abbrev pub deref : Option A → Op A
  deref none = crash
  deref (some a) = pure a

  -- `x, _ = f()`: the zero value stands for the result of a call that failed.
  abbrev pub recovered : A → Result A × UserDb → Result A × UserDb
  recovered z (ok a, db) = (ok a, db)
  recovered z (err e, db) = (ok z, db)
  recovered z (panic, db) = (panic, db)

  abbrev pub ignoring_error : A → Op A → Op A
  ignoring_error z m db = recovered z (m db)

module _ {ℓ κ} {A : Type ℓ} {B : Type κ} where
  abbrev pub continue : Result A × UserDb → (A → Op B) → Result B × UserDb
  continue (ok a, db) f = f a db
  continue (err e, db) f = (err e, db)
  continue (panic, db) f = (panic, db)

  infixl 10 ◌>>=◌ ◌>>◌
  abbrev pub ◌>>=◌ : Op A → (A → Op B) → Op B
  ◌>>=◌ m f db = continue (m db) f

  abbrev pub ◌>>◌ : Op A → Op B → Op B
  m >> n = m >>= λ _. n
