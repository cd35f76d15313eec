-- ===== src/Qlib/Op.antt =====
-- An operation of the server on a state: a value, an error or a panic, and the state that it leaves.
use mnm.UserDb.Model.{Error}
use mnm.Qlib.Quit.{NetError}

-- How a client's stream ends: io.EOF, a net.Error (a timeout is one), a tls.RecordHeaderError, or
-- another error.
pub data Ending : Type 0 where
  eof : Ending
  net_error : NetError → Ending
  tls_error : Ending
  other_error : Ending

-- The errors: of the user database, of the file system, of a stream, and those made here.
pub data Fault : Type 0 where
  user_db : Error → Fault
  file_exists : Fault
  no_file : Fault
  not_empty : Fault
  stream : Ending → Fault
  too_short : Fault
  not_sender : Fault

pub data Result {ℓ} (A : Type ℓ) : Type ℓ where
  ok : A → Result A
  err : Fault → Result A
  panic : Result A

abbrev pub Op {ℓ} : Type 0 → Type ℓ → Type ℓ
Op S A = S → Result A × S

module _ {ℓ} {S : Type 0} {A : Type ℓ} where
  abbrev pub pure : A → Op S A
  pure a s = (ok a, s)

  abbrev pub raise : Fault → Op S A
  raise e s = (err e, s)

  abbrev pub crash : Op S A
  crash s = (panic, s)

module _ {ℓ κ} {S : Type 0} {A : Type ℓ} {B : Type κ} where
  abbrev pub continue : Result A × S → (A → Op S B) → Result B × S
  continue (ok a, s) f = f a s
  continue (err e, s) f = (err e, s)
  continue (panic, s) f = (panic, s)

  infixl 10 ◌>>=◌
  abbrev pub ◌>>=◌ : Op S A → (A → Op S B) → Op S B
  ◌>>=◌ m f s = continue (m s) f

module _ {κ} {S : Type 0} {B : Type κ} where
  infixl 10 ◌>>◌
  abbrev pub ◌>>◌ : Op S (Unit {0}) → Op S B → Op S B
  m >> k = m >>= λ _. k
