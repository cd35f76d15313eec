-- ===== src/Qlib/Server.antt =====
-- qlib/qlib.go: the state that a link works on, the messages that it writes, and what is external.
use mnm.Prelude.{
  ℕ, Bool, false, Option, none, some, List, [], ◌∷◌, ◌++◌, Text, Dict, length, ltb, if◌then◌else◌,
}
use mnm.UserDb.Model.{Object}
use mnm.UserDb.Op.{UserDb}
use mnm.Qlib.Header.{ℤ, HeaderFor}
use mnm.Qlib.Op.{Fault, user_db, Result, ok, err, panic, Op}
use mnm.Qlib.Stream.{Stream}
use mnm.Qlib.Frame.{hex_length}
use mnm.Qlib.Presence.{Ohi}
use mnm.Qlib.Store.{Store}
use mnm.Qlib.Openid.{OpenidToken, Validity}

-- TAuthBy, with none for a nil Login.
pub record AuthBy : Type 0 where
  pub label : Text
  pub login : Option (List Text)
  pub token : List Text
  pub std : List Text
  pub keys : Text
  pub iss : Text
  pub aud : Text

-- A value of a tMsg.
pub data Value : Type 0 where
  nil : Value
  string : Text → Value
  number : ℤ → Value
  natural : ℕ → Value
  strings : List Text → Value
  recipients : List HeaderFor → Value
  services : List AuthBy → Value

-- tMsg
abbrev pub Msg : Type 0
Msg = Dict Value

-- tQueue: whether a link has it, the elastic buffer, the acks for its runner, and the presence of
-- others, with its direction, that it is to tell.
pub record Queue : Type 0 where
  pub has_conn : Bool
  pub buf : List Text
  pub ack : List Text
  pub ohi : List (Text × Bool)

-- sNode: a node has a queue from its first login on.
abbrev pub Nodes : Type 0
Nodes = Dict (Option Queue)

-- What all links share: UDb, sStore, sOhi and sNode.
pub record Server : Type 0 where
  pub db : UserDb
  pub store : Store
  pub ohi : Ohi
  pub nodes : Nodes

-- tLink, with what the client sends and the messages that were written to its connection. `queue`
-- tells whether the link has the queue of its node, `ohi` whether it has the set of its user.
pub record Link : Type 0 where
  pub tmtprev : Text
  pub expect_pulse : Bool
  pub uid : Text
  pub node : Text
  pub queue : Bool
  pub ohi : Bool
  pub stream : Stream
  pub written : List Msg

-- &tLink{conn:iConn}
abbrev pub new_link : Stream → Link
new_link r = record {
  tmtprev = [];
  expect_pulse = false;
  uid = [];
  node = [];
  queue = false;
  ohi = false;
  stream = r;
  written = [];
}

pub record State : Type 0 where
  pub link : Link
  pub server : Server

-- json.Marshal of a tMsg, crc32.Checksum with the table sCrc32c, the encodings and hashes of the
-- identifiers, the clock, error.Error, and what SetTmtpRev has set.
pub record Env : Type 0 where
  pub marshal : Msg → Text
  pub crc32 : Text → ℕ
  pub base32 : Text → Text
  pub unbase32 : Text → Option Text
  pub sha1 : Text → Text
  pub sha256 : Text → Text
  pub seconds : Text
  pub posted : Text
  pub error_text : Fault → Text
  pub random : Text
  pub check_sum : Object → ℕ
  pub is_print : ℕ → Bool
  pub validate : OpenidToken → Validity
  pub site_name : Text
  pub auth_type : ℕ
  pub auth_by : List AuthBy
  pub auth_optional : Bool

-- A call of the database, with its errors among the server's.
abbrev pub from_db {ℓ} : {A : Type ℓ} → Server → mnm.UserDb.Op.Result A × UserDb → Result A × Server
from_db s (mnm.UserDb.Op.ok a, db) = (ok a, record s { db = db })
from_db s (mnm.UserDb.Op.err e, db) = (err (user_db e), record s { db = db })
from_db s (mnm.UserDb.Op.panic, db) = (panic, record s { db = db })

abbrev pub in_db {ℓ} : {A : Type ℓ} → mnm.UserDb.Op.Op A → Op Server A
in_db m s = from_db s (m s.db)

abbrev pub in_store {ℓ} : {A : Type ℓ} → Op Store A → Op Server A
in_store m s = let r = m s.store in (r.0, record s { store = r.1 })

-- x, _ = f()
abbrev pub recovered {ℓ} : {A : Type ℓ} → A → Result A → Result A
recovered z (ok a) = ok a
recovered z (err e) = ok z
recovered z panic = panic

abbrev pub ignoring_error {ℓ} : {S : Type 0} {A : Type ℓ} → A → Op S A → Op S A
ignoring_error z m s = let r = m s in (recovered z r.0, r.1)

-- if err != nil { panic(err) }
abbrev pub or_panic {ℓ} : {A : Type ℓ} → Result A → Result A
or_panic (ok a) = ok a
or_panic (err e) = panic
or_panic panic = panic

abbrev pub must {ℓ} : {S : Type 0} {A : Type ℓ} → Op S A → Op S A
must m s = let r = m s in (or_panic r.0, r.1)

-- defer: the second runs after the first, whatever that returns.
abbrev pub deferring {ℓ} : {S : Type 0} {A : Type ℓ} → Op S A → Op S (Unit {0}) → Op S A
deferring m d s = let r = m s in (r.0, (d r.1).1)

-- A value or the error of it.
pub data Tried {ℓ} (A : Type ℓ) : Type ℓ where
  worked : A → Tried A
  failed : Fault → Tried A

-- x, err := f(), where the code goes on with either.
abbrev pub tried {ℓ} : {A : Type ℓ} → Result A → Result (Tried A)
tried (ok a) = ok (worked a)
tried (err e) = ok (failed e)
tried panic = panic

abbrev pub try {ℓ} : {S : Type 0} {A : Type ℓ} → Op S A → Op S (Tried A)
try m s = let r = m s in (tried r.0, r.1)

-- packMsg without data: a header of 2 ^ 16 bytes or more panics.
unfoldable pub pack_msg : Env → Msg → Option Text
pack_msg env m =
    let head = env.marshal m in
    if ltb (length head) 0x10000 then some (hex_length (length head) ++ head) else none

abbrev pub get {ℓ} : {S : Type 0} {A : Type ℓ} → (S → A) → Op S A
get f s = (ok (f s), s)

abbrev pub on_server {ℓ} : {A : Type ℓ} → Op Server A → Op State A
on_server m s = let r = m s.server in (r.0, record s { server = r.1 })

abbrev pub on_link : (Link → Link) → Op State (Unit {0})
on_link f s = (ok tt, record s { link = f s.link })

-- o.conn.Write(packMsg(m, nil)); an error of the write is only logged.
unfoldable pub write_msg : Env → Msg → Op State (Unit {0})
unfolding pack_msg
write_msg env m s = elim (pack_msg env m) [
  | none ↦ (panic, s)
  | some bytes ↦ on_link (λ l. record l { written = l.written ++ m ∷ [] }) s
]
