-- ===== src/UserDb/Model.antt =====
-- userdb.go, the types: users with their nodes and aliases, groups with their members, the error
-- numbers, and the state of a database (its caches and its directories).
-- A Go map that may be nil is an `Option (Dict V)`.
use mnm.Prelude.{
  ℕ, ◌/◌, ◌%◌, ◌+◌, Bool, false, Option, none, some, List, [], ◌∷◌, ◌++◌, Text, text, Dict, lookup,
  ltb, if◌then◌else◌,
}

pub record Node : Type 0 where
  pub defunct : Bool
  pub num : ℕ

pub record Alias : Type 0 where
  pub en : Text
  pub nat : Text
  pub en_defunct : Bool
  pub nat_defunct : Bool
  pub en_touched : Bool
  pub nat_touched : Bool

pub record User : Type 0 where
  pub nodes : Option (Dict Node)
  pub non_defunct_nodes_count : ℕ
  pub aliases : List Alias
  pub authentication : List (Text × Text)
  pub check_sum : ℕ

-- `absent` is the zero value, which a missing map entry reads as.
pub data Status : Type 0 where
  absent invited joined barred : Status

pub record Member : Type 0 where
  pub alias : Text
  pub status : Status

pub record Group : Type 0 where
  pub uid : Option (Dict Member)
  pub check_sum : ℕ

pub data Error : Type 0 where
  checksum argument missing_node user_invalid max_nodes node_invalid last_node : Error
  unknown_alias alias_taken alias_invalid member_joined group_invalid : Error

pub data RecordType : Type 0 where
  user alias group : RecordType

pub data Object : Type 0 where
  a_user : User → Object
  a_group : Group → Object

abbrev pub type_of : Object → RecordType
type_of (a_user u) = user
type_of (a_group g) = group

abbrev pub user_node_max : ℕ
user_node_max = 100

abbrev pub alias_defunct_uid : Text
alias_defunct_uid = text "*defunct"

-- What `make(tUser)` and a read of a missing map entry give.
abbrev pub zero_node : Node
zero_node = record { defunct = false; num = 0 }

abbrev pub zero_member : Member
zero_member = record { alias = []; status = absent }

abbrev pub zero_user : User
zero_user = record {
  nodes = none;
  non_defunct_nodes_count = 0;
  aliases = [];
  authentication = [];
  check_sum = 0;
}

abbrev pub zero_group : Group
zero_group = record { uid = none; check_sum = 0 }

-- A nil map reads as an empty one.
abbrev pub entries {ℓ} : {V : Type ℓ} → Option (Dict V) → Dict V
entries none = []
entries (some m) = m

abbrev pub or_zero {ℓ} : {V : Type ℓ} → V → Option V → V
or_zero z none = z
or_zero z (some v) = v

-- aUser.Nodes[iNode], and aGroup.Uid[iUid].
abbrev pub node_at : Text → User → Node
node_at k u = or_zero zero_node (lookup k (entries u.nodes))

abbrev pub member_at : Text → Group → Member
member_at k g = or_zero zero_member (lookup k (entries g.uid))

-- fmt.Sprintf("%s.%02x", iUid, iNum), for a uint8.
abbrev pub hex_digit : ℕ → ℕ
hex_digit d = if ltb d 10 then b'0' + d else b'W' + d

unfoldable pub qid : Text → ℕ → Text
qid uid num = uid ++ b'.' ∷ hex_digit (num / 16) ∷ hex_digit (num % 16) ∷ []

unfoldable pub clear_touched : List Alias → List Alias
clear_touched [] = []
clear_touched (a ∷ rest) = record a { en_touched = false; nat_touched = false } ∷ clear_touched rest
