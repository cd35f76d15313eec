-- ===== src/Qlib/Header.antt =====
-- qlib/qlib.go, tHeader: the header of a message and its check.
pub mod Bounds
pub use mnm.Qlib.Int.{ℤ, pos, negsuc, lt_int, is_zero, int64}
use mnm.Qlib.Openid.{OpenidToken}
use mnm.Prelude.{
  ℕ, zero, suc, ◌+◌, ◌-◌, ◌%◌, ◌^◌, Bool, true, false, not, ◌&&◌, ◌||◌, Option, none, some, List,
  [], ◌∷◌, Text, text, any, is_empty, ltb, leb, ◌==◌, if◌then◌else◌,
}

pub record HeaderFor : Type 0 where
  pub id : Text
  pub type : ℤ

-- tHeader, with nil for `none` in `for_` and `oidc`.
pub record Header : Type 0 where
  pub op : ℕ
  pub data_len : ℤ
  pub data_head : ℤ
  pub note_len : ℤ
  pub note_head : ℤ
  pub data_sum : ℕ
  pub note_sum : ℕ
  pub uid : Text
  pub gid : Text
  pub id : Text
  pub node : Text
  pub new_node : Text
  pub new_alias : Text
  pub from : Text
  pub to : Text
  pub type : Text
  pub act : Text
  pub for_ : Option (List HeaderFor)
  pub note_for : List HeaderFor
  pub for_not_self : Bool
  pub oidc : Option OpenidToken

-- The numbers of eOpTmtpRev to eOpEnd.
abbrev pub op_ohi_edit : ℕ
op_ohi_edit = 4

abbrev pub op_register : ℕ
op_register = 1

abbrev pub op_user_edit : ℕ
op_user_edit = 3

abbrev pub op_end : ℕ
op_end = 13

abbrev pub op_post_notify : ℕ
op_post_notify = 8

abbrev pub op_group_edit : ℕ
op_group_edit = 6

-- eForUser..eForSelf
abbrev pub for_user : ℤ
for_user = pos 1

abbrev pub for_group_all : ℤ
for_group_all = pos 2

abbrev pub for_group_excl : ℤ
for_group_excl = pos 3

abbrev pub for_self : ℤ
for_self = pos 4

pub data Operation : Type 0 where
  tmtp_rev register login user_edit ohi_edit group_invite group_edit post post_notify ping ack pulse
        quit :
      Operation

-- In the order of their numbers.
abbrev pub operations : List Operation
operations =
    Operation.tmtp_rev ∷ Operation.register ∷ Operation.login ∷ Operation.user_edit
    ∷ Operation.ohi_edit ∷ Operation.group_invite ∷ Operation.group_edit ∷ Operation.post
    ∷ Operation.post_notify ∷ Operation.ping ∷ Operation.ack ∷ Operation.pulse ∷ Operation.quit ∷ []

abbrev pub nth {ℓ} : {A : Type ℓ} → ℕ → List A → Option A
nth n [] = none
nth zero (x ∷ xs) = some x
nth (suc n) (x ∷ xs) = nth n xs

abbrev pub operation : ℕ → Option Operation
operation n = nth n operations

abbrev pub zero_header : Header
zero_header = record {
  op = 0;
  data_len = pos 0;
  data_head = pos 0;
  note_len = pos 0;
  note_head = pos 0;
  data_sum = 0;
  note_sum = 0;
  uid = [];
  gid = [];
  id = [];
  node = [];
  new_node = [];
  new_alias = [];
  from = [];
  to = [];
  type = [];
  act = [];
  for_ = none;
  note_for = [];
  for_not_self = false;
  oidc = none;
}

abbrev given : Text
given = text "1"

-- sHeaderDefs, in the order of the operations' numbers.
abbrev pub header_defs : List Header
header_defs =
    record zero_header { id = given }
    ∷ record zero_header { new_node = given; new_alias = given }
    ∷ record zero_header { uid = given; node = given }
    ∷ record zero_header { id = given }
    ∷ record zero_header {
      id = given;
      for_ = some (record { id = []; type = pos 0 } ∷ []);
      type = given;
    }
    ∷ record zero_header { id = given; data_len = pos 2; gid = given; from = given; to = given }
    ∷ record zero_header { id = given; act = given; gid = given }
    ∷ record zero_header { id = given; data_len = pos 1; for_ = some [] }
    ∷ record zero_header { id = given; data_len = pos 1; for_ = some []; note_len = pos 1 }
    ∷ record zero_header { id = given; data_len = pos 2; from = given; to = given }
    ∷ record zero_header { id = given; type = given }
    ∷ zero_header
    ∷ zero_header
    ∷ []

unfoldable pub header_at : ℕ → List Header → Header
header_at n [] = zero_header
header_at zero (d ∷ ds) = d
header_at (suc n) (d ∷ ds) = header_at n ds

-- A field that the definition has and the header lacks.
abbrev pub lacks : Text → Text → Bool
lacks def s = not (is_empty def) && is_empty s

abbrev pub listed : Option (List HeaderFor) → List HeaderFor
listed none = []
listed (some l) = l

abbrev pub is_nil : Option (List HeaderFor) → Bool
is_nil none = true
is_nil (some l) = false

abbrev pub differ : Bool → Bool → Bool
differ a b = if a then not b else b

-- fFor
abbrev pub bad_for : ℕ → HeaderFor → Bool
bad_for op f =
    is_empty f.id
    || not (op == op_ohi_edit) && (lt_int f.type for_user || not (lt_int f.type for_self))

abbrev pub bad_lengths : ℤ → ℤ → Bool
bad_lengths len head = lt_int len head || lt_int head (pos 0)

unfoldable pub lacks_any : Header → Header → Bool
lacks_any d h =
    lacks d.uid h.uid
    || lacks d.gid h.gid
    || lacks d.id h.id
    || lacks d.node h.node
    || lacks d.new_node h.new_node
    || lacks d.new_alias h.new_alias
    || lacks d.from h.from
    || lacks d.to h.to
    || lacks d.type h.type
    || lacks d.act h.act
    || not (is_empty (listed d.for_)) && is_empty (listed h.for_)
    || not (is_nil d.for_) && is_nil h.for_

-- tHeader.check
unfoldable pub check : Header → Bool
unfolding header_at lacks_any
check h =
    if leb op_end h.op
    then false
    else let d = header_at h.op header_defs in
      not (
        bad_lengths h.data_len h.data_head
        || bad_lengths h.note_len h.note_head
        || lt_int d.data_len (pos 2) && differ (is_zero d.data_len) (is_zero h.data_len)
        || differ (is_zero d.note_len) (is_zero h.note_len)
        || lacks_any d h
        || any (bad_for h.op) (listed h.for_)
        || any (bad_for h.op) h.note_for)
