-- ===== src/Qlib/Handle/Register.antt =====
-- qlib/qlib.go, _handleMsg: the operations that bring a link online, and the making of identifiers.
use mnm.Prelude.{
  ℕ, zero, suc, true, Option, none, some, List, [], ◌∷◌, ◌++◌, Text, text, length, is_empty, ltb,
  ◌==◌, eq_text, if◌then◌else◌,
}
use mathlib.Core.Option
use mnm.UserDb.Users.{add_user, verify_node}
use mnm.UserDb.Aliases.{add_alias}
use mnm.Qlib.Header.{Header, op_register}
use mnm.Qlib.Quit.{
  msg_auth_required, msg_register_failure, msg_base32_bad, msg_login_failure, msg_login_node_online,
}
use mnm.Qlib.Op.{Fault, too_short, Op, pure, ◌>>=◌, ◌>>◌}
use mnm.Qlib.Openid.{OpenidToken, Validity, valid, refused}
use mnm.Qlib.Store.{make_id}
use mnm.Qlib.Server.{
  nil, string, natural, services, Msg, worked, failed, State, Env, in_db, in_store, must, try,
  on_server, on_link, write_msg,
}
use mnm.Qlib.Nodes.{queue_link}
use mnm.Qlib.Post.{op_name, or_crash, post_msg}
use mnm.Qlib.Handle.{Handler, goes_on, quits, alias_min_len, to_user, fault_of}

-- The hash, as often again as the count says.
unfoldable pub hash_again : (Text → Text) → ℕ → Text → Text
hash_again sha zero s = s
hash_again sha (suc n) s = hash_again sha n (sha s)

abbrev pub hash_count : ℕ
hash_count = 22388

-- The text less its last four characters, which is a panic unless they start with '='.
unfoldable pub less_padding : Text → Option Text
less_padding (a ∷ b ∷ c ∷ d ∷ e ∷ s) = Option.map (λ t. a ∷ t) (less_padding (b ∷ c ∷ d ∷ e ∷ s))
less_padding (a ∷ b ∷ c ∷ d ∷ []) = if a == b'=' then some [] else none
less_padding _ = none

-- _node2sha
unfoldable pub node_sha : Env → Text → Option Text
unfolding hash_again less_padding
node_sha env s = less_padding (env.base32 (hash_again env.sha256 hash_count (env.sha256 s)))

-- makeUid
unfoldable pub make_uid : Env → Op State Text
make_uid env = do
  id ← on_server (in_store make_id)
  pure (env.base32 (env.sha1 (id ++ env.seconds)))

-- eOpTmtpRev
unfoldable pub handle_tmtp_rev : Env → Header → Handler
handle_tmtp_rev env h =
    let rev = if eq_text h.id (text "1") then h.id else text "1" in
    let auth : Msg =
      if env.auth_type == 0
      then []
      else (text "auth", natural env.auth_type) ∷ (text "authby", services env.auth_by) ∷ [] in
    do
      on_link (λ l. record l { tmtprev = rev })
      write_msg env (
          (text "op", string (text "tmtprev"))
          ∷ (text "id", string rev)
          ∷ (text "name", string env.site_name)
          ∷ auth)
      goes_on

abbrev pub login_info : Msg
login_info =
    (text "op", string (text "info"))
    ∷ (text "info", string (text "login ok"))
    ∷ (text "ohi", nil)
    ∷ []

-- The link has the node's queue.
abbrev pub online : Text → Text → Op State (Unit {0})
online uid qid = on_link λ l. record l { expect_pulse = true; uid = uid; node = qid; queue = true }

-- A login, not a registration, is told to the user's nodes.
abbrev pub tell_login : Env → Header → Text → Handler
tell_login env h uid = if h.op == op_register then goes_on else do
  _ ← must (
      post_msg env (record h { uid = uid; node = []; for_ = to_user uid })
        ((text "node", string (text "tbd")) ∷ []) [])
  goes_on

abbrev pub after_link : Env → Header → Text → Text → Option Msg → Handler
after_link env h uid qid none = quits msg_login_node_online
after_link env h uid qid (some m) = do write_msg env m; online uid qid; tell_login env h uid

-- From queueLink on.
unfoldable pub login_node : Env → Header → Text → Text → Handler
login_node env h uid qid = do
  linked ← on_server (queue_link env qid login_info uid)
  after_link env h uid qid linked

-- eOpLogin, or the rest of eOpRegister.
unfoldable pub handle_login : Env → Header → Text → Text → Handler
unfolding node_sha login_node
handle_login env h uid node = elim (env.unbase32 node) [
  | none ↦ quits msg_base32_bad
  | some bytes ↦ do
    sha ← or_crash (node_sha env bytes)
    r ← try (on_server (in_db (verify_node env.check_sum uid sha)))
    elim r [ failed e ↦ quits msg_login_failure | worked qid ↦ login_node env h uid qid ]
]

-- The alias of a new user, with the error to report; "_" stands for none.
unfoldable pub new_user_alias : Env → Text → Text → Op State (Option Fault)
new_user_alias env uid a =
    if eq_text a (text "_")
    then pure none
    else if ltb (length a) alias_min_len
    then pure (some too_short)
    else do
      r ← try (on_server (in_db (add_alias env.check_sum env.is_print uid a [])))
      pure (fault_of r)

abbrev pub registered : Env → Header → Text → Text → Option Fault → Msg
registered env h uid node e =
    let error : Msg = elim e [
      | none ↦ []
      | some f ↦ (text "error", string (env.error_text f)) ∷ []
    ] in
    (text "op", string (op_name h.op))
    ∷ (text "uid", string uid)
    ∷ (text "nodeid", string node)
    ∷ error

-- eOpRegister with the data of its authentication; makeNodeId takes the random bytes.
unfoldable pub register_as : Env → Header → List (Text × Text) → Handler
unfolding make_uid node_sha new_user_alias handle_login
register_as env h auth = do
  uid ← make_uid env
  let node = env.base32 env.random
  sha ← or_crash (node_sha env env.random)
  r ← try (on_server (in_db (add_user env.check_sum uid sha auth)))
  elim r [
    | failed e ↦ quits msg_register_failure
    | worked qid ↦ do
      e ← new_user_alias env uid h.new_alias
      write_msg env (registered env h uid node e)
      handle_login env h uid node
  ]

abbrev pub register_if : Env → Header → Validity → Handler
register_if env h (refused e) = quits msg_auth_required
register_if env h (valid auth) = register_as env h auth

abbrev pub register_by : Env → Header → Option OpenidToken → Handler
register_by env h none = if env.auth_optional then register_as env h [] else quits msg_auth_required
register_by env h (some tok) = register_if env h (env.validate tok)

-- eOpRegister
unfoldable pub handle_register : Env → Header → Handler
unfolding register_as
handle_register env h =
    if is_empty env.auth_by then register_as env h [] else register_by env h h.oidc
