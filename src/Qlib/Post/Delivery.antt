-- ===== src/Qlib/Post/Delivery.antt =====
-- What a post leaves in the store: no temporary file, and a link in each directory that it served.
use mnm.Prelude.{
  ℕ, ◌≡◌, inl, inr, refl, none, Option-cases, Text, lookup, lookup-delete, eq_text_refl,
}
use mnm.Qlib.Header.{Header}
use mnm.Qlib.Op.{
  user_db, file_exists, no_file, not_empty, stream, too_short, not_sender, eof, net_error,
  tls_error, other_error, Result, ok, err, panic, Op, continue, raise, ◌>>◌,
}
use mnm.Qlib.Stream.{Stream}
use mnm.Qlib.Server.{Msg, State, Env, tried, in_store, on_server, on_link, deferring}
use mnm.Qlib.Ping.{to_nat}
use mnm.Qlib.Store.{recv_file, rm_file}
use mnm.Qlib.Post.{summed, msg_head, stored, storing, served, post_msg_id}

-- Unless the server panics, it has no temporary file of that name.
abbrev pub Removed {ℓ} : {A : Type ℓ} → Text → Result A × State → Type 0
Removed id (ok a, s) = lookup id s.server.store.temp ≡ none
Removed id (err e, s) = lookup id s.server.store.temp ≡ none
Removed id (panic, s) = Unit {0}

rm_file-removes :
    (id : Text) (s : State)
    → lookup id (on_server (in_store (rm_file id)) s).1.server.store.temp ≡ none
unfolding rm_file
rm_file-removes id s = elim (Option-cases (lookup id s.server.store.temp)) [
  | inl e ↦ rw (e, rm_file) e
  | inr (f, e) ↦ rw (e, rm_file) (rw lookup-delete (rw (eq_text_refl id) refl))
]

module _ {ℓ} {A : Type ℓ} (id : Text) where
  deferring-Removed :
      (m : Op State A) (s : State) → Removed id (deferring m (on_server (in_store (rm_file id))) s)
  deferring-Removed m s = ended (m s)
    where
      ended : (r : Result A × State) → Removed id (r.0, (on_server (in_store (rm_file id)) r.1).1)
      ended (ok a, t) = rm_file-removes id t
      ended (err e, t) = rm_file-removes id t
      ended (panic, t) = tt

  stored-Removed :
      (next : Op State A) (r : Result Stream) (t : State)
      → Removed id (continue (tried r, t) (stored id next))
  stored-Removed next (ok left) t =
      deferring-Removed (on_link (λ l. record l { stream = left }) >> next) t
  stored-Removed next (err (stream eof)) t = deferring-Removed (raise (stream eof)) t
  stored-Removed next (err (stream (net_error q))) t =
      deferring-Removed (raise (stream (net_error q))) t
  stored-Removed next (err (stream other_error)) t = tt
  stored-Removed next (err (stream tls_error)) t = tt
  stored-Removed next (err (user_db e)) t = tt
  stored-Removed next (err file_exists) t = tt
  stored-Removed next (err no_file) t = tt
  stored-Removed next (err not_empty) t = tt
  stored-Removed next (err too_short) t = tt
  stored-Removed next (err not_sender) t = tt
  stored-Removed next panic t = tt

  storing-Removed :
      (head bytes : Text) (len : ℕ) (next : Op State A) (s : State)
      → Removed id (storing id head bytes len next s)
  unfolding storing
  storing-Removed head bytes len next s =
      let r = on_server (in_store (recv_file id head bytes s.link.stream len)) s in
      stored-Removed next r.0 r.1

-- Whether a post succeeds or fails, it leaves no temporary file, unless the server panics.
pub post_msg_id-Removed :
    (env : Env) (h : Header) (etc : Msg) (bytes id : Text) (notify : ℕ) (s : State)
    → Removed id (post_msg_id env h etc bytes id notify s)
unfolding post_msg_id
post_msg_id-Removed env h etc bytes id notify s =
    elim (Option-cases (summed env (msg_head env s.link.uid h etc id notify))) [
      | inl e ↦ rw (e, post_msg_id) tt
      | inr (b, e) ↦
          rw (e, post_msg_id) (storing-Removed id b bytes (to_nat h.data_len) (served env h id) s)
    ]
