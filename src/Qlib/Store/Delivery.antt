-- ===== src/Qlib/Store/Delivery.antt =====
-- A message's way through the store: received, linked, and sent.
use mnm.Prelude.{
  ℕ, zero, suc, ◌+◌, ◌-◌, ◌≤◌, ◌≡◌, ◌⊎◌, inl, inr, refl, sym, ◌∙◌, ap, none, some, Bool-cases, List,
  [], ◌∷◌, ◌++◌, Text, length, take, drop, length-append, length-take, append-take-drop, lookup,
  insert, delete, lookup-insert, eq_text_refl, leb, arith,
}
use mathlib.Core.List.{append_assoc}
use mnm.UserDb.Model.{or_zero}
use mnm.Qlib.Op.{ok, Op, ◌>>=◌, ◌>>◌}
use mnm.Qlib.Stream.{Stream, copy_pieces}
use mnm.Qlib.Ping.Limits.{joined}
use mnm.Qlib.Store.{
  Store, get_elem?, with_dir, dir_of, node_sub, recv_file, link_in, put_link, rm_file, send_file,
}

-- The bytes that are copied, with what is missing, are those that were asked for, and with what is
-- left they are the stream.
pub record Copies (n : ℕ) (ps : List Text) (r : Text × ℕ × List Text) : Type 0 where
  pub counted : length r.0 + r.1 ≡ n
  pub kept : r.0 ++ joined r.2 ≡ joined ps
  pub ended : (r.1 ≡ 0) ⊎ (r.2 ≡ [])

copy_pieces-Copies : (n : ℕ) (ps : List Text) → Copies n ps (copy_pieces n ps)
unfolding copy_pieces
copy_pieces-Copies zero ps = record { counted = refl; kept = refl; ended = inl refl }
copy_pieces-Copies (suc n) [] = record { counted = omega arith; kept = refl; ended = inr refl }
copy_pieces-Copies (suc n) (p ∷ ps) = elim (Bool-cases (leb (length p) (suc n))) [
  | inl e ↦
      let r = copy_pieces-Copies (suc n - length p) ps in
      let rest = copy_pieces (suc n - length p) ps in
      rw e record {
        counted = ground (arith, r.counted, length-append p rest.0);
        kept = append_assoc p rest.0 (joined rest.2) ∙ ap (λ x. p ++ x) r.kept;
        ended = r.ended;
      }
  | inr e ↦
      let long : suc n ≤ length p = ground arith in
      rw e record {
        counted = omega (arith, length-take (suc n) p long);
        kept =
            sym (append_assoc (take (suc n) p) (drop (suc n) p) (joined ps))
            ∙ ap (λ x. x ++ joined ps) (append-take-drop (suc n) p);
        ended = inl refl;
      }
]

get_elem?-last : (xs : List Text) (x : Text) → get_elem? (xs ++ x ∷ []) (length xs) ≡ some x
get_elem?-last [] x = refl
get_elem?-last (y ∷ xs) x = get_elem?-last xs x

-- The calls that a message takes, in their order.
pub delivery : Text → Text → Text → Text → Text → Stream → ℕ → Op Store Text
delivery id node m head bytes r len = do
  _ ← recv_file id head bytes r len
  put_link id node m
  rm_file id
  send_file node m

module _ (id node dir m head bytes : Text) (r : Stream) (len : ℕ)
    (known : node_sub node ≡ some dir) where
  abbrev copied : Text × ℕ × List Text
  copied = copy_pieces (len - length bytes) r.pieces

  abbrev contents : Text
  contents = head ++ (bytes ++ copied.0)

  abbrev received_in : Store → Store
  received_in s = record s {
    temp = insert id (length s.files) s.temp;
    files = s.files ++ contents ∷ [];
  }

  recv_file-new :
      (s : Store)
      → lookup id s.temp ≡ none
      → copied.1 ≡ 0
      → recv_file id head bytes r len s
        ≡ (ok (record { pieces = copied.2; ending = r.ending }), received_in s)
  unfolding recv_file
  recv_file-new s new whole = rw (new, recv_file) (rw whole refl)

  put_link-new :
      (f : ℕ) (s : Store)
      → lookup id s.temp ≡ some f
      → lookup m (dir_of dir s) ≡ none
      → put_link id node m s ≡ (ok tt, link_in dir m f s)
  unfolding put_link
  put_link-new f s e new = rw (known, put_link) (rw (e, with_dir) (rw new refl))

  rm_file-there :
      (f : ℕ) (s : Store)
      → lookup id s.temp ≡ some f
      → rm_file id s ≡ (ok tt, record s { temp = delete id s.temp })
  unfolding rm_file
  rm_file-there f s e = rw (e, rm_file) refl

  send_file-there :
      (f : ℕ) (s : Store)
      → lookup m (dir_of dir s) ≡ some f
      → (send_file node m s).0 ≡ ok (or_zero [] (get_elem? s.files f))
  unfolding send_file
  send_file-there f s e = rw (known, send_file) (rw (e, with_dir) refl)

  linked : (f : ℕ) (s : Store) → lookup m (dir_of dir (link_in dir m f s)) ≡ some f
  linked f s =
      rw (lookup-insert dir dir (insert m f (dir_of dir s)) s.dirs)
        (rw (eq_text_refl dir) (rw (lookup-insert m m f (dir_of dir s)) (rw (eq_text_refl m) refl)))

  -- A message whose identifier no temporary file has, whose link is new in its node's directory, and
  -- whose data the client sends whole, is sent to the node as it was received: the header, the data
  -- that came with it, and the rest of the stream up to its length.
  pub delivery-contents :
      (s : Store)
      → lookup id s.temp ≡ none
      → lookup m (dir_of dir s) ≡ none
      → copied.1 ≡ 0
      → ((delivery id node m head bytes r len s).0 ≡ ok contents)
        × (copied.0 ++ joined copied.2 ≡ joined r.pieces)
        × (length copied.0 ≡ len - length bytes)
  unfolding delivery
  delivery-contents s new new_link whole =
      let c = copy_pieces-Copies (len - length bytes) r.pieces in
      let f = length s.files in
      let there : lookup id (insert id f s.temp) ≡ some f =
        rw (lookup-insert id id f s.temp) (rw (eq_text_refl id) refl) in
      let s1 : Store = received_in s in
      let s2 : Store = link_in dir m f s1 in
      let s3 : Store = record s2 { temp = delete id s2.temp } in
      let last : get_elem? (s.files ++ contents ∷ []) f ≡ some contents =
        get_elem?-last s.files contents in
      let sent : (send_file node m s3).0 ≡ ok contents =
        send_file-there f s3 (linked f s1) ∙ rw last refl in
      (
        rw (recv_file-new s new whole)
            (rw (put_link-new f s1 there new_link) (rw (rm_file-there f s2 there) sent)),
        c.kept,
        omega (arith, c.counted, whole),
      )
