-- ===== src/Qlib/Store/Tests.antt =====
-- Two identifiers, the second made after the first and others.
use mnm.Prelude.{
  ◌≡◌, refl, true, false, none, some, ◌++◌, length, lookup, [], ◌∷◌, Text, text, arith, eq_text,
}
use mnm.Prelude.Order.{leb_text}
use mnm.Qlib.Op.{ok, eof}
use mnm.Qlib.Stream.{Stream, copy_pieces}
use mnm.Qlib.Ping.Limits.{joined}
use mnm.Qlib.Store.{Store, hex_from, make_id, init, node_sub, dir_of, copy_dir}
use mnm.Qlib.Store.Restart.{after_ids, restart-ordered}
use mnm.Qlib.Store.Copying.{CopiesTo, copy_dir_lem}
use mnm.Qlib.Store.Delivery.{delivery, delivery-contents}

abbrev before : Store
before = record { next_id = 0xfe; temp = []; dirs = []; files = [] }

abbrev after : Store
after = record { next_id = 0x1ff; temp = []; dirs = []; files = [] }

made : (make_id before).0 ≡ ok (text "00000000000000ff")
unfolding make_id hex_from
made = refl

abbrev stream : Stream
stream = record { pieces = text "l" ∷ text "o, and more" ∷ []; ending = eof }

there : node_sub (text "5.0A") ≡ some (text "5.0a")
unfolding node_sub
there = refl

whole : (copy_pieces 2 stream.pieces).1 ≡ 0
unfolding copy_pieces
whole = refl

absent : lookup (text "M1") (dir_of (text "5.0a") before) ≡ none
unfolding lookup
absent = refl

delivery-contents_example :
    ((delivery (text "1") (text "5.0A") (text "M1") (text "0002{}") (text "hel") stream 5 before).0
      ≡ ok (text "0002{}" ++ (text "hel" ++ (copy_pieces 2 stream.pieces).0)))
    × ((copy_pieces 2 stream.pieces).0 ++ joined (copy_pieces 2 stream.pieces).2
        ≡ joined stream.pieces)
    × (length (copy_pieces 2 stream.pieces).0 ≡ 2)
unfolding lookup
delivery-contents_example =
    delivery-contents (text "1") (text "5.0A") (text "5.0a") (text "M1") (text "0002{}")
      (text "hel") stream 5 there before refl absent whole

-- A server that starts ten seconds later than one that makes a thousand identifiers.
restart-ordered_example :
    (a : Text) × (b : Text) × ((make_id (after_ids 1000 (init 0 (some 1000000000) before))).0
      ≡ ok a)
    × ((make_id (after_ids 0 (init 0 (some 11000000000) after))).0 ≡ ok b)
    × (leb_text a b ≡ true)
    × (eq_text a b ≡ false)
restart-ordered_example =
    restart-ordered 0 0 1000000000 11000000000 1000 0 before after (omega arith) (omega arith)

-- A node with a message, and a new one.
abbrev waiting : Store
waiting = record {
  next_id = 1;
  temp = [];
  dirs = (text "5.0a", (text "M1", 0) ∷ []) ∷ [];
  files = text "0002{}hello" ∷ [];
}

copy_dir_lem_example :
    ((copy_dir (text "5.0A") (text "5.0B") waiting).0 ≡ ok tt)
    × ((copy_dir (text "5.0A") (text "5.0B") waiting).1.files ≡ waiting.files)
    × CopiesTo (text "5.0a") (text "5.0b") waiting (copy_dir (text "5.0A") (text "5.0B") waiting).1
unfolding node_sub
copy_dir_lem_example =
    copy_dir_lem (text "5.0A") (text "5.0B") (text "5.0a") (text "5.0b") waiting refl refl
