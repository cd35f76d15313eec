-- ===== src/Qlib/Presence/Tests.antt =====
-- Two online users, one of them on two nodes and with a third user to tell.
use mnm.Prelude.{◌≡◌, refl, true, false, some, [], ◌∷◌, text, lookup, insert, eq_text}
use mnm.Qlib.Presence.{OhiSet, Ohi, ref, unref}

abbrev ann : OhiSet
ann = record { uid = (text "C", true) ∷ (text "D", false) ∷ []; refcount = 2 }

abbrev ben : OhiSet
ben = record { uid = []; refcount = 1 }

abbrev online : Ohi
online = (text "A", ann) ∷ (text "B", ben) ∷ []

-- A reference that is taken and given back.
unreferred : unref (text "A") (ref (text "A") online) ≡ some (online, [])
unfolding unref ref lookup insert eq_text
unreferred = refl
