-- ===== src/Qlib/Post/Links.antt =====
-- Once _queueMsg has served the nodes, each has its link.
use mnm.Prelude.{◌≡◌, ◌⊎◌, Bool, true, not, ◌&&◌, some, List, Text, All, eq_text}
use mnm.Qlib.Op.{Result, ok, err, panic}
use mnm.Qlib.Store.{Store, node_sub}
use mnm.Qlib.Store.Links.{HasLink, KeepsLinks}
use mnm.Qlib.Server.{Server, Env}

-- The node's directory has the link.
abbrev pub IsServed : Text → Text → Server → Type 0
IsServed l n s = (dir : Text) × ((node_sub n ≡ some dir) × HasLink dir l s.store)

-- A call that succeeds, and leaves the messages as they are.
abbrev Passes : (Server → Result (Unit {0}) × Server) → Type 0
Passes m = (s : Server) → (t : Server) × ((m s ≡ (ok tt, t)) × (t.store ≡ s.store))

module _ (env : Env) (uid node id l : Text) where
  -- After a node has been served without a panic, it has its link, and all others have theirs.
  abbrev Serves : Text → Server → Result (Unit {0}) × Server → Type 0
  Serves n s (ok _, t) = KeepsLinks s.store t.store × IsServed l n t
  Serves n s (err e, t) = Unit {0}
  Serves n s (panic, t) = Unit {0}

  -- Each node of the list is served, but the link's own where the message is not for its user.
  abbrev pub ServedIf : Bool → List Text → Server → Result (Unit {0}) × Server → Type 0
  ServedIf mine ns s (ok _, t) =
      KeepsLinks s.store t.store
      × All (λ n. ((eq_text n node && not mine) ≡ true) ⊎ IsServed l n t) ns
  ServedIf mine ns s (err e, t) = Unit {0}
  ServedIf mine ns s (panic, t) = Unit {0}
