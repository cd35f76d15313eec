-- ===== src/UserDb/Open/Links.antt =====
-- The alias links that a transaction sets, and what is left of them when it stops in between.
use mnm.Prelude.{
  ◌≡◌, refl, Option, some, List, [], ◌∷◌, ◌++◌, arith, Text, Dict, lookup, insert, delete,
  lookup-insert, lookup-delete, eq_text, eq_text_refl, if◌then◌else◌, Bool-cases, inl, inr,
}
use mnm.UserDb.Disk.{Disk, Action, run}
use mnm.UserDb.Record.{link_actions}

-- Each link is removed and made anew.
unfoldable pub relink : List (Text × Text) → Dict Text → Dict Text
relink [] m = m
relink ((name, target) ∷ rest) m = relink rest (insert name target (delete name m))

-- The target that the last of the links with this name has, or what was there.
unfoldable pub target_of : Text → List (Text × Text) → Option Text → Option Text
target_of b [] old = old
target_of b ((name, target) ∷ rest) old =
    target_of b rest (if eq_text name b then some target else old)

pub run-link_actions :
    (ps : List (Text × Text)) (rest : List Action) (d : Disk)
    → run (link_actions ps ++ rest) d ≡ run rest (record d { links = relink ps d.links })
unfolding link_actions relink run
run-link_actions [] rest d = refl
run-link_actions ((name, target) ∷ ps) rest d =
    rw (lookup-delete name name d.links, eq_text_refl name, run)
      (run-link_actions ps rest (record d { links = insert name target (delete name d.links) }))

lookup-set :
    (name b target : Text) (m : Dict Text)
    → lookup b (insert name target (delete name m))
      ≡ (if eq_text name b then some target else lookup b m)
lookup-set name b target m = rw lookup-insert (ground (arith, lookup-delete name b m))

pub lookup-relink :
    (b : Text) (ps : List (Text × Text)) (m : Dict Text)
    → lookup b (relink ps m) ≡ target_of b ps (lookup b m)
unfolding relink target_of
lookup-relink b [] m = refl
lookup-relink b ((name, target) ∷ ps) m =
    rw (lookup-relink b ps (insert name target (delete name m))) (rw (lookup-set name b target m))

-- Two directories that differ at most in links that are about to be made.
abbrev pub Agree : List (Text × Text) → Dict Text → Dict Text → Type 0
Agree ps m m' = (b : Text) → target_of b ps (lookup b m) ≡ target_of b ps (lookup b m')

pub Agree-refl : (ps : List (Text × Text)) (m : Dict Text) → Agree ps m m
Agree-refl ps m b = refl

-- The link is gone and not yet made.
pub Agree-delete :
    (name target : Text) (ps : List (Text × Text)) (m : Dict Text)
    → Agree ((name, target) ∷ ps) (delete name m) m
unfolding target_of
Agree-delete name target ps m b =
    rw lookup-delete (elim (Bool-cases (eq_text name b)) [ inl e ↦ rw e | inr e ↦ rw e ])

-- The link is made, and some of the rest.
pub Agree-set :
    (name target : Text) (ps : List (Text × Text)) (m m' : Dict Text)
    → Agree ps m' (insert name target (delete name m))
    → Agree ((name, target) ∷ ps) m' m
unfolding target_of
Agree-set name target ps m m' h b = ground (arith, h b, lookup-set name b target m)

-- Made again from the start, the links come out the same.
pub lookup-relink_again :
    (ps : List (Text × Text)) (m m' : Dict Text) (b : Text)
    → Agree ps m' m
    → lookup b (relink ps m') ≡ lookup b (relink ps m)
lookup-relink_again ps m m' b h = rw (lookup-relink b ps m', lookup-relink b ps m) (h b)
