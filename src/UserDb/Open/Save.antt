-- ===== src/UserDb/Open/Save.antt =====
-- The system calls of putRecord one part after another, on directories with no temporary file.
use mnm.Prelude.{
  ℕ, zero, suc, ◌≡◌, refl, sym, ap, subst, ◌∙◌, none, some, List, [], ◌∷◌, ◌++◌, Text, Dict, lookup,
  insert, delete, eq_text, eq_text_refl, inl, inr, ◌⊎◌, take, false,
}
use mnm.UserDb.Model.{Object, a_user, a_group, type_of}
use mnm.UserDb.Disk.{
  Disk, Contents, document, garbage, Action, create, write, link_temp, run, run-append, remove_file,
  remove_temp, discard_temp, and_then,
}
use mnm.UserDb.Names.{file_temp}
use mnm.UserDb.Record.{
  link_actions, put_actions, start_actions, complete_actions, place_actions, finish_actions, tmp_of,
}
use mnm.UserDb.Open.Outcome.{IsSaved, IsPartial-refl, file_of, placed, removed, saved_with-IsSaved}
use mnm.UserDb.Open.Links.{relink, Agree, Agree-refl, Agree-delete, Agree-set}
use mnm.UserDb.Open.Recovery.{
  longer_ne, shorter_ne, left_over, run-finish, run-place, lookup-removed, links,
}

module _ (o : Object) (n : Text) where
  abbrev pub base : Text
  base = file_temp (type_of o) n

  abbrev pub tmp : Text
  tmp = tmp_of (type_of o) n

  pub tmp_ne : (eq_text tmp base ≡ false) × (eq_text base tmp ≡ false)
  tmp_ne = (shorter_ne base _ _, longer_ne base _ _)

  abbrev pub two : Dict Contents
  two = (tmp, document o) ∷ (base, document o) ∷ []

  pub lookup-two : lookup base two ≡ some (document o)
  unfolding lookup
  lookup-two = rw (tmp_ne.0) (rw (eq_text_refl base))

  pub left_over-two : left_over o n two ≡ []
  unfolding delete
  left_over-two = rw (tmp_ne.0, eq_text_refl base, eq_text_refl tmp)

  abbrev pub cleanup : List Action
  cleanup = remove_temp base ∷ discard_temp tmp ∷ []

  -- Where the last part of a save stops: among the links, or with all of them made.
  abbrev pub Stops : List (Text × Text) → Disk → Disk → Type 0
  Stops ps m d =
      ((l : Dict Text) × (d ≡ record m { temp = two; links = l }) × Agree ps l m.links)
      ⊎ ((c : Dict Contents) × (d ≡ record m { temp = c; links = relink ps m.links })
          × ((c ≡ (tmp, document o) ∷ []) ⊎ (c ≡ [])))

  pub delete-base : delete base two ≡ (tmp, document o) ∷ []
  unfolding delete
  delete-base = rw (tmp_ne.0, eq_text_refl base)

  pub delete-tmp : delete tmp ((tmp, document o) ∷ []) ≡ []
  unfolding delete
  delete-tmp = rw (eq_text_refl tmp)

  pub stop_in_tail :
      (ps : List (Text × Text)) (j : ℕ) (m : Disk)
      → (d : Disk) × (run (take j (link_actions ps ++ cleanup)) (record m { temp = two }) ≡ some d)
        × Stops ps m d
  unfolding run link_actions relink
  stop_in_tail [] zero m =
      (record m { temp = two }, refl, inl (m.links, refl, Agree-refl [] m.links))
  stop_in_tail [] (suc zero) m = (
    record m { temp = (tmp, document o) ∷ [] },
    rw (lookup-two, run) (rw delete-base),
    inr ((tmp, document o) ∷ [], refl, inl refl),
  )
  stop_in_tail [] (suc (suc zero)) m = (
    record m { temp = [] },
    rw (lookup-two, run) (rw (delete-base, delete-tmp)),
    inr ([], refl, inr refl),
  )
  stop_in_tail [] (suc (suc (suc j))) m = (
    record m { temp = [] },
    rw (lookup-two, run) (rw (delete-base, delete-tmp)),
    inr ([], refl, inr refl),
  )
  stop_in_tail ((a, target) ∷ ps) zero m =
      (record m { temp = two }, refl, inl (m.links, refl, Agree-refl ((a, target) ∷ ps) m.links))
  stop_in_tail ((a, target) ∷ ps) (suc zero) m = (
    record m { temp = two; links = delete a m.links },
    refl,
    inl (delete a m.links, refl, Agree-delete a target ps m.links),
  )
  stop_in_tail ((a, target) ∷ ps) (suc (suc j)) m =
      let m' : Disk = record m { links = insert a target (delete a m.links) } in
      let (d, e, at) = stop_in_tail ps j m' in
      (
        d,
        rw (lookup-removed a m.links, run) e,
        elim at [
          | inl (l, f, g) ↦ inl (l, f, Agree-set a target ps m.links l g)
          | inr (c, f, w) ↦ inr (c, f, w)
        ],
      )

  pub links-placed : (o : Object) (d : Disk) → (placed o n d).links ≡ d.links
  links-placed (a_user u) d = refl
  links-placed (a_group g) d = refl

  abbrev pub quiet : Disk → Disk
  quiet d = record d { temp = [] }

  abbrev tmp_with : Contents → Dict Contents
  tmp_with c = (tmp, c) ∷ []

  lookup-tmp : (c : Contents) → lookup tmp (tmp_with c) ≡ some c
  unfolding lookup
  lookup-tmp c = rw (eq_text_refl tmp)

  lookup-base : (c : Contents) → lookup base (tmp_with c) ≡ none
  unfolding lookup
  lookup-base c = rw tmp_ne.0

  insert-tmp : insert tmp (document o) (tmp_with garbage) ≡ tmp_with (document o)
  unfolding insert
  insert-tmp = rw (eq_text_refl tmp)

  insert-base : insert base (document o) (tmp_with (document o)) ≡ two
  unfolding insert
  insert-base = rw tmp_ne.0

  run-create :
      (rest : List Action) (d : Disk)
      → run (create tmp ∷ rest) (quiet d) ≡ run rest (record d { temp = tmp_with garbage })
  unfolding run lookup insert
  run-create rest d = refl

  run-write :
      (rest : List Action) (d : Disk)
      → run (write tmp o ∷ rest) (record d { temp = tmp_with garbage })
        ≡ run rest (record d { temp = tmp_with (document o) })
  unfolding run
  run-write rest d = rw insert-tmp

  run-link :
      (rest : List Action) (d : Disk)
      → run (link_temp tmp base ∷ rest) (record d { temp = tmp_with (document o) })
        ≡ run rest (record d { temp = two })
  unfolding run
  run-link rest d = rw (lookup-tmp (document o), lookup-base (document o), run) (rw insert-base)

  pub run-start :
      (rest : List Action) (d : Disk)
      → run (start_actions (type_of o) n o ++ rest) (quiet d) ≡ run rest (record d { temp = two })
  run-start rest d = run-create _ d ∙ run-write _ d ∙ run-link rest d

  pub run-remove :
      (o : Object) (rest : List Action) (d : Disk) (temp : Dict Contents)
      → run (remove_file (type_of o) (file_of o n) ∷ rest) (record d { temp = temp })
        ≡ run rest (record (removed o n d) { temp = temp })
  unfolding run
  run-remove (a_user u) rest d temp = refl
  run-remove (a_group g) rest d temp = refl

  pub placed_any :
      (o : Object) (d : Disk) (temp : Dict Contents)
      → placed o n (record d { temp = temp }) ≡ record (placed o n d) { temp = temp }
  placed_any (a_user u) d temp = refl
  placed_any (a_group g) d temp = refl

  pub run-placed :
      (rest : List Action) (d : Disk)
      → run (place_actions (type_of o) n ++ rest) (record d { temp = two })
        ≡ run rest (record (placed o n d) { temp = two })
  run-placed rest d =
      run-append (place_actions (type_of o) n) rest (record d { temp = two })
      ∙ ap (λ r. and_then r (run rest)) (run-place n o (record d { temp = two }) lookup-two)
      ∙ ap (run rest) (placed_any o d two)

  finish_saved :
      (d : Disk)
      → run (finish_actions (type_of o) n o) (record (placed o n d) { temp = two })
        ≡ some
            (record (placed o n d) { temp = []; links = relink (links o n) (placed o n d).links })
  finish_saved d =
      run-finish o n (record (placed o n d) { temp = two }) lookup-two ∙ (rw left_over-two)

  pub links_made-IsSaved :
      (d : Disk)
      → IsSaved o n d
          (record (placed o n d) { temp = []; links = relink (links o n) (placed o n d).links })
  links_made-IsSaved d =
      rw (links-placed o d) (saved_with-IsSaved o n [] (IsPartial-refl o n d d.temp))

  run-put :
      (d : Disk)
      → run (put_actions (type_of o) n o) (quiet d)
        ≡ some
            (record (placed o n d) { temp = []; links = relink (links o n) (placed o n d).links })
  run-put d =
      run-start (complete_actions (type_of o) n o) d
      ∙ run-placed (finish_actions (type_of o) n o) d
      ∙ finish_saved d

-- From directories with no temporary file no system call of putRecord fails: the record is saved,
-- and again no temporary file is left.
pub put_saves :
    (o : Object) (n : Text) (d : Disk)
    → d.temp ≡ []
    → (d' : Disk) × (run (put_actions (type_of o) n o) d ≡ some d')
      × (d'.temp ≡ [])
      × IsSaved o n d d'
put_saves o n d clean = (
  saved,
  subst (λ t. run (put_actions (type_of o) n o) (record d { temp = t }) ≡ some saved) (sym clean)
      (run-put o n d),
  refl,
  links_made-IsSaved o n d,
)
  where
    saved : Disk
    saved = record (placed o n d) { temp = []; links = relink (links o n) (placed o n d).links }
