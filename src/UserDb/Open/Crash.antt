-- ===== src/UserDb/Open/Crash.antt =====
-- putRecord stopped after any number of its system calls, and NewUserDb run on what is left.
use mathlib.Core.List.{reverse}
use mathlib.Core.Option.{some-injective}
use mnm.UserDb.Open.Save
use mnm.Prelude.{
  Option, Bool, ℕ, zero, suc, ◌≤◌, ◌<◌, ◌≡◌, refl, sym, ap, subst, ◌∙◌, some, List, [], ◌∷◌, arith,
  Text, Dict, lookup, insert, delete, eq_text_refl, inl, inr, ◌⊎◌, take, true, false,
}
use mnm.UserDb.Model.{Object, a_user, a_group, type_of}
use mnm.UserDb.Disk.{Disk, Contents, document, garbage, run}
use mnm.UserDb.Names.{file_temp, has_suffix, tmp_suffix}
use mnm.UserDb.Names.Escape.{IsBytes}
use mnm.UserDb.Record.{put_actions, complete_actions, finish_actions}
use mnm.UserDb.Open.{recover, recover_from, recover_one, keys}
use mnm.UserDb.Open.Outcome.{
  SameData, IsSaved, IsPartial, IsPartial-refl, placed, removed, saved_with, saved_with-IsSaved,
  removed-IsPartial, placed-IsPartial,
}
use mnm.UserDb.Open.Links.{relink, Agree}
use mnm.UserDb.Open.Recovery.{
  recover_one-file_temp, recover_one-tmp, stale_after-tmp, left_over, complete_lem, links,
}

-- Readdirnames gives at most two names here, in either order.
abbrev pub IsListing : List Text → Disk → Type 0
IsListing names d = (names ≡ keys d.temp) ⊎ (names ≡ reverse (keys d.temp))

-- The completion of what putRecord does not write.
abbrev pub Other : Type 0
Other = Text → Text → Disk → Option Disk

-- The database opens, with no temporary file left, and with data that satisfy `Q`.
abbrev pub OpensWith : Other → (Disk → Type 0) → List Text → Disk → Type 0
OpensWith other Q names d = (d' : Disk) × (recover other names d ≡ some d') × (d'.temp ≡ []) × Q d'

-- Before its third call a save has changed no data; after it, it will be carried through.
abbrev pub Outcome : Object → Text → ℕ → Disk → Disk → Type 0
Outcome o n k d d' = ((k < 3) × SameData d' d) ⊎ ((3 ≤ k) × IsSaved o n d d')

saved_with_any :
    (o : Object) (n : Text) (temp any : Dict Contents) (m : Disk)
    → saved_with o n temp (record m { temp = any }) ≡ saved_with o n temp m
saved_with_any (a_user u) n temp any m = refl
saved_with_any (a_group g) n temp any m = refl

module _ (other : Other) (o : Object) (n : Text) (bytes : IsBytes n)
    (short : has_suffix (file_temp (type_of o) n) tmp_suffix ≡ false) where
  abbrev base : Text
  base = Save.base o n

  abbrev tmp : Text
  tmp = Save.tmp o n

  abbrev two : Dict Contents
  two = Save.two o n

  module _ (Q : Disk → Type 0) (names : List Text) (m : Disk) where
    OpensWith-none :
        Q (record m { temp = [] })
        → IsListing names (record m { temp = [] })
        → OpensWith other Q names (record m { temp = [] })
    unfolding recover_from
    OpensWith-none q (inl e) = rw e (record m { temp = [] }, refl, refl, q)
    OpensWith-none q (inr e) = rw e (record m { temp = [] }, refl, refl, q)

    recover-tmp :
        (c : Contents)
        → recover other (tmp ∷ []) (record m { temp = (tmp, c) ∷ [] })
          ≡ some (record m { temp = [] })
    unfolding recover_from delete
    recover-tmp c =
        rw (recover_one-tmp other _ o n (record m { temp = (tmp, c) ∷ [] })) (rw (eq_text_refl tmp))

    OpensWith-tmp :
        (c : Contents)
        → Q (record m { temp = [] })
        → IsListing names (record m { temp = (tmp, c) ∷ [] })
        → OpensWith other Q names (record m { temp = (tmp, c) ∷ [] })
    OpensWith-tmp c q (inl e) = rw e (record m { temp = [] }, recover-tmp c, refl, q)
    OpensWith-tmp c q (inr e) = rw e (record m { temp = [] }, recover-tmp c, refl, q)

    complete_from :
        (temp : Dict Contents)
        → lookup base temp ≡ some (document o)
        → recover_one other false base (record m { temp = temp })
          ≡ some (saved_with o n (left_over o n temp) m)
    complete_from temp h =
        recover_one-file_temp other o n (record m { temp = temp }) bytes short
        ∙ complete_lem n o (record m { temp = temp }) h
        ∙ ap some (saved_with_any o n (left_over o n temp) temp m)

    recover-tmp_first :
        recover other (tmp ∷ base ∷ []) (record m { temp = two }) ≡ some (saved_with o n [] m)
    unfolding recover_from delete lookup
    recover-tmp_first = rw (recover_one-tmp other _ o n (record m { temp = two })) (
        rw (eq_text_refl tmp, (Save.tmp_ne o n).1)
          (rw
            (stale_after-tmp false o n (record m { temp = two }) (document o)
              (rw (eq_text_refl tmp) refl))
            (rw (complete_from ((base, document o) ∷ []) (rw (eq_text_refl base)))
              (rw (eq_text_refl base)))))

    recover-base_first :
        recover other (base ∷ tmp ∷ []) (record m { temp = two }) ≡ some (saved_with o n [] m)
    unfolding recover_from
    recover-base_first = rw (complete_from two (Save.lookup-two o n)) (
        rw (Save.left_over-two o n)
          (rw (recover_one-tmp other _ o n (saved_with o n [] m)) (unfold delete in refl)))

    OpensWith-two :
        Q (saved_with o n [] m)
        → IsListing names (record m { temp = two })
        → OpensWith other Q names (record m { temp = two })
    OpensWith-two q (inl e) = rw e (saved_with o n [] m, recover-tmp_first, refl, q)
    OpensWith-two q (inr e) = rw e (saved_with o n [] m, recover-base_first, refl, q)

  abbrev Opens : Disk → Disk → Type 0
  Opens d d' = (names : List Text) → IsListing names d' → OpensWith other (IsSaved o n d) names d'

  Opens-two : (d m : Disk) → IsPartial o n d m → Opens d (record m { temp = two })
  Opens-two d m h names = OpensWith-two (IsSaved o n d) names m (saved_with-IsSaved o n [] h)

  -- All links are made, and at most the first temporary file is left.
  Opens-done :
      (d : Disk) (c : Dict Contents)
      → (c ≡ (tmp, document o) ∷ []) ⊎ (c ≡ [])
      → Opens d
          (record (placed o n d) { temp = c; links = relink (links o n) (placed o n d).links })
  Opens-done d c h = elim h [
    | inl e ↦ rw e λ names. OpensWith-tmp (IsSaved o n d) names m (document o) saved
    | inr e ↦ rw e λ names. OpensWith-none (IsSaved o n d) names m saved
  ]
    where
      m : Disk
      m = record (placed o n d) { links = relink (links o n) (placed o n d).links }

      saved : IsSaved o n d (record m { temp = [] })
      saved =
          rw (Save.links-placed o n o d) (saved_with-IsSaved o n [] (IsPartial-refl o n d d.temp))

  Opens-in_tail : (d d' : Disk) → Save.Stops o n (links o n) (placed o n d) d' → Opens d d'
  Opens-in_tail d d' (inl (l, e, g)) = subst (Opens d) (sym e) (
      Opens-two d (record (placed o n d) { links = l })
        (placed-IsPartial o n (placed o n d).temp l d
          (subst (Agree (links o n) l) (Save.links-placed o n o d) g)))
  Opens-in_tail d d' (inr (c, e, h)) = subst (Opens d) (sym e) (Opens-done d c h)

  stop_committed :
      (k : ℕ) (d : Disk)
      → (d' : Disk) × (run (take k (complete_actions (type_of o) n o)) (record d { temp = two })
          ≡ some d')
        × Opens d d'
  stop_committed zero d =
      (record d { temp = two }, unfold run in refl, Opens-two d d (IsPartial-refl o n d d.temp))
  stop_committed (suc zero) d = (
    record (removed o n d) { temp = two },
    Save.run-remove o n o [] d two ∙ (unfold run in refl),
    Opens-two d (removed o n d) (removed-IsPartial o n (removed o n d).temp d),
  )
  stop_committed (suc (suc j)) d =
      let (d', e, at) = Save.stop_in_tail o n (links o n) j (placed o n d) in
      (
        d',
        Save.run-placed o n (take j (finish_actions (type_of o) n o)) d ∙ e,
        Opens-in_tail d d' at,
      )

  SameData-quiet : (d : Disk) → SameData (Save.quiet o n d) d
  SameData-quiet d = record { users = λ f. refl; groups = λ f. refl; links = λ b. refl }

  abbrev Stopped : ℕ → Disk → Type 0
  Stopped k d =
      (d' : Disk) × (run (take k (put_actions (type_of o) n o)) (Save.quiet o n d) ≡ some d')
      × ((names : List Text) → IsListing names d' → OpensWith other (Outcome o n k d) names d')

  stop : (k : ℕ) (d : Disk) → Stopped k d
  unfolding run insert lookup
  stop zero d = (
    Save.quiet o n d,
    refl,
    λ names. OpensWith-none (Outcome o n 0 d) names d (inl (omega arith, SameData-quiet d)),
  )
  stop (suc zero) d = (
    record d { temp = (tmp, garbage) ∷ [] },
    refl,
    λ names. OpensWith-tmp (Outcome o n 1 d) names d garbage (inl (omega arith, SameData-quiet d)),
  )
  stop (suc (suc zero)) d = (
    record d { temp = (tmp, document o) ∷ [] },
    rw (eq_text_refl tmp),
    λ names.
        OpensWith-tmp (Outcome o n 2 d) names d (document o) (inl (omega arith, SameData-quiet d)),
  )
  stop (suc (suc (suc k))) d =
      let (d', e, opens) = stop_committed k d in
      (
        d',
        Save.run-start o n (take k (complete_actions (type_of o) n o)) d ∙ e,
        λ names w. let (d'', f, g, saved) = opens names w in (d'', f, g, inr (omega arith, saved)),
      )

-- If putRecord, on directories with no temporary file, is stopped after any number k of its system
-- calls, then NewUserDb opens what is left, whatever the order in which it reads the names of the
-- temporary files. No temporary file remains. The files and links are those from before the save if
-- k < 3, and otherwise the record is saved: its file holds it, each of its touched aliases is linked,
-- and all else is as before. The temporary file's name must not end in ".tmp".
pub crash_recovery :
    (other : Other) (o : Object) (n : Text) (k : ℕ) (d d' : Disk) (names : List Text)
    → IsBytes n
    → has_suffix (file_temp (type_of o) n) tmp_suffix ≡ false
    → d.temp ≡ []
    → run (take k (put_actions (type_of o) n o)) d ≡ some d'
    → IsListing names d'
    → OpensWith other (Outcome o n k d) names d'
crash_recovery other o n k d d' names bytes short clean ran listed =
    let (e, f, opens) = stop other o n bytes short k d in
    opens_as e
      (subst (λ t. run (take k (put_actions (type_of o) n o)) (record d { temp = t }) ≡ some e)
        (sym clean) f)
      opens
  where
    opens_as :
        (e : Disk)
        → run (take k (put_actions (type_of o) n o)) d ≡ some e
        → ((names : List Text) → IsListing names e → OpensWith other (Outcome o n k d) names e)
        → OpensWith other (Outcome o n k d) names d'
    opens_as e f opens =
        let same : e ≡ d' = some-injective e d' (sym f ∙ ran) in
        subst (OpensWith other (Outcome o n k d) names) same
          (opens names (subst (IsListing names) (sym same) listed))

module _ (other : Other) (o : Object) (n : Text)
    (long : has_suffix (file_temp (type_of o) n) tmp_suffix ≡ true) (d : Disk) where
  discard_base :
      (stale : Bool) (m : Disk)
      → recover_one other stale (Save.base o n) m
        ≡ some (record m { temp = delete (Save.base o n) m.temp })
  unfolding recover_one run
  discard_base stale m = rw long

  discard_both :
      (recover other (Save.tmp o n ∷ Save.base o n ∷ []) (record d { temp = Save.two o n })
        ≡ some (Save.quiet o n d))
      × (recover other (Save.base o n ∷ Save.tmp o n ∷ []) (record d { temp = Save.two o n })
          ≡ some (Save.quiet o n d))
  unfolding recover_from
  discard_both = (
    rw (recover_one-tmp other _ o n (record d { temp = Save.two o n })) (
        rw (discard_base _ (record d { temp = delete (Save.tmp o n) (Save.two o n) })) (
          unfold delete in
          rw (eq_text_refl (Save.tmp o n), (Save.tmp_ne o n).1)
            (rw (eq_text_refl (Save.base o n))))),
    rw (discard_base _ (record d { temp = Save.two o n })) (
        rw (recover_one-tmp other _ o n (record d { temp = delete (Save.base o n) (Save.two o n) }))
          (rw (Save.left_over-two o n))),
  )

  OpensWith-old :
      (names : List Text)
      → IsListing names (record d { temp = Save.two o n })
      → OpensWith other (λ d''. SameData d'' d) names (record d { temp = Save.two o n })
  OpensWith-old names (inl e) = rw e (Save.quiet o n d, discard_both.0, refl, same)
    where
      same : SameData (Save.quiet o n d) d
      same = record { users = λ f. refl; groups = λ f. refl; links = λ b. refl }
  OpensWith-old names (inr e) = rw e (Save.quiet o n d, discard_both.1, refl, same)
    where
      same : SameData (Save.quiet o n d) d
      same = record { users = λ f. refl; groups = λ f. refl; links = λ b. refl }

-- A record whose temporary file's name ends in ".tmp", as that of a group may: a save, begun with no
-- temporary file, that is stopped after its third call, where NewUserDb should complete it, is thrown
-- away, in whatever order the names of the temporary files are read.
pub tmp_name_lost :
    (other : Other) (o : Object) (n : Text) (d d' : Disk) (names : List Text)
    → has_suffix (file_temp (type_of o) n) tmp_suffix ≡ true
    → d.temp ≡ []
    → run (take 3 (put_actions (type_of o) n o)) d ≡ some d'
    → IsListing names d'
    → OpensWith other (λ d''. SameData d'' d) names d'
tmp_name_lost other o n d d' names long clean ran listed =
    subst (OpensWith other (λ d''. SameData d'' d) names) here
      (OpensWith-old other o n long d names (subst (IsListing names) (sym here) listed))
  where
    started :
        run (take 3 (put_actions (type_of o) n o)) (record d { temp = d.temp })
        ≡ some (record d { temp = Save.two o n })
    started = rw clean (Save.run-start o n [] d ∙ (unfold run in refl))

    here : record d { temp = Save.two o n } ≡ d'
    here = some-injective (record d { temp = Save.two o n }) d' (sym started ∙ ran)
