-- ===== src/UserDb/Open/Outcome.antt =====
-- What a client finds in the directories after a transaction was cut short and completed: the data
-- from before, or all of the new data.
use mnm.Prelude.{
  ◌≡◌, ◌≢◌, refl, ◌∙◌, ◌⊎◌, inl, inr, some, arith, Text, Dict, lookup, insert, delete,
  lookup-insert, lookup-delete, eq_text, eq_text_iff, if◌then◌else◌,
}
use mnm.UserDb.Model.{Object, a_user, a_group, RecordType, user, group, alias, type_of}
use mnm.UserDb.Disk.{Disk, Contents, document, directory, with_directory}
use mnm.UserDb.Names.{file_name}
use mnm.UserDb.Record.{touched_links, links_of}
use mnm.UserDb.Open.Links.{relink, target_of, lookup-relink, Agree}

-- The same files and the same links.
pub record SameData (d d' : Disk) : Type 0 where
  pub users : (f : Text) → lookup f d.users ≡ lookup f d'.users
  pub groups : (f : Text) → lookup f d.groups ≡ lookup f d'.groups
  pub links : (b : Text) → lookup b d.links ≡ lookup b d'.links

-- `d'` is `d` with the record `o` named `n` saved: its file is written, and each of its touched
-- aliases is linked; every other file and link is as it was.
pub record IsSaved (o : Object) (n : Text) (d d' : Disk) : Type 0 where
  pub saved : lookup (file_name (type_of o) n) (directory (type_of o) d') ≡ some (document o)
  pub others :
      (t : RecordType) (f : Text)
      → (t ≢ type_of o) ⊎ (f ≢ file_name (type_of o) n)
      → lookup f (directory t d') ≡ lookup f (directory t d)
  pub linked :
      (b : Text) → lookup b d'.links ≡ target_of b (touched_links n (links_of o)) (lookup b d.links)

-- `m` is `d` with a part of the save done.
pub record IsPartial (o : Object) (n : Text) (d m : Disk) : Type 0 where
  pub others :
      (t : RecordType) (f : Text)
      → (t ≢ type_of o) ⊎ (f ≢ file_name (type_of o) n)
      → lookup f (directory t m) ≡ lookup f (directory t d)
  pub linked : Agree (touched_links n (links_of o)) m.links d.links

lookup-renew :
    (f b : Text) (c : Contents) (m : Dict Contents)
    → lookup b (insert f c (delete f m)) ≡ (if eq_text f b then some c else lookup b m)
lookup-renew f b c m = rw lookup-insert (ground (arith, lookup-delete f b m))

lookup-renew_self :
    (f : Text) (c : Contents) (m : Dict Contents) → lookup f (insert f c (delete f m)) ≡ some c
lookup-renew_self f c m = ground (arith, lookup-renew f f c m, eq_text_iff f f)

lookup-renew_ne :
    (f b : Text) (c : Contents) (m : Dict Contents)
    → b ≢ f
    → lookup b (insert f c (delete f m)) ≡ lookup b m
lookup-renew_ne f b c m h = ground (arith, lookup-renew f b c m, eq_text_iff f b)

abbrev pub file_of : Object → Text → Text
file_of o n = file_name (type_of o) n

-- The record's file written anew, and all of its links made.
abbrev pub placed : Object → Text → Disk → Disk
placed o n d =
    with_directory (type_of o)
      (insert (file_of o n) (document o) (delete (file_of o n) (directory (type_of o) d))) d

abbrev pub saved_with : Object → Text → Dict Contents → Disk → Disk
saved_with o n temp d =
    let d' = placed o n d in
    record d' { temp = temp; links = relink (touched_links n (links_of o)) d.links }

pub IsPartial-refl :
    (o : Object) (n : Text) (d : Disk) (temp : Dict Contents)
    → IsPartial o n d (record d { temp = temp })
IsPartial-refl o n d temp = record { others = λ t f h. others t f; linked = λ b. refl }
  where
    others :
        (t : RecordType) (f : Text)
        → lookup f (directory t (record d { temp = temp })) ≡ lookup f (directory t d)
    others user f = refl
    others group f = refl
    others alias f = refl

others-saved_with :
    (o : Object) (n : Text) (temp : Dict Contents) (m : Disk) (t : RecordType) (f : Text)
    → (t ≢ type_of o) ⊎ (f ≢ file_of o n)
    → lookup f (directory t (saved_with o n temp m)) ≡ lookup f (directory t m)
others-saved_with (a_user u) n temp m user f (inl h) = absurd (h refl)
others-saved_with (a_user u) n temp m user f (inr h) = lookup-renew_ne _ f _ m.users h
others-saved_with (a_user u) n temp m group f h = refl
others-saved_with (a_user u) n temp m alias f h = refl
others-saved_with (a_group g) n temp m group f (inl h) = absurd (h refl)
others-saved_with (a_group g) n temp m group f (inr h) = lookup-renew_ne _ f _ m.groups h
others-saved_with (a_group g) n temp m user f h = refl
others-saved_with (a_group g) n temp m alias f h = refl

saved-saved_with :
    (o : Object) (n : Text) (temp : Dict Contents) (m : Disk)
    → lookup (file_of o n) (directory (type_of o) (saved_with o n temp m)) ≡ some (document o)
saved-saved_with (a_user u) n temp m = lookup-renew_self _ _ m.users
saved-saved_with (a_group g) n temp m = lookup-renew_self _ _ m.groups

-- Whatever part was done, doing all of it again saves the record.
pub saved_with-IsSaved :
    (o : Object) (n : Text) (temp : Dict Contents) {d m : Disk}
    → IsPartial o n d m
    → IsSaved o n d (saved_with o n temp m)
saved_with-IsSaved o n temp {d} {m} h = record {
  saved = saved-saved_with o n temp m;
  others = λ t f e. others-saved_with o n temp m t f e ∙ h.others t f e;
  linked = λ b. lookup-relink b (touched_links n (links_of o)) m.links ∙ h.linked b;
}

abbrev pub removed : Object → Text → Disk → Disk
removed o n d = with_directory (type_of o) (delete (file_of o n) (directory (type_of o) d)) d

lookup-delete_ne : (f b : Text) (m : Dict Contents) → b ≢ f → lookup b (delete f m) ≡ lookup b m
lookup-delete_ne f b m h = ground (arith, lookup-delete f b m, eq_text_iff f b)

others-removed :
    (o : Object) (n : Text) (temp : Dict Contents) (d : Disk) (t : RecordType) (f : Text)
    → (t ≢ type_of o) ⊎ (f ≢ file_of o n)
    → lookup f (directory t (record (removed o n d) { temp = temp })) ≡ lookup f (directory t d)
others-removed (a_user u) n temp d user f (inl h) = absurd (h refl)
others-removed (a_user u) n temp d user f (inr h) = lookup-delete_ne _ f d.users h
others-removed (a_user u) n temp d group f h = refl
others-removed (a_user u) n temp d alias f h = refl
others-removed (a_group g) n temp d group f (inl h) = absurd (h refl)
others-removed (a_group g) n temp d group f (inr h) = lookup-delete_ne _ f d.groups h
others-removed (a_group g) n temp d user f h = refl
others-removed (a_group g) n temp d alias f h = refl

others-placed :
    (o : Object) (n : Text) (temp : Dict Contents) (links : Dict Text) (d : Disk) (t : RecordType)
    (f : Text)
    → (t ≢ type_of o) ⊎ (f ≢ file_of o n)
    → lookup f (directory t (record (placed o n d) { temp = temp; links = links }))
      ≡ lookup f (directory t d)
others-placed (a_user u) n temp links d user f (inl h) = absurd (h refl)
others-placed (a_user u) n temp links d user f (inr h) = lookup-renew_ne _ f _ d.users h
others-placed (a_user u) n temp links d group f h = refl
others-placed (a_user u) n temp links d alias f h = refl
others-placed (a_group g) n temp links d group f (inl h) = absurd (h refl)
others-placed (a_group g) n temp links d group f (inr h) = lookup-renew_ne _ f _ d.groups h
others-placed (a_group g) n temp links d user f h = refl
others-placed (a_group g) n temp links d alias f h = refl

links-removed : (o : Object) (n : Text) (d : Disk) → (removed o n d).links ≡ d.links
links-removed (a_user u) n d = refl
links-removed (a_group g) n d = refl

-- The old file is gone, and the new one not yet in place.
pub removed-IsPartial :
    (o : Object) (n : Text) (temp : Dict Contents) (d : Disk)
    → IsPartial o n d (record (removed o n d) { temp = temp })
removed-IsPartial o n temp d = record {
  others = others-removed o n temp d;
  linked = λ b. rw (links-removed o n d);
}

-- The new file is in place, and the links are made in part.
pub placed-IsPartial :
    (o : Object) (n : Text) (temp : Dict Contents) (links : Dict Text) (d : Disk)
    → Agree (touched_links n (links_of o)) links d.links
    → IsPartial o n d (record (placed o n d) { temp = temp; links = links })
placed-IsPartial o n temp links d h = record { others = others-placed o n temp links d; linked = h }
