-- ===== src/UserDb/Open/Recovery.antt =====
-- A crash at any system call of putRecord, and the completion of the transaction by NewUserDb.
use mnm.Prelude.{
  Option, Bool, refl, ℕ, ◌≡◌, refl, true, false, none, some, List, [], ◌∷◌, ◌++◌, arith, Text, Dict,
  lookup, insert, delete, lookup-insert, lookup-delete, eq_text, eq_text_refl,
}
use mnm.UserDb.Model.{Object, a_user, a_group, user, group, type_of}
use mnm.UserDb.Disk.{Disk, Contents, document, run}
use mnm.UserDb.Names.{file_temp, file_name, has_suffix, tmp_suffix, split_pair}
use mnm.UserDb.Names.Escape.{IsBytes, unescape-escape}
use mnm.UserDb.Record.{
  touched_links, links_of, complete, place_actions, finish_actions, tmp_of, unmarshal,
}
use mnm.UserDb.Open.{stale_after, recover_one, complete_pair, unescape_id}
use mnm.UserDb.Open.Outcome.{placed, saved_with}
use mnm.UserDb.Open.Links.{relink, run-link_actions}

pub longer_ne : (x : Text) (c : ℕ) (y : Text) → eq_text x (x ++ c ∷ y) ≡ false
unfolding eq_text
longer_ne [] c y = refl
longer_ne (b ∷ x) c y = ground (arith, longer_ne x c y)

pub shorter_ne : (x : Text) (c : ℕ) (y : Text) → eq_text (x ++ c ∷ y) x ≡ false
unfolding eq_text
shorter_ne [] c y = refl
shorter_ne (b ∷ x) c y = ground (arith, shorter_ne x c y)

has_suffix-append : (x y : Text) → has_suffix (x ++ y) y ≡ true
unfolding has_suffix eq_text
has_suffix-append [] [] = refl
has_suffix-append [] (c ∷ y) = rw (eq_text_refl (c ∷ y))
has_suffix-append (b ∷ x) y = ground (arith, has_suffix-append x y)

module _ (other : Text → Text → Disk → Option Disk) where
  -- The name of a transaction's file gives back its record, unless it ends in ".tmp".
  pub recover_one-file_temp :
      (o : Object) (n : Text) (d : Disk)
      → IsBytes n
      → has_suffix (file_temp (type_of o) n) tmp_suffix ≡ false
      → recover_one other false (file_temp (type_of o) n) d ≡ complete (type_of o) n none d
  unfolding recover_one file_temp file_name split_pair eq_text
  recover_one-file_temp (a_user u) n d bytes h = rw h
  recover_one-file_temp (a_group g) n d bytes h =
      rw h (rw (unescape-escape n bytes, complete_pair, unescape_id))

  pub recover_one-tmp :
      (stale : Bool) (o : Object) (n : Text) (d : Disk)
      → recover_one other stale (tmp_of (type_of o) n) d
        ≡ some (record d { temp = delete (tmp_of (type_of o) n) d.temp })
  unfolding recover_one run
  recover_one-tmp stale o n d = rw (has_suffix-append (file_temp (type_of o) n) tmp_suffix) refl

-- The loop's error after the name of a temporary file's first link, which is there.
pub stale_after-tmp :
    (stale : Bool) (o : Object) (n : Text) (d : Disk) (c : Contents)
    → lookup (tmp_of (type_of o) n) d.temp ≡ some c
    → stale_after stale (tmp_of (type_of o) n) d ≡ false
unfolding stale_after
stale_after-tmp stale o n d c h =
    rw (has_suffix-append (file_temp (type_of o) n) tmp_suffix) (rw h refl)

-- What a completed transaction leaves: the file, its links, and no temporary file.
module _ (o : Object) (n : Text) where
  abbrev pub links : List (Text × Text)
  links = touched_links n (links_of o)

  abbrev pub left_over : Dict Contents → Dict Contents
  left_over m = delete (tmp_of (type_of o) n) (delete (file_temp (type_of o) n) m)

  abbrev pub completed : Disk → Disk
  completed d = saved_with o n (left_over d.temp) d

  abbrev pub finished : Disk → Disk
  finished d = record d { temp = left_over d.temp; links = relink links d.links }

  pub run-finish :
      (d : Disk)
      → lookup (file_temp (type_of o) n) d.temp ≡ some (document o)
      → run (finish_actions (type_of o) n o) d ≡ some (finished d)
  unfolding run
  run-finish d h = rw (run-link_actions links _ d) (rw (h, run))

lookup-place : (f : Text) (c : Contents) (m : Dict Contents) → lookup f (insert f c m) ≡ some c
lookup-place f c m = rw lookup-insert (rw (eq_text_refl f))

pub lookup-removed {ℓ} : {V : Type ℓ} (f : Text) (m : Dict V) → lookup f (delete f m) ≡ none
lookup-removed f m = rw lookup-delete (rw (eq_text_refl f))

module _ (n : Text) where
  pub run-place :
      (o : Object) (d : Disk)
      → lookup (file_temp (type_of o) n) d.temp ≡ some (document o)
      → run (place_actions (type_of o) n) d ≡ some (placed o n d)
  unfolding run
  run-place (a_user u) d h = rw (h, lookup-removed (file_name user n) d.users, run)
  run-place (a_group g) d h = rw (h, lookup-removed (file_name group n) d.groups, run)

  -- A completion puts a transaction through, whatever part of it was done before.
  pub complete_lem :
      (o : Object) (d : Disk)
      → lookup (file_temp (type_of o) n) d.temp ≡ some (document o)
      → complete (type_of o) n none d ≡ some (completed o n d)
  unfolding complete
  complete_lem (a_user u) d h = rw (run-place (a_user u) d h) (
      rw
        (
          lookup-place (file_name user n) (document (a_user u)) (delete (file_name user n) d.users),
          unmarshal,
        )
        (run-finish (a_user u) n (placed (a_user u) n d) h))
  complete_lem (a_group g) d h =
      rw (run-place (a_group g) d h) (run-finish (a_group g) n (placed (a_group g) n d) h)
