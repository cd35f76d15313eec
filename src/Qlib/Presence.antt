-- ===== src/Qlib/Presence.antt =====
-- qlib/qlib.go, tOhi and tOhiSet: who is told that a user is online.
pub mod Counting
mod Tests
use mnm.Prelude.{
  ℕ, ◌+◌, ◌%◌, Bool, true, false, not, Option, none, some, List, [], ◌∷◌, Text, Dict, lookup,
  insert, delete, ◌==◌, if◌then◌else◌,
}
use mnm.UserDb.Model.{or_zero}

-- tOhiSet; `refcount` is an int32, modulo 2 ^ 32.
pub record OhiSet : Type 0 where
  pub uid : Dict Bool
  pub refcount : ℕ

-- tOhiMap
abbrev pub Ohi : Type 0
Ohi = Dict OhiSet

-- aV.uid[iUid]
abbrev pub notifies : Text → OhiSet → Bool
notifies to s = or_zero false (lookup to s.uid)

-- edit: whether the entry differs from the one before; an entry that is missing reads as false.
unfoldable pub edit : Text → Bool → OhiSet → OhiSet × Bool
edit to new s = (record s { uid = insert to new s.uid }, if notifies to s then not new else new)

abbrev pub count_up : ℕ → ℕ
count_up n = (n + 1) % 0x100000000

abbrev pub count_down : ℕ → ℕ
count_down n = (n + 0xFFFFFFFF) % 0x100000000

abbrev pub first_ref : OhiSet
first_ref = record { uid = []; refcount = 1 }

-- ref: the set that it returns is the one under the key.
unfoldable pub ref : Text → Ohi → Ohi
ref from ohi = elim (lookup from ohi) [
  | none ↦ insert from first_ref ohi
  | some s ↦ insert from (record s { refcount = count_up s.refcount }) ohi
]

-- The users that a set has for true.
unfoldable pub told : Dict Bool → List Text
told [] = []
told ((to, on) ∷ rest) = let others = told rest in if on then to ∷ others else others

-- unref, with the users to tell; a nil set panics.
unfoldable pub unref : Text → Ohi → Option (Ohi × List Text)
unfolding told
unref from ohi = elim (lookup from ohi) [
  | none ↦ none
  | some s ↦
      if count_down s.refcount == 0
      then some (delete from ohi, told s.uid)
      else some (insert from (record s { refcount = count_down s.refcount }) ohi, [])
]

-- getOhiTo: the users who notify this one.
unfoldable pub get_ohi_to : Text → Ohi → List Text
get_ohi_to to [] = []
get_ohi_to to ((from, s) ∷ rest) =
    let others = get_ohi_to to rest in if notifies to s then from ∷ others else others
