-- ===== src/UserDb/Aliases/Filling.antt =====
-- Operations that do no more to the aliases than to fill the cache from the disk.
use mnm.Prelude.{
  ℕ, ◌≡◌, inl, refl, Bool, true, false, Option, none, some, Text, arith, is_empty, if◌then◌else◌,
}
use mnm.UserDb.Model.{Error, user_invalid, Object, RecordType, user, group, User}
use mnm.UserDb.Op.{UserDb, Result, ok, err, panic, Op, pure, raise, continue, ◌>>=◌}
use mnm.UserDb.Fetch.{fetch_user, fetch_group}
use mnm.UserDb.Users.{found_user}
use mnm.UserDb.Record.{get_record}
use mnm.UserDb.Aliases.{try_lookup}
use mnm.UserDb.Aliases.Targets.{
  Stable, Stable-refl, Stable-after, Fills, Fills-refl, Fills-trans, try_lookup-Fills,
}

-- An operation that does no more, and one in a chain of them.
pub record Filling {ℓ} {A : Type ℓ} (m : Op A) : Type ℓ where
  pub at : (db : UserDb) → Fills db (m db).1

module _ {ℓ κ} {A : Type ℓ} {B : Type κ} where
  pub continue-Fills :
      (db : UserDb) (p : Result A × UserDb) (f : A → Op B)
      → Fills db p.1
      → ((a : A) → Filling (f a))
      → Fills db (continue p f).1
  continue-Fills db (ok a, d) f h g = Fills-trans db d (f a d).1 h ((g a).at d)
  continue-Fills db (err e, d) f h g = h
  continue-Fills db (panic, d) f h g = h

  pub Filling-bind :
      (m : Op A) (f : A → Op B) → Filling m → ((a : A) → Filling (f a)) → Filling (m >>= f)
  Filling-bind m f h g = record { at = λ db. continue-Fills db (m db) f (h.at db) g }

  -- What follows an operation that fills the cache is stable, if it is from where that ends.
  pub continue-Stable :
      (db : UserDb) (p : Result A × UserDb) (f : A → Op B)
      → Fills db p.1
      → ((a : A) → p.0 ≡ ok a → Stable p.1 (f a p.1).1)
      → Stable db (continue p f).1
  continue-Stable db (ok a, d) f h g = Stable-after db d (f a d).1 h (g a refl)
  continue-Stable db (err e, d) f h g = Stable-after db d d h (Stable-refl d)
  continue-Stable db (panic, d) f h g = Stable-after db d d h (Stable-refl d)

module _ {ℓ} {A : Type ℓ} where
  pub Filling-if : (b : Bool) (m n : Op A) → Filling m → Filling n → Filling (if b then m else n)
  Filling-if true m n h g = h
  Filling-if false m n h g = g

  pub pure-Filling : (a : A) → Filling (pure a)
  pure-Filling a = record { at = Fills-refl }

  pub raise-Filling : (e : Error) → Filling (raise {A = A} e)
  raise-Filling e = record { at = Fills-refl }

pub found_user-Filling : (o : Option User) → Filling (found_user o)
found_user-Filling none = raise-Filling user_invalid
found_user-Filling (some u) = pure-Filling u

Fills-same : (db db' : UserDb) → (db'.alias ≡ db.alias) × (db'.disk ≡ db.disk) → Fills db db'
Fills-same db db' (e, f) = record { disk = f; aliases = λ b. inl (rw e) }

module _ (crc : Object → ℕ) where
  get_record-state : (t : RecordType) (n : Text) (db : UserDb) → (get_record crc t n db).1 ≡ db
  unfolding get_record
  get_record-state t n db = ground arith

  fetch_user-same :
      (uid : Text) (make : Bool) (db : UserDb)
      → ((fetch_user crc uid make db).1.alias ≡ db.alias)
        × ((fetch_user crc uid make db).1.disk ≡ db.disk)
  unfolding fetch_user
  fetch_user-same uid make db =
      (ground (arith, get_record-state user uid db), ground (arith, get_record-state user uid db))

  fetch_group-same :
      (gid : Text) (make : Bool) (db : UserDb)
      → ((fetch_group crc gid make db).1.alias ≡ db.alias)
        × ((fetch_group crc gid make db).1.disk ≡ db.disk)
  unfolding fetch_group
  fetch_group-same gid make db =
      (ground (arith, get_record-state group gid db), ground (arith, get_record-state group gid db))

  pub fetch_user-Filling : (uid : Text) (make : Bool) → Filling (fetch_user crc uid make)
  fetch_user-Filling uid make = record { at = λ db. Fills-same db _ (fetch_user-same uid make db) }

  pub fetch_group-Filling : (gid : Text) (make : Bool) → Filling (fetch_group crc gid make)
  fetch_group-Filling gid make = record {
    at = λ db. Fills-same db _ (fetch_group-same gid make db);
  }

pub try_lookup-Filling : (a : Text) → is_empty a ≡ false → Filling (try_lookup a)
try_lookup-Filling a named = record { at = try_lookup-Fills a named }
