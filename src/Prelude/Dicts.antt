-- ===== src/Prelude/Dicts.antt =====
-- Go maps keyed by strings, as association lists that hold each key once.
use Prim.Native.Nat.{suc}
use mathlib.Core.Path.{◌≡◌, refl}
use mathlib.Core.List.{List, [], ◌∷◌}
use mathlib.Core.Option.{Option, none, some}
use native.Mathlib.Omega.{arith}
use mnm.Prelude.Tests.{if◌then◌else◌}
use mnm.Prelude.Lists.{length}
use mnm.Prelude.Texts.{Text, eq_text, eq_text_iff}

abbrev pub Dict {ℓ} : Type ℓ → Type ℓ
Dict V = List (Text × V)

module _ {ℓ} {V : Type ℓ} where
  unfoldable pub lookup : Text → Dict V → Option V
  lookup k [] = none
  lookup k ((j, v) ∷ m) = if eq_text j k then some v else lookup k m

  unfoldable pub insert : Text → V → Dict V → Dict V
  insert k v [] = (k, v) ∷ []
  insert k v ((j, w) ∷ m) = if eq_text j k then (k, v) ∷ m else (j, w) ∷ insert k v m

  unfoldable pub delete : Text → Dict V → Dict V
  delete k [] = []
  delete k ((j, w) ∷ m) = let rest = delete k m in if eq_text j k then rest else (j, w) ∷ rest

  pub lookup-insert :
      (k j : Text) (v : V) (m : Dict V)
      → lookup j (insert k v m) ≡ (if eq_text k j then some v else lookup j m)
  unfolding lookup insert
  lookup-insert k j v [] = refl
  lookup-insert k j v ((i, w) ∷ m) =
      ground (arith, eq_text_iff k j, eq_text_iff i k, eq_text_iff i j, lookup-insert k j v m)

  pub lookup-delete :
      (k j : Text) (m : Dict V) → lookup j (delete k m) ≡ (if eq_text k j then none else lookup j m)
  unfolding lookup delete
  lookup-delete k j [] = ground arith
  lookup-delete k j ((i, w) ∷ m) =
      ground (arith, eq_text_iff k j, eq_text_iff i k, eq_text_iff i j, lookup-delete k j m)

  -- A new key makes the map one longer.
  pub length-insert_new :
      (k : Text) (v : V) (m : Dict V) → lookup k m ≡ none → length (insert k v m) ≡ suc (length m)
  unfolding lookup insert
  length-insert_new k v [] h = refl
  length-insert_new k v ((i, w) ∷ m) h = ground (arith, length-insert_new k v m)

  pub length-insert_old :
      (k : Text) (v w : V) (m : Dict V) → lookup k m ≡ some w → length (insert k v m) ≡ length m
  unfolding lookup insert
  length-insert_old k v w [] h = cc
  length-insert_old k v w ((i, x) ∷ m) h = ground (arith, length-insert_old k v w m)
