-- ===== src/UserDb/Users/Nodes.antt =====
-- A user's nodes: the count of those in service, and their numbers.
use mnm.Prelude.{
  ℕ, suc, ◌+◌, ◌≤◌, ◌≡◌, ◌⊎◌, refl, sym, false, none, some, [], ◌∷◌, arith, Text, Dict, length,
  lookup, insert, lookup-insert, eq_of_eq_text, length-insert_new, length-insert_old, eq_text,
  if◌then◌else◌, inl, inr, Bool-cases,
}
use mnm.UserDb.Model.{Node}
use mnm.UserDb.Users.{open_qids}

abbrev pub weight : Node → ℕ
weight nd = if nd.defunct then 0 else 1

-- How many nodes are not defunct.
unfoldable pub active : Dict Node → ℕ
active [] = 0
active ((k, nd) ∷ rest) = weight nd + active rest

pub active-insert_new :
    (k : Text) (nd : Node) (m : Dict Node)
    → lookup k m ≡ none
    → active (insert k nd m) ≡ weight nd + active m
unfolding active lookup insert
active-insert_new k nd [] h = refl
active-insert_new k nd ((j, w) ∷ m) h = ground (arith, active-insert_new k nd m)

pub active-insert_old :
    (k : Text) (nd old : Node) (m : Dict Node)
    → lookup k m ≡ some old
    → active (insert k nd m) + weight old ≡ weight nd + active m
unfolding active lookup insert
active-insert_old k nd old [] h = cc
active-insert_old k nd old ((j, w) ∷ m) h = ground (arith, active-insert_old k nd old m)

-- OpenNodes lists as many Qids as there are nodes in service.
pub length-open_qids : (uid : Text) (m : Dict Node) → length (open_qids uid m) ≡ active m
unfolding open_qids active
length-open_qids uid [] = refl
length-open_qids uid ((k, nd) ∷ m) = ground (arith, length-open_qids uid m)

-- The nodes have the numbers 1 to n, each once.
pub record IsNumbered (m : Dict Node) : Type 0 where
  pub in_range : (k : Text) (nd : Node) → lookup k m ≡ some nd → (1 ≤ nd.num) × (nd.num ≤ length m)
  pub distinct :
      (j k : Text) (a b : Node) → lookup j m ≡ some a → lookup k m ≡ some b → a.num ≡ b.num → j ≡ k

-- Where a value found after an insertion comes from.
pub insert_origin :
    (k j : Text) (nd x : Node) (m : Dict Node)
    → lookup j (insert k nd m) ≡ some x
    → ((j ≡ k) × (x ≡ nd)) ⊎ (lookup j m ≡ some x)
insert_origin k j nd x m e = elim (Bool-cases (eq_text k j)) [
  | inl same ↦ inl (sym (eq_of_eq_text k j same), ground (arith, lookup-insert k j nd m))
  | inr other ↦ inr (ground (arith, lookup-insert k j nd m))
]

module _ (m : Dict Node) (h : IsNumbered m) (k : Text) where
  -- A new node takes the next number.
  pub insert_new-IsNumbered :
      lookup k m ≡ none → IsNumbered (insert k (record { defunct = false; num = suc (length m) }) m)
  insert_new-IsNumbered new = record {
    in_range = λ j x e.
        ground (arith, insert_origin k j nd x m e, h.in_range j x, length-insert_new k nd m new);
    distinct = λ i j a b e f s. ground (
      arith,
      insert_origin k i nd a m e,
      insert_origin k j nd b m f,
      h.in_range i a,
      h.in_range j b,
      h.distinct i j a b,
    );
  }
    where
      nd : Node
      nd = record { defunct = false; num = suc (length m) }

  -- A node that stays keeps its number.
  pub insert_old-IsNumbered :
      (nd old : Node) → lookup k m ≡ some old → nd.num ≡ old.num → IsNumbered (insert k nd m)
  insert_old-IsNumbered nd old e s = record {
    in_range = λ j x f. ground (
      arith,
      insert_origin k j nd x m f,
      h.in_range j x,
      h.in_range k old e,
      length-insert_old k nd old m e,
    );
    distinct = λ i j a b f g t. ground (
      arith,
      insert_origin k i nd a m f,
      insert_origin k j nd b m g,
      h.distinct i j a b,
      h.distinct k j old b e,
      h.distinct i k a old,
    );
  }
