-- ===== src/Qlib/Store/Copying.antt =====
-- copyDir: what the directory of a new node holds.
use mnm.Prelude.{
  ℕ, ◌≡◌, ◌∙◌, ap, sym, inl, inr, refl, true, Option, none, some, Bool-cases, List, [], ◌∷◌, Text,
  Dict, lookup, insert, lookup-insert, eq_text, eq_text_refl, eq_of_eq_text, eq_text_iff, is_empty,
  ltb, if◌then◌else◌, arith,
}
use mnm.Prelude.Order.{sort_texts, count, count-sort_texts}
use mnm.UserDb.Open.{keys}
use mnm.Qlib.Op.{ok}
use mnm.Qlib.Store.{Store, node_sub, dir_of, get_dir, copy_links, copy_dir}

-- The first, or the second where that is none.
abbrev pub or_else : Option ℕ → Option ℕ → Option ℕ
or_else (some f) o = some f
or_else none o = o

-- The entry of a name that is among those given.
abbrev among : Text → List Text → Option ℕ → Option ℕ
among l ids o = if ltb 0 (count l ids) then o else none

module _ (src : Dict ℕ) (l : Text) where
  abbrev add_link : Text → Dict ℕ → Dict ℕ
  add_link id dest = elim (lookup id src) [
    | none ↦ dest
    | some f ↦ elim (lookup id dest) [ none ↦ insert id f dest | some g ↦ dest ]
  ]

  -- One round of the loop.
  added :
      (id : Text) (dest : Dict ℕ) (a b : Option ℕ)
      → lookup l
          (elim a [ none ↦ dest | some f ↦ elim b [ none ↦ insert id f dest | some g ↦ dest ] ])
        ≡ (elim a [
          | none ↦ lookup l dest
          | some f ↦ elim b [
            | none ↦ if eq_text id l then some f else lookup l dest
            | some g ↦ lookup l dest
          ]
        ])
  added id dest none b = refl
  added id dest (some f) none = lookup-insert id l f dest
  added id dest (some f) (some g) = refl

  lookup-add_link :
      (id : Text) (dest : Dict ℕ)
      → lookup l (add_link id dest)
        ≡ or_else (lookup l dest) (if eq_text l id then lookup l src else none)
  lookup-add_link id dest = added id dest (lookup id src) (lookup id dest) ∙ merged
    where
      merged :
          (elim (lookup id src) [
            | none ↦ lookup l dest
            | some f ↦ elim (lookup id dest) [
              | none ↦ if eq_text id l then some f else lookup l dest
              | some g ↦ lookup l dest
            ]
          ])
          ≡ or_else (lookup l dest) (if eq_text l id then lookup l src else none)
      merged = elim (Bool-cases (eq_text l id)) [
        | inl k ↦
            let same : l ≡ id = eq_of_eq_text l id k in
            rw k (rw same (ground (arith, eq_text_refl id)))
        | inr k ↦ ground (arith, k, eq_text_iff id l, eq_text_iff l id)
      ]

  -- The loop.
  lookup-copy_links :
      (ids : List Text) (dest : Dict ℕ)
      → lookup l (copy_links ids src dest) ≡ or_else (lookup l dest) (among l ids (lookup l src))
  unfolding copy_links
  lookup-copy_links [] dest = ground arith
  lookup-copy_links (id ∷ ids) dest =
      ground (arith, lookup-copy_links ids (add_link id dest), lookup-add_link id dest)

count-keys : (l : Text) (m : Dict ℕ) → among l (keys m) (lookup l m) ≡ lookup l m
unfolding lookup
count-keys l [] = refl
count-keys l ((k, f) ∷ m) = ground (arith, count-keys l m, eq_text_iff l k, eq_text_iff k l)

-- What the directory at a path holds, after a copy of the one at `src` to the one at `dest`.
abbrev pub CopiesTo : Text → Text → Store → Store → Type 0
CopiesTo src dest s t =
    (dir l : Text)
    → lookup l (dir_of dir t) ≡ (
        if eq_text dest dir
        then or_else (lookup l (dir_of dest s)) (lookup l (dir_of src s))
        else lookup l (dir_of dir s))

or_else-none : (o : Option ℕ) → or_else o none ≡ o
or_else-none none = refl
or_else-none (some f) = refl

empty-among :
    (l : Text) (ids : List Text) (o : Option ℕ) → is_empty ids ≡ true → among l ids o ≡ none
empty-among l [] o e = refl
empty-among l (id ∷ ids) o e = absurd (ground (arith, e))

among-get_dir : (l : Text) (m : Dict ℕ) → among l (sort_texts (keys m)) (lookup l m) ≡ lookup l m
among-get_dir l m = rw (count-sort_texts l (keys m)) (count-keys l m)

-- copyDir gives each link of a node to another node, whose own links stay as they are, and changes no
-- other directory; the files are shared. Both nodes' names have at least four bytes.
pub copy_dir_lem :
    (node to src dest : Text) (s : Store)
    → node_sub node ≡ some src
    → node_sub to ≡ some dest
    → ((copy_dir node to s).0 ≡ ok tt)
      × ((copy_dir node to s).1.files ≡ s.files)
      × CopiesTo src dest s (copy_dir node to s).1
unfolding copy_dir get_dir
copy_dir_lem node to src dest s from into =
    let ids = sort_texts (keys (dir_of src s)) in
    rw from (elim (Bool-cases (is_empty ids)) [
      | inl e ↦ rw e (refl, refl, nothing e)
      | inr e ↦ rw e (rw (from, into) (refl, refl, all_links))
    ])
  where
    nothing : is_empty (sort_texts (keys (dir_of src s))) ≡ true → CopiesTo src dest s s
    nothing e dir l = elim (Bool-cases (eq_text dest dir)) [
      | inl k ↦
          let none_there : none ≡ lookup l (dir_of src s) =
            sym (empty-among l (sort_texts (keys (dir_of src s))) (lookup l (dir_of src s)) e)
            ∙ among-get_dir l (dir_of src s) in
          rw k (
            ap (λ d. lookup l (dir_of d s)) (sym (eq_of_eq_text dest dir k))
            ∙ sym (or_else-none (lookup l (dir_of dest s)))
            ∙ ap (or_else (lookup l (dir_of dest s))) none_there)
      | inr k ↦ rw k refl
    ]

    copied : Dict ℕ
    copied = copy_links (sort_texts (keys (dir_of src s))) (dir_of src s) (dir_of dest s)

    all_links : CopiesTo src dest s (record s { dirs = insert dest copied s.dirs })
    all_links dir l = elim (Bool-cases (eq_text dest dir)) [
      | inl k ↦ rw lookup-insert (
          rw k (
            lookup-copy_links (dir_of src s) l (sort_texts (keys (dir_of src s))) (dir_of dest s)
            ∙ ap (or_else (lookup l (dir_of dest s))) (among-get_dir l (dir_of src s))))
      | inr k ↦ rw lookup-insert (rw k refl)
    ]
