-- ===== src/Qlib/Store/Links.antt =====
-- putLink: the link is there afterwards, and no link is lost.
use mnm.Prelude.{
  ℕ, ◌≡◌, inl, inr, refl, ap, Option, none, some, Bool-cases, Text, lookup, insert, lookup-insert,
  eq_text, eq_text_refl, eq_of_eq_text, if◌then◌else◌,
}
use mnm.Qlib.Op.{Result, ok, err, panic}
use mnm.Qlib.Store.{
  Store, with_dir, dir_of, node_sub, link_in, make_dir, link_new, link_from, put_link,
}

-- A directory has a link of that name.
abbrev pub HasLink : Text → Text → Store → Type 0
HasLink dir l s = (f : ℕ) × (lookup l (dir_of dir s) ≡ some f)

make_dir-dir_of : (d dir : Text) (s : Store) → dir_of d (make_dir dir s) ≡ dir_of d s
make_dir-dir_of d dir s = elim (Bool-cases (eq_text dir d)) [
  | inl e ↦
      rw (lookup-insert dir d (dir_of dir s) s.dirs)
        (rw e (ap (λ x. dir_of x s) (eq_of_eq_text dir d e)))
  | inr e ↦ rw (lookup-insert dir d (dir_of dir s) s.dirs) (rw e refl)
]

link_in-dir_of :
    (d dir l : Text) (f : ℕ) (s : Store)
    → dir_of d (link_in dir l f s)
      ≡ (if eq_text dir d then insert l f (dir_of dir s) else dir_of d s)
link_in-dir_of d dir l f s = elim (Bool-cases (eq_text dir d)) [
  | inl e ↦ rw (lookup-insert dir d (insert l f (dir_of dir s)) s.dirs) (rw e refl)
  | inr e ↦ rw (lookup-insert dir d (insert l f (dir_of dir s)) s.dirs) (rw e refl)
]

link_in-HasLink : (dir l : Text) (f : ℕ) (s : Store) → HasLink dir l (link_in dir l f s)
link_in-HasLink dir l f s = (
  f,
  rw (link_in-dir_of dir dir l f s)
      (rw (eq_text_refl dir) (rw (lookup-insert l l f (dir_of dir s)) (rw (eq_text_refl l) refl))),
)

-- No link is lost.
abbrev pub KeepsLinks : Store → Store → Type 0
KeepsLinks s t = (dir l : Text) → HasLink dir l s → HasLink dir l t

make_dir-KeepsLinks : (dir : Text) (s : Store) → KeepsLinks s (make_dir dir s)
make_dir-KeepsLinks dir s d l (g, h) = (g, rw (make_dir-dir_of d dir s) h)

link_in-KeepsLinks : (dir l : Text) (f : ℕ) (s : Store) → KeepsLinks s (link_in dir l f s)
link_in-KeepsLinks dir l f s d k (g, h) = elim (Bool-cases (eq_text dir d)) [
  | inr e ↦ (g, rw (link_in-dir_of d dir l f s) (rw e h))
  | inl e ↦ elim (Bool-cases (eq_text l k)) [
    | inl i ↦ (
      f,
      rw (link_in-dir_of d dir l f s) (rw e (rw (lookup-insert l k f (dir_of dir s)) (rw i refl))),
    )
    | inr i ↦ (
      g,
      rw (link_in-dir_of d dir l f s)
          (rw e (rw (lookup-insert l k f (dir_of dir s)) (rw i (rw (eq_of_eq_text dir d e) h)))),
    )
  ]
]

-- After putLink: the link is in the node's directory, if there is no error, and every link that was
-- there is.
abbrev pub Puts : Text → Text → Store → Result (Unit {0}) × Store → Type 0
Puts n l s (ok _, t) = KeepsLinks s t × ((dir : Text) × ((node_sub n ≡ some dir) × HasLink dir l t))
Puts n l s (err e, t) = KeepsLinks s t
Puts n l s (panic, t) = KeepsLinks s t

module _ (n l : Text) (s : Store) where
  link_new-Puts :
      (dir : Text) (f : ℕ) (o : Option ℕ)
      → node_sub n ≡ some dir
      → lookup l (dir_of dir s) ≡ o
      → Puts n l s (link_new dir l f o s)
  link_new-Puts dir f none e h =
      (link_in-KeepsLinks dir l f s, (dir, (e, link_in-HasLink dir l f s)))
  link_new-Puts dir f (some g) e h =
      (make_dir-KeepsLinks dir s, (dir, (e, make_dir-KeepsLinks dir s dir l (g, h))))

  link_from-Puts :
      (dir : Text) (o : Option ℕ) → node_sub n ≡ some dir → Puts n l s (link_from dir l o s)
  link_from-Puts dir none e = make_dir-KeepsLinks dir s
  link_from-Puts dir (some f) e = link_new-Puts dir f (lookup l (dir_of dir s)) e refl

  with_dir-Puts :
      (id : Text) (o : Option Text)
      → node_sub n ≡ o
      → Puts n l s (with_dir o (λ dir t. link_from dir l (lookup id t.temp) t) s)
  with_dir-Puts id none e = λ d k h. h
  with_dir-Puts id (some dir) e = link_from-Puts dir (lookup id s.temp) e

  pub put_link-Puts : (id : Text) → Puts n l s (put_link id n l s)
  unfolding put_link
  put_link-Puts id = with_dir-Puts id (node_sub n) refl
