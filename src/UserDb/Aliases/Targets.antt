-- ===== src/UserDb/Aliases/Targets.antt =====
-- The target of an alias, in the cache or on disk, and what an operation may do to it.
use mnm.Prelude.{
  ◌≡◌, ◌⊎◌, inl, inr, refl, sym, ◌∙◌, true, false, some, [], Text, arith, lookup, insert,
  lookup-insert, eq_text, eq_of_eq_text, eq_text_refl, subst, ◌∷◌, is_empty, if◌then◌else◌,
  Bool-cases, Option-cases,
}
use mnm.UserDb.Model.{or_zero, alias}
use mnm.UserDb.Op.{UserDb, ok}
use mnm.UserDb.Names.{file_name}
use mnm.UserDb.Names.Escape.{IsBytes}
use mnm.UserDb.Record.{get_alias}
use mnm.UserDb.Aliases.{alias_uid, cache_alias, load_alias, lookup_alias, try_lookup}

-- The target of the symbolic link, and the one that Lookup finds.
abbrev pub disk_target : Text → UserDb → Text
disk_target b db = or_zero [] (lookup (file_name alias b) db.disk.links)

abbrev pub target : Text → UserDb → Text
target b db = if is_empty (alias_uid b db) then disk_target b db else alias_uid b db

-- An alias, of a name of bytes, that had a target has it still.
abbrev pub Stable : UserDb → UserDb → Type 0
Stable db db' = (b : Text) → IsBytes b → (target b db ≡ []) ⊎ (target b db' ≡ target b db)

pub Stable-refl : (db : UserDb) → Stable db db
Stable-refl db b bytes = inr refl

-- The cache took targets from the disk, if at all.
pub record Fills (db db' : UserDb) : Type 0 where
  pub disk : db'.disk ≡ db.disk
  pub aliases :
      (b : Text)
      → (alias_uid b db' ≡ alias_uid b db)
        ⊎ ((alias_uid b db ≡ []) × (alias_uid b db' ≡ disk_target b db))

pub Fills-refl : (db : UserDb) → Fills db db
Fills-refl db = record { disk = refl; aliases = λ b. inl refl }

pub Fills-trans : (a b c : UserDb) → Fills a b → Fills b c → Fills a c
Fills-trans a b c h g = record {
  disk = g.disk ∙ h.disk;
  aliases = λ x. elim (h.aliases x) [
    | inl e ↦ elim (g.aliases x) [ inl f ↦ inl (f ∙ e) | inr (n, f) ↦ inr (sym e ∙ n, f ∙ same x) ]
    | inr (n, e) ↦ elim (g.aliases x) [ inl f ↦ inr (n, f ∙ e) | inr (_, f) ↦ inr (n, f ∙ same x) ]
  ];
}
  where
    same : (x : Text) → disk_target x b ≡ disk_target x a
    same x = rw (h.disk)

pub eq_nil : (x : Text) → is_empty x ≡ true → x ≡ []
eq_nil [] h = refl
eq_nil (c ∷ x) h = cc

-- No target changes.
pub Fills-target : (db db' : UserDb) (b : Text) → Fills db db' → target b db' ≡ target b db
Fills-target db db' b h =
    let same : disk_target b db' ≡ disk_target b db = rw (h.disk) in
    elim (h.aliases b) [ inl e ↦ rw (e, same) refl | inr (n, e) ↦ ground (arith, n, e, same) ]

pub Stable-after : (db d d' : UserDb) → Fills db d → Stable d d' → Stable db d'
Stable-after db d d' h g b bytes = elim (g b bytes) [
  | inl e ↦ inl (sym (Fills-target db d b h) ∙ e)
  | inr e ↦ inr (e ∙ Fills-target db d b h)
]

-- The target of the alias is in the cache, if there is one.
abbrev pub IsLoaded : Text → UserDb → Type 0
IsLoaded a db = alias_uid a db ≡ target a db

pub Fills-IsLoaded : (db db' : UserDb) (a : Text) → Fills db db' → IsLoaded a db → IsLoaded a db'
Fills-IsLoaded db db' a h e = elim (h.aliases a) [
  | inl f ↦ f ∙ e ∙ sym (Fills-target db db' a h)
  | inr (n, f) ↦ f ∙ known n ∙ sym (Fills-target db db' a h)
]
  where
    known : alias_uid a db ≡ [] → disk_target a db ≡ target a db
    known n = ground (arith, n)

pub alias_uid-insert :
    (a uid b : Text) (db : UserDb)
    → alias_uid b (record db { alias = insert a uid db.alias })
      ≡ (if eq_text a b then uid else alias_uid b db)
alias_uid-insert a uid b db =
    rw lookup-insert (elim (Bool-cases (eq_text a b)) [ inl e ↦ rw e | inr e ↦ rw e ])

-- A cached target is the answer, and nothing changes.
pub try_lookup-cached :
    (a : Text) (db : UserDb)
    → is_empty a ≡ false
    → is_empty (alias_uid a db) ≡ false
    → try_lookup a db ≡ (ok (alias_uid a db), db)
unfolding lookup_alias
try_lookup-cached a db e f = rw (e, f)

-- Lookup of a name, where an error is the empty target: it fills the cache, answers the target, and
-- leaves that in the cache.
module _ (a : Text) (named : is_empty a ≡ false) (db : UserDb) where
  filled : Text → UserDb
  filled uid = record db { alias = insert a uid db.alias }

  filled-Fills :
      (uid : Text)
      → is_empty (alias_uid a db) ≡ true
      → lookup (file_name alias a) db.disk.links ≡ some uid
      → Fills db (filled uid)
  unfolding filled
  filled-Fills uid e f = record {
    disk = refl;
    aliases = λ b. elim (Bool-cases (eq_text a b)) [
      | inr other ↦ inl (ground (arith, other, alias_uid-insert a uid b db))
      | inl same ↦
          let it : alias_uid b (filled uid) ≡ uid =
            ground (arith, same, alias_uid-insert a uid b db) in
          let here : disk_target a db ≡ uid = rw f refl in
          subst
            (λ x.
              (alias_uid b (filled uid) ≡ alias_uid x db)
              ⊎ ((alias_uid x db ≡ []) × (alias_uid b (filled uid) ≡ disk_target x db)))
            (eq_of_eq_text a b same) (inr (eq_nil _ e, it ∙ sym here))
    ];
  }

  filled-IsLoaded :
      (uid : Text) → lookup (file_name alias a) db.disk.links ≡ some uid → IsLoaded a (filled uid)
  unfolding filled
  filled-IsLoaded uid f =
      rw (alias_uid-insert a uid a db, eq_text_refl a, f)
        (elim (Bool-cases (is_empty uid)) [ inl e ↦ rw e | inr e ↦ rw e ])

  pub try_lookup_lem :
      (d : UserDb) × (try_lookup a db ≡ (ok (target a db), d)) × Fills db d × IsLoaded a d
  unfolding lookup_alias load_alias cache_alias get_alias
  try_lookup_lem = elim (Bool-cases (is_empty (alias_uid a db))) [
    | inr e ↦ rw (named, e) (db, refl, Fills-refl db, rw e refl)
    | inl e ↦ elim (Option-cases (lookup (file_name alias a) db.disk.links)) [
      | inl f ↦ rw (named, e, f) (db, refl, Fills-refl db, rw (e, f) (eq_nil _ e))
      | inr (uid, f) ↦
          rw (named, e, f)
            (filled uid, unfold filled in (rw e refl), filled-Fills uid e f, filled-IsLoaded uid f)
    ]
  ]

  pub try_lookup-Fills : Fills db (try_lookup a db).1
  try_lookup-Fills = let (d, e, h, l) = try_lookup_lem in rw e h

  pub try_lookup-IsLoaded : IsLoaded a (try_lookup a db).1
  try_lookup-IsLoaded = let (d, e, h, l) = try_lookup_lem in rw e l
