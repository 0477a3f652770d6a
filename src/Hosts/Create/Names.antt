-- ===== src/Hosts/Create/Names.antt =====
-- The names of services and rows that the start of a host looks up.
use code_server_spawner.Common.{
  String, Bool, true, false, ◌||◌, sym, ap, ◌∙◌, Option, some, List, [], ◌∷◌, ◌++◌, ◌≡◌, refl, inl,
  inr, str_eq, eq_iff, All, Bool-cases, Option-cases, is_some,
}
use code_server_spawner.Hosts.{CodeHost}
use code_server_spawner.Hosts.Sync.{Service, Model}
use code_server_spawner.Hosts.Create.{
  LiveService, row_of_name, row_of_service, live_of_user, reuse_row,
}

pub row_of_name-append :
    (name : String) (rows : List CodeHost) (ch : CodeHost)
    → ch.service_name ≡ name
    → is_some (row_of_name name (rows ++ ch ∷ [])) ≡ true
row_of_name-append name [] ch same = rw (row_of_name, (eq_iff ch.service_name name).1 same) refl
row_of_name-append name (r ∷ rows) ch same = elim (Bool-cases (str_eq r.service_name name)) [
  | inl e ↦ rw (row_of_name, e) refl
  | inr e ↦ rw (row_of_name, e) (row_of_name-append name rows ch same)
]

pub row_of_name-reuse_row :
    (name : String) (m : Model) (fqdn : Option String) (rows : List CodeHost) (old : CodeHost)
    → m.service_name ≡ name
    → row_of_service m.service_id rows ≡ some old
    → is_some (row_of_name name (reuse_row m fqdn rows)) ≡ true
row_of_name-reuse_row name m fqdn [] old same h = absurd (cc h)
row_of_name-reuse_row name m fqdn (r ∷ rows) old same h =
    elim (Bool-cases (str_eq r.service_id m.service_id)) [
      | inl e ↦ rw (reuse_row, e) (rw (row_of_name, (eq_iff m.service_name name).1 same) refl)
      | inr e ↦
          let found =
            row_of_name-reuse_row name m fqdn rows old same (rw (row_of_service, e) at h) in
          elim (Bool-cases (str_eq r.service_name name)) [
            | inl f ↦ rw (reuse_row, e) (rw (row_of_name, f) refl)
            | inr f ↦ rw (reuse_row, e) (rw (row_of_name, f) found)
          ]
    ]

-- Every live service with the label of a user bears the slug of the name in the label.
abbrev pub AreNamed : (String → String) → List LiveService → Type 0
AreNamed slugify =
    All (λ l. (u : String) → l.service.username ≡ some u → l.service.name ≡ slugify u)

-- Whether a live service bears a name.
abbrev pub is_taken : String → List LiveService → Bool
is_taken name [] = false
is_taken name (l ∷ ls) = str_eq l.service.name name || is_taken name ls

pub some-injective : {a b : String} → some a ≡ some b → a ≡ b
some-injective h = cc h

pub service-injective : {a b : Service} → some a ≡ some b → a ≡ b
service-injective h = cc h

pub AreNamed-append :
    (slugify : String → String) (ls : List LiveService) (l : LiveService)
    → AreNamed slugify ls
    → ((u : String) → l.service.username ≡ some u → l.service.name ≡ slugify u)
    → AreNamed slugify (ls ++ l ∷ [])
AreNamed-append slugify [] l h p = (p, tt)
AreNamed-append slugify (k ∷ ls) l (q, h) p = (q, AreNamed-append slugify ls l h p)

pub AreNamed-live_of_user :
    (slugify : String → String) (u : String) (ls : List LiveService) (s : Service)
    → AreNamed slugify ls
    → live_of_user u ls ≡ some s
    → s.name ≡ slugify u
AreNamed-live_of_user slugify u [] s h e = absurd (cc e)
AreNamed-live_of_user slugify u (l ∷ ls) s (p, h) e = elim (Option-cases l.service.username) [
  | inl n ↦ AreNamed-live_of_user slugify u ls s h (rw (live_of_user, n) at e)
  | inr (v, n) ↦ elim (Bool-cases (str_eq v u)) [
    | inl same ↦
        let found : some l.service ≡ some s = rw (live_of_user, n, same) at e in
        let it : l.service ≡ s = service-injective found in
        ap (λ (x : Service). x.name) (sym it) ∙ p v n ∙ ap slugify ((eq_iff v u).0 same)
    | inr other ↦ AreNamed-live_of_user slugify u ls s h (rw (live_of_user, n, other) at e)
  ]
]

pub is_taken-append :
    (name : String) (ls : List LiveService) (l : LiveService)
    → l.service.name ≡ name
    → is_taken name (ls ++ l ∷ []) ≡ true
is_taken-append name [] l e = rw ((eq_iff l.service.name name).1 e) refl
is_taken-append name (k ∷ ls) l e = elim (Bool-cases (str_eq k.service.name name)) [
  | inl f ↦ rw f refl
  | inr f ↦ rw f (is_taken-append name ls l e)
]
