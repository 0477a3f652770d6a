-- ===== src/Autoscale/Gather/Nodes.antt =====
-- Which nodes `short_to_fqdn` of cspawn/cs_docker/autoscale.py holds.
use code_server_spawner.Common.{
  String, Bool, false, not, ◌&&◌, Option, none, some, List, [], ◌∷◌, ◌≡◌, refl, sym, ap, ◌∙◌, inl,
  inr, arith, str_eq, eq_iff, All, Bool-cases, Option-cases, if◌then◌else◌,
}
use code_server_spawner.Common.Dict.{Dict, contains, lookup, insert, lookup-insert}
use code_server_spawner.Common.Dict.Update.{Distinct, lookup-absent}
use code_server_spawner.Common.Text.{before_dot}
use code_server_spawner.Autoscale.State.{NodeAttrs}
use code_server_spawner.Autoscale.Gather.{short_to_fqdn, values}

-- The hostname of the last of the nodes whose hostname has this short name.
abbrev pub last_named : String → List NodeAttrs → Option String
last_named short [] = none
last_named short (a ∷ rest) = elim (last_named short rest) [
  | some hostname ↦ some hostname
  | none ↦
      (if not (str_eq a.hostname "") && str_eq (before_dot a.hostname) short
        then some a.hostname
        else none)
]

abbrev pub says_name : String → Option String → Bool
says_name fqdn none = false
says_name fqdn (some hostname) = str_eq hostname fqdn

-- Whether the swarm lists a node with this hostname, and none with the same short name and another
-- hostname after it.
abbrev pub is_listed : String → List NodeAttrs → Bool
is_listed fqdn attrs = says_name fqdn (last_named (before_dot fqdn) attrs)

-- The keys of `short_to_fqdn` are the short names of its values.
abbrev pub IsShort : Dict String → Type 0
IsShort = All (λ entry. entry.0 ≡ before_dot entry.1)

IsShort-insert :
    (fqdn : String) (d : Dict String) → IsShort d → IsShort (insert (before_dot fqdn) fqdn d)
IsShort-insert fqdn [] h = (refl, tt)
IsShort-insert fqdn ((k, v) ∷ d) (h, hs) = elim (Bool-cases (str_eq k (before_dot fqdn))) [
  | inl e ↦ rw e ((eq_iff k (before_dot fqdn)).0 e, hs)
  | inr e ↦ rw e (h, IsShort-insert fqdn d hs)
]

absent-insert :
    (j k v : String) (d : Dict String)
    → All (λ l. str_eq l.0 j ≡ false) d
    → str_eq k j ≡ false
    → All (λ l. str_eq l.0 j ≡ false) (insert k v d)
absent-insert j k v [] h e = (e, tt)
absent-insert j k v ((i, w) ∷ d) (h, hs) e = elim (Bool-cases (str_eq i k)) [
  | inl f ↦ rw f (h, hs)
  | inr f ↦ rw f (h, absent-insert j k v d hs e)
]

Distinct-insert : (k v : String) (d : Dict String) → Distinct d → Distinct (insert k v d)
Distinct-insert k v [] u = (tt, tt)
Distinct-insert k v ((i, w) ∷ d) (ne, u) = elim (Bool-cases (str_eq i k)) [
  | inl f ↦ rw f (ne, u)
  | inr f ↦ rw f (
    absent-insert i k v d ne (ground (arith, f, eq_iff i k, eq_iff k i)),
    Distinct-insert k v d u,
  )
]

-- A dict by short names, each once.
abbrev pub IsMap : Dict String → Type 0
IsMap d = IsShort d × Distinct d

pub short_to_fqdn-IsMap :
    (attrs : List NodeAttrs) (d : Dict String) → IsMap d → IsMap (short_to_fqdn d attrs)
unfolding short_to_fqdn
short_to_fqdn-IsMap [] d h = h
short_to_fqdn-IsMap (a ∷ rest) d (h, u) = elim (Bool-cases (str_eq a.hostname "")) [
  | inl e ↦ rw e (short_to_fqdn-IsMap rest d (h, u))
  | inr e ↦ rw e (
      short_to_fqdn-IsMap rest (insert (before_dot a.hostname) a.hostname d)
        (IsShort-insert a.hostname d h, Distinct-insert (before_dot a.hostname) a.hostname d u))
]

contains-values :
    (fqdn : String) (d : Dict String)
    → IsMap d
    → contains fqdn (values d) ≡ says_name fqdn (lookup (before_dot fqdn) d)
contains-values fqdn [] h = refl
contains-values fqdn ((k, v) ∷ d) ((h, hs), (ne, u)) =
    let later = contains-values fqdn d (hs, u) in
    elim (Bool-cases (str_eq v fqdn)) [
      | inl e ↦
          let key : k ≡ before_dot fqdn = h ∙ ap before_dot ((eq_iff v fqdn).0 e) in
          rw (e, (eq_iff k (before_dot fqdn)).1 key) (sym e)
      | inr e ↦ elim (Bool-cases (str_eq k (before_dot fqdn))) [
        | inl g ↦
            let gone : lookup (before_dot fqdn) d ≡ none =
              lookup-absent (before_dot fqdn) d (rw (← (eq_iff k (before_dot fqdn)).0 g) ne) in
            rw (e, g) (later ∙ ap (says_name fqdn) gone ∙ sym e)
        | inr g ↦ rw (e, g) later
      ]
    ]

lookup-short_to_fqdn :
    (short : String) (attrs : List NodeAttrs) (d : Dict String)
    → lookup short (short_to_fqdn d attrs)
      ≡ (elim (last_named short attrs) [ some hostname ↦ some hostname | none ↦ lookup short d ])
unfolding short_to_fqdn
lookup-short_to_fqdn short [] d = refl
lookup-short_to_fqdn short (a ∷ rest) d = elim (Bool-cases (str_eq a.hostname "")) [
  | inl e ↦ elim (Option-cases (last_named short rest)) [
    | inl l ↦ rw (e, lookup-short_to_fqdn short rest d, l, e) refl
    | inr (hostname, l) ↦ rw (e, lookup-short_to_fqdn short rest d, l) refl
  ]
  | inr e ↦
      let later = lookup-short_to_fqdn short rest (insert (before_dot a.hostname) a.hostname d) in
      let there = lookup-insert (before_dot a.hostname) short a.hostname d in
      elim (Option-cases (last_named short rest)) [
        | inr (hostname, l) ↦ rw (e, later, l) refl
        | inl l ↦ elim (Bool-cases (str_eq (before_dot a.hostname) short)) [
          | inl f ↦ rw (e, later, l, there, e, f) refl
          | inr f ↦ rw (e, later, l, there, e, f) refl
        ]
      ]
]

-- The values of `short_to_fqdn` are the hostnames of the nodes, but for those that a later node with
-- the same short name displaces.
pub contains-short_to_fqdn :
    (fqdn : String) (attrs : List NodeAttrs)
    → contains fqdn (values (short_to_fqdn [] attrs)) ≡ is_listed fqdn attrs
contains-short_to_fqdn fqdn attrs =
    contains-values fqdn (short_to_fqdn [] attrs) (short_to_fqdn-IsMap attrs [] (tt, tt))
    ∙ ap (says_name fqdn) (
        lookup-short_to_fqdn (before_dot fqdn) attrs []
        ∙ collapse (last_named (before_dot fqdn) attrs))
  where
    collapse : (o : Option String) → (elim o [ some hostname ↦ some hostname | none ↦ none ]) ≡ o
    collapse none = refl
    collapse (some hostname) = refl
