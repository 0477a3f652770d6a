-- ===== src/Nodes/Labels.antt =====
-- The labels of a node: `_ensure_node_labels` and `_ensure_label_on_node` of cspawn/cli/node.py,
-- over the labels that the swarm has for the node. Whether the node is found and whether its update
-- goes through are arguments.
mod Tests
use mathlib.Core.Path.{subst}
use text.Mathlib.TextPositions.{eq_refl}
use code_server_spawner.Common.{
  String, Bool, true, false, not, ◌&&◌, Option, none, some, List, [], ◌∷◌, ◌≡◌, refl, ◌⊎◌, inl, inr,
  ◌∙◌, sym, ap, arith, str_eq, eq_iff, keep, if◌then◌else◌, All, Bool-cases, Option-cases, if-elim,
}
use code_server_spawner.Common.Sort.Laws.{All-map, All-both}
use code_server_spawner.Common.Dict.Update.{update, Distinct, lookup-update, lookup-absent}
use code_server_spawner.Common.Dict.{Dict, lookup, insert, lookup-insert}

-- `existing.get(k) == v`
abbrev pub has_label : Dict String → String × String → Bool
has_label existing (k, v) = elim (lookup k existing) [ none ↦ false | some w ↦ str_eq w v ]

-- `{k: v for k, v in labels.items() if existing.get(k) != v}`
abbrev pub to_set : Dict String → Dict String → Dict String
to_set labels existing = keep (λ l. not (has_label existing l)) labels

abbrev is_empty : Dict String → Bool
is_empty [] = true
is_empty (_ ∷ _) = false

module _ (found : Bool) (update_fails : Bool) where
  -- `_ensure_node_labels(manager_client, node_name, labels)`: whether a label was changed, and the
  -- labels of the node
  unfoldable pub ensure_node_labels : Dict String → Dict String → Bool × Dict String
  ensure_node_labels labels existing =
      if is_empty labels
      then (false, existing)
      else if not found
      then (false, existing)
      else if is_empty (to_set labels existing)
      then (false, existing)
      else if update_fails
      then (false, existing)
      else (true, update (to_set labels existing) existing)

  -- `_ensure_label_on_node(manager_client, node_name, label_key)`
  unfoldable pub ensure_label_on_node : String → Dict String → Bool × Dict String
  ensure_label_on_node label_key existing =
      if not found
      then (false, existing)
      else if has_label existing (label_key, "true")
      then (false, existing)
      else if update_fails
      then (false, existing)
      else (true, insert label_key "true" existing)

str_eq-flip : (s t : String) → str_eq s t ≡ false → str_eq t s ≡ false
str_eq-flip s t h = elim (Bool-cases (str_eq t s)) [
  | inl e ↦ absurd (cc (h, eq_refl t, (eq_iff t s).0 e))
  | inr e ↦ e
]

All-keep_of :
    (P : String × String → Type 0) (p : String × String → Bool) (d : Dict String)
    → All P d
    → All P (keep p d)
All-keep_of P p [] h = tt
All-keep_of P p (l ∷ d) (x, h) =
    if-elim (All P) (p l) (λ _. (x, All-keep_of P p d h)) (λ _. All-keep_of P p d h)

Distinct-keep : (p : String × String → Bool) (d : Dict String) → Distinct d → Distinct (keep p d)
Distinct-keep p [] h = tt
Distinct-keep p ((k, v) ∷ d) (ne, h) =
    if-elim Distinct (p (k, v))
      (λ _. (All-keep_of (λ l. str_eq l.0 k ≡ false) p d ne, Distinct-keep p d h))
      (λ _. Distinct-keep p d h)

has_label-lookup :
    (k v : String) (existing : Dict String)
    → has_label existing (k, v) ≡ true
    → lookup k existing ≡ some v
has_label-lookup k v existing h = elim (Option-cases (lookup k existing)) [
  | inl e ↦ absurd (cc (rw (has_label, e) at h))
  | inr (w, e) ↦ e ∙ ap (λ x. some x) ((eq_iff w v).0 (rw (has_label, e) at h))
]

has_label_of : (k v : String) (d : Dict String) → lookup k d ≡ some v → has_label d (k, v) ≡ true
has_label_of k v d e = rw (has_label, e) (eq_refl v)

-- What a node has under a key once the labels are on it.
abbrev pub merged : String → Dict String → Dict String → Option String
merged k labels existing = elim (lookup k labels) [ none ↦ lookup k existing | some v ↦ some v ]

merged_of :
    (k v : String) (labels existing : Dict String)
    → lookup k labels ≡ some v
    → merged k labels existing ≡ some v
merged_of k v labels existing e = rw (merged, e) refl

-- The labels that are left out are on the node.
merged-to_set :
    (k : String) (labels existing : Dict String)
    → Distinct labels
    → merged k (to_set labels existing) existing ≡ merged k labels existing
merged-to_set k [] existing d = refl
merged-to_set k ((j, v) ∷ labels) existing (ne, d) =
    let later = merged-to_set k labels existing d in
    elim (Bool-cases (has_label existing (j, v))) [
      | inr f ↦ elim (Bool-cases (str_eq j k)) [
        | inl e ↦ rw (f, merged, e) refl
        | inr e ↦ rw (f, merged, e) later
      ]
      | inl f ↦ elim (Bool-cases (str_eq j k)) [
        | inl e ↦
            let same : j ≡ k = (eq_iff j k).0 e in
            let absent = lookup-absent j (to_set labels existing) (
              All-keep_of (λ l. str_eq l.0 j ≡ false) (λ l. not (has_label existing l)) labels
                ne) in
            let absent_k =
              subst (λ (x : String). lookup x (to_set labels existing) ≡ none) same absent in
            let there =
              subst (λ (x : String). lookup x existing ≡ some v) same
                (has_label-lookup j v existing f) in
            rw (f, merged, e) (rw absent_k there)
        | inr e ↦ rw (f, merged, e) later
      ]
    ]

-- Each label has its value.
lookup_each :
    (labels : Dict String) → Distinct labels → All (λ l. lookup l.0 labels ≡ some l.1) labels
lookup_each [] d = tt
lookup_each ((k, v) ∷ labels) (ne, d) = (
  rw (eq_refl k) refl,
  All-both labels (λ l e h. rw (str_eq-flip l.0 k e) h) ne (lookup_each labels d),
)

to_set-nil :
    (labels after : Dict String)
    → All (λ l. has_label after l ≡ true) labels
    → to_set labels after ≡ []
to_set-nil [] after h = refl
to_set-nil (l ∷ labels) after (e, h) = rw e (to_set-nil labels after h)

ensure_node_labels_lem :
    (labels existing : Dict String)
    → ensure_node_labels true false labels existing
      ≡ (not (is_empty (to_set labels existing)), update (to_set labels existing) existing)
unfolding ensure_node_labels
ensure_node_labels_lem [] existing = refl
ensure_node_labels_lem (l ∷ labels) existing = empty_or_not (to_set (l ∷ labels) existing)
  where
    empty_or_not :
        (changes : Dict String)
        → ◌≡◌ {A = Bool × Dict String}
            (if is_empty changes then (false, existing) else (true, update changes existing))
            (not (is_empty changes), update changes existing)
    empty_or_not [] = refl
    empty_or_not (c ∷ cs) = refl

-- A call that finds the node and whose update goes through leaves the labels on the node, and every
-- other label as it was; and a second call changes nothing and says so.
pub ensure_node_labels-sets :
    (labels existing : Dict String)
    → Distinct labels
    → let (changed, after) = ensure_node_labels true false labels existing in
      ((k : String) → lookup k after ≡ merged k labels existing)
      × (ensure_node_labels true false labels after ≡ (false, after))
ensure_node_labels-sets labels existing d =
    let after = update (to_set labels existing) existing in
    let set_to : (k : String) → lookup k after ≡ merged k labels existing = λ k.
      lookup-update k (to_set labels existing) existing
        (Distinct-keep (λ l. not (has_label existing l)) labels d)
      ∙ merged-to_set k labels existing d in
    let there : All (λ l. has_label after l ≡ true) labels =
      All-map labels
        (λ l e. has_label_of l.0 l.1 after (set_to l.0 ∙ merged_of l.0 l.1 labels existing e))
        (lookup_each labels d) in
    rw (ensure_node_labels_lem labels existing)
      (set_to, ensure_node_labels_lem labels after ∙ rw (to_set-nil labels after there) refl)
