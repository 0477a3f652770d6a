-- ===== src/Autoscale/Gather/Laws.antt =====
-- What the record of the empty nodes holds after a cycle's update.
use code_server_spawner.Common.{
  ℕ, String, Option, none, some, List, [], ◌∷◌, ◌≡◌, refl, sym, ap, ◌∙◌, inl, inr, arith, str_eq,
  eq_iff, ◌==◌, Bool-cases, Option-cases, if◌then◌else◌,
}
use code_server_spawner.Common.Dict.{Dict, contains, lookup, get_or, lookup-insert}
use code_server_spawner.Common.Text.{before_dot}
use code_server_spawner.Common.Time.{Datetime, aware}
use code_server_spawner.Autoscale.State.{NodeAttrs}
use code_server_spawner.Autoscale.Gather.Nodes.{
  IsShort, is_listed, short_to_fqdn-IsMap, contains-short_to_fqdn,
}
use code_server_spawner.Autoscale.Gather.{
  short_to_fqdn, values, pop, track_node, track, keep_known, update_empty_since,
}

lookup-pop :
    (k j : String) (d : Dict Datetime)
    → lookup j (pop k d) ≡ (if str_eq k j then none else lookup j d)
lookup-pop k j [] = ground arith
lookup-pop k j ((i, v) ∷ d) = ground (arith, eq_iff i k, eq_iff i j, eq_iff k j, lookup-pop k j d)

lookup-keep_known :
    (known : List String) (j : String) (d : Dict Datetime)
    → lookup j (keep_known known d) ≡ (if contains j known then lookup j d else none)
lookup-keep_known known j [] = ground arith
lookup-keep_known known j ((i, v) ∷ d) = elim (Bool-cases (str_eq i j)) [
  | inl e ↦
      let same = (eq_iff i j).0 e in
      let later = lookup-keep_known known j d in
      elim (Bool-cases (contains i known)) [
        | inl c ↦ rw (c, e, (sym (ap (λ x. contains x known) same) ∙ c)) refl
        | inr c ↦
            rw (c, (sym (ap (λ x. contains x known) same) ∙ c)) (ground (arith, later, same, c))
      ]
  | inr e ↦
      let later = lookup-keep_known known j d in
      elim (Bool-cases (contains i known)) [ inl c ↦ rw (c, e) later | inr c ↦ rw (c, e) later ]
]

-- What a node with this count is recorded with, after a record of before.
abbrev pub since : ℕ → ℕ → Option Datetime → Option Datetime
since now count before =
    if count == 0 then (elim before [ none ↦ some (aware now) | some t ↦ some t ]) else none

lookup-track_node :
    (now count : ℕ) (fqdn j : String) (d : Dict Datetime)
    → lookup j (track_node now count fqdn d)
      ≡ (if str_eq fqdn j then since now count (lookup fqdn d) else lookup j d)
lookup-track_node now count fqdn j d = elim (Bool-cases (count == 0)) [
  | inl z ↦ elim (Option-cases (lookup fqdn d)) [
    | inl e ↦ rw (z, e) (lookup-insert fqdn j (aware now) d)
    | inr (t, e) ↦ elim (Bool-cases (str_eq fqdn j)) [
      | inl s ↦ rw (z, e, s) (sym (ap (λ k. lookup k d) ((eq_iff fqdn j).0 s)) ∙ e)
      | inr s ↦ rw (z, e, s) refl
    ]
  ]
  | inr z ↦ rw z (lookup-pop fqdn j d)
]

since-since :
    (now count : ℕ) (before : Option Datetime)
    → since now count (since now count before) ≡ since now count before
since-since now count none = ground arith
since-since now count (some t) = ground arith

lookup-track :
    (host_counts : Dict ℕ) (now : ℕ) (nodes : Dict String) (d : Dict Datetime) (j : String)
    → IsShort nodes
    → lookup j (track host_counts now nodes d) ≡ (
        if contains j (values nodes)
        then since now (get_or (before_dot j) host_counts 0) (lookup j d)
        else lookup j d)
unfolding track
lookup-track host_counts now [] d j h = refl
lookup-track host_counts now ((short, fqdn) ∷ nodes) d j (h, hs) =
    let count = get_or short host_counts 0 in
    let later = lookup-track host_counts now nodes (track_node now count fqdn d) j hs in
    let here = lookup-track_node now count fqdn j d in
    elim (Bool-cases (str_eq fqdn j)) [
      | inl e ↦
          let same = (eq_iff fqdn j).0 e in
          let counts : get_or (before_dot j) host_counts 0 ≡ count =
            sym (ap (λ k. get_or k host_counts 0) (h ∙ ap before_dot same)) in
          let first : lookup j (track_node now count fqdn d) ≡ since now count (lookup j d) =
            (rw e at here) ∙ ap (λ k. since now count (lookup k d)) same in
          rw (e, counts)
            (elim (Bool-cases (contains j (values nodes))) [
              | inl c ↦ (rw (c, counts, first) at later) ∙ since-since now count (lookup j d)
              | inr c ↦ (rw c at later) ∙ first
            ])
      | inr e ↦ rw e ((rw (rw e at here) at later))
    ]

-- After the update a hostname stands in the record exactly if the swarm lists a node with it, no node
-- after that one has the same short name and another hostname, and no host runs there by the counts:
-- with the time that it had before, and with the present time where it had none.
pub lookup-update_empty_since :
    (node_dicts : List NodeAttrs) (host_counts : Dict ℕ) (now : ℕ) (saved : Dict Datetime)
    (fqdn : String)
    → lookup fqdn (update_empty_since node_dicts host_counts now saved) ≡ (
        if is_listed fqdn node_dicts
        then since now (get_or (before_dot fqdn) host_counts 0) (lookup fqdn saved)
        else none)
unfolding update_empty_since
lookup-update_empty_since node_dicts host_counts now saved fqdn =
    let nodes = short_to_fqdn [] node_dicts in
    let listed = contains-short_to_fqdn fqdn node_dicts in
    let (short, _) = short_to_fqdn-IsMap node_dicts [] (tt, tt) in
    let tracked = lookup-track host_counts now nodes saved fqdn short in
    lookup-keep_known (values nodes) fqdn (track host_counts now nodes saved)
    ∙ elim (Bool-cases (is_listed fqdn node_dicts)) [
      | inl c ↦ rw (listed, c) (rw (listed, c) at tracked)
      | inr c ↦ rw (listed, c) refl
    ]
