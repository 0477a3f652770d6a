-- ===== src/Autoscale/State.antt =====
-- The cluster as the loop sees it: `NodeView`, `ClusterState`, `capacity_for_node`,
-- `_extract_serial` and `assess_cluster` of cspawn/cs_docker/autoscale.py.
use code_server_spawner.Common.{
  ℕ, ◌+◌, String, Bool, Option, none, some, List, [], ◌∷◌, not, str_eq, if◌then◌else◌, map,
  count_if,
}
use code_server_spawner.Common.Int.{ℤ, pos, ◌+ℤ◌, ◌-ℤ◌}
use code_server_spawner.Common.Dict.{Dict, lookup, get_or}
use code_server_spawner.Common.Text.{parse_int, before_dot, has_dot, spells, trailing_number}
use code_server_spawner.Config.{Config}
use code_server_spawner.Tiers.{node_capacity}

-- `node.attrs`, as far as the code reads it. A key that is missing counts as the empty value, which
-- is how `or {}` and `or ""` treat it.
pub record NodeAttrs : Type 0 where
  pub id : String
  pub hostname : String
  pub role : String
  pub availability : String
  pub leader : Bool
  pub labels : Dict String

-- `NodeView`
pub record NodeView : Type 0 where
  pub short : String
  pub fqdn : String
  pub size_slug : Option String
  pub capacity : ℤ
  pub running_hosts : ℕ
  pub is_manager : Bool
  pub is_leader : Bool
  pub serial : Option ℕ

-- `ClusterState`
pub record ClusterState : Type 0 where
  pub nodes : List NodeView
  pub pending_hosts : ℕ

-- `ClusterState.total_capacity`: the capacity of the workers
abbrev pub capacity_of : List NodeView → ℤ
capacity_of [] = pos 0
capacity_of (n ∷ ns) =
    let rest = capacity_of ns in if n.is_manager then rest else n.capacity +ℤ rest

abbrev pub total_capacity : ClusterState → ℤ
total_capacity state = capacity_of state.nodes

-- `ClusterState.total_load`: the hosts on all nodes
abbrev pub load_of : List NodeView → ℕ
load_of [] = 0
load_of (n ∷ ns) = n.running_hosts + load_of ns

abbrev pub total_load : ClusterState → ℕ
total_load state = load_of state.nodes

-- `ClusterState.excess_capacity`
abbrev pub excess_capacity : ClusterState → ℤ
excess_capacity state = total_capacity state -ℤ pos (total_load state)

-- `sum(1 for n in state.nodes if not n.is_manager)`
abbrev pub worker_count : ClusterState → ℕ
worker_count state = count_if (λ n. not n.is_manager) state.nodes

-- `capacity_for_node(node_attrs, cfg)`
unfoldable pub capacity_for_node : NodeAttrs → Config → ℤ
unfolding parse_int node_capacity
capacity_for_node attrs cfg = elim (lookup "cs.capacity" attrs.labels) [
  | none ↦ node_capacity attrs.labels cfg
  | some raw ↦ elim (parse_int raw) [ none ↦ node_capacity attrs.labels cfg | some n ↦ n ]
]

-- `_extract_serial(hostname)`
unfoldable pub extract_serial : String → Option ℕ
unfolding before_dot trailing_number
extract_serial hostname = trailing_number (before_dot hostname)

-- `hostname.split(".")[0] if hostname else (attrs.get("ID") or "?")`
unfoldable pub short_name : NodeAttrs → String
unfolding before_dot
short_name attrs =
    if str_eq attrs.hostname ""
    then (if str_eq attrs.id "" then "?" else attrs.id)
    else before_dot attrs.hostname

-- `x or None`
abbrev pub or_none : Option String → Option String
or_none none = none
or_none (some s) = if str_eq s "" then none else some s

-- The body of the loop of `assess_cluster`.
unfoldable pub view : Dict ℕ → Config → NodeAttrs → NodeView
unfolding capacity_for_node extract_serial short_name has_dot spells
view host_counts cfg attrs =
    let short = short_name attrs in
    record {
      short = short;
      fqdn = if has_dot attrs.hostname then attrs.hostname else short;
      size_slug = or_none (lookup "cs.size_slug" attrs.labels);
      capacity = capacity_for_node attrs cfg;
      running_hosts = get_or short host_counts 0;
      is_manager = spells attrs.role "manager";
      is_leader = attrs.leader;
      serial = extract_serial short;
    }

-- `assess_cluster(node_dicts, host_counts, pending, cfg)`
unfoldable pub assess_cluster : List NodeAttrs → Dict ℕ → ℕ → Config → ClusterState
unfolding view
assess_cluster node_dicts host_counts pending cfg = record {
  nodes = map (view host_counts cfg) node_dicts;
  pending_hosts = pending;
}
