-- ===== src/Autoscale/ScaleDown.antt =====
-- Which nodes to remove: `plan_scale_down` of cspawn/cs_docker/autoscale.py.
pub mod Safety
use code_server_spawner.Common.{
  ℕ, ◌+◌, String, Bool, true, false, not, ◌&&◌, Option, none, some, List, [], ◌∷◌, ◌==◌, leb,
  if◌then◌else◌, keep,
}
use code_server_spawner.Common.Int.{ℤ, pos, negsuc, ◌+ℤ◌, ◌-ℤ◌, sub_ℕ, leb_ℤ, ltb_ℤ, minutes}
use code_server_spawner.Common.Dict.{Dict, lookup, contains}
use code_server_spawner.Common.Sort.{sort_by}
use code_server_spawner.Common.Time.{Datetime, as_utc}
use code_server_spawner.Config.{Config, cfg_int}
use code_server_spawner.Autoscale.State.{NodeView, ClusterState, excess_capacity, worker_count}

-- The four settings that the function reads.
pub record Policy : Type 0 where
  pub cooldown_min : ℤ
  pub min_workers : ℤ
  pub max_remove : ℤ
  pub headroom : ℤ

unfoldable pub policy : Config → Policy
policy cfg = record {
  cooldown_min = cfg_int cfg "AUTOSCALE_SCALEDOWN_COOLDOWN_MIN" (pos 30);
  min_workers = cfg_int cfg "AUTOSCALE_MIN_WORKER_NODES" (pos 1);
  max_remove = cfg_int cfg "AUTOSCALE_MAX_REMOVE_PER_CYCLE" (pos 1);
  headroom = cfg_int cfg "AUTOSCALE_HEADROOM" (pos 2);
}

-- `not n.is_manager and not n.is_leader and n.running_hosts == 0`
abbrev pub is_candidate : NodeView → Bool
is_candidate n = not n.is_manager && not n.is_leader && n.running_hosts == 0

-- `n.serial if n.serial is not None else -1`
abbrev pub serial_key : NodeView → ℤ
serial_key n = elim n.serial [ none ↦ negsuc 0 | some k ↦ pos k ]

-- The candidates, the highest serial first.
unfoldable pub candidates : List NodeView → List NodeView
candidates nodes = sort_by (λ a b. ltb_ℤ (serial_key b) (serial_key a)) (keep is_candidate nodes)

-- Empty for `cooldown_min` minutes at least, by the record of `empty_since`. The float quotient of
-- the code is taken as exact.
abbrev pub is_cool : ℤ → ℕ → Dict Datetime → NodeView → Bool
is_cool cooldown_min now empty_since n = elim (lookup n.fqdn empty_since) [
  | none ↦ false
  | some since ↦ not (ltb_ℤ (sub_ℕ now (as_utc since)) (minutes cooldown_min))
]

module _ (p : Policy) (now : ℕ) (empty_since : Dict Datetime) (protect : List String) where
  -- None of the four `continue`s of the loop is taken.
  abbrev pub is_removable : NodeView → ℤ → ℤ → Bool
  is_removable n remaining_excess workers_left =
      not (contains n.fqdn protect)
      && is_cool p.cooldown_min now empty_since n
      && not (leb_ℤ remaining_excess (n.capacity +ℤ p.headroom))
      && not (ltb_ℤ (workers_left -ℤ pos 1) p.min_workers)

  -- The loop over the candidates, with the number selected so far.
  unfoldable pub select : List NodeView → ℕ → ℤ → ℤ → List NodeView
  select [] taken remaining_excess workers_left = []
  select (n ∷ ns) taken remaining_excess workers_left =
      let rest = select ns (taken + 1) (remaining_excess -ℤ n.capacity) (workers_left -ℤ pos 1) in
      let skip = select ns taken remaining_excess workers_left in
      if leb_ℤ p.max_remove (pos taken)
      then []
      else if is_removable n remaining_excess workers_left
      then n ∷ rest
      else skip

-- `plan_scale_down(state, demand, cfg, now, empty_since, protected_node_fqdns)`; the demand is not
-- read by the code.
unfoldable pub plan_scale_down :
    ClusterState → Config → ℕ → Dict Datetime → List String → List NodeView
plan_scale_down state cfg now empty_since protect =
    select (policy cfg) now empty_since protect (candidates state.nodes) 0 (excess_capacity state)
      (pos (worker_count state))
