-- ===== src/Autoscale/Plan.antt =====
-- The decision of one cycle: `ScalePlan` and `build_plan` of cspawn/cs_docker/autoscale.py.
pub mod Laws
use code_server_spawner.Common.{
  ℕ, String, Bool, true, false, Option, List, [], ◌∷◌, map, if◌then◌else◌, Outcome, returns, ◌>>=◌,
}
use code_server_spawner.Common.Int.{ℤ, pos, ltb_ℤ}
use code_server_spawner.Common.Dict.{Dict}
use code_server_spawner.Common.Time.{Datetime}
use code_server_spawner.Config.{Config}
use code_server_spawner.Tiers.{Json}
use code_server_spawner.Autoscale.State.{NodeView, ClusterState}
use code_server_spawner.Autoscale.Demand.{compute_deficit}
use code_server_spawner.Autoscale.ScaleUp.{plan_scale_up}
use code_server_spawner.Autoscale.ScaleDown.{plan_scale_down}

-- The text of `ScalePlan.reason`, by the values that it shows.
pub data Reason : Type 0 where
  scale_up : ℤ → ℤ → ℤ → Reason
  scale_down : List String → Reason
  hold : Reason

-- `ScalePlan`
pub record ScalePlan : Type 0 where
  pub add_large : ℤ
  pub add_small : ℤ
  pub remove_nodes : List String
  pub purge_first : Bool
  pub reason : Reason

abbrev pub fqdns : List NodeView → List String
fqdns = map (λ n. n.fqdn)

-- The plan for the nodes that `plan_scale_down` has chosen.
abbrev pub down_or_hold : List NodeView → ScalePlan
down_or_hold [] = record {
  add_large = pos 0;
  add_small = pos 0;
  remove_nodes = [];
  purge_first = false;
  reason = hold;
}
down_or_hold (n ∷ ns) = record {
  add_large = pos 0;
  add_small = pos 0;
  remove_nodes = fqdns (n ∷ ns);
  purge_first = true;
  reason = scale_down (fqdns (n ∷ ns));
}

abbrev pub up : ℤ → ℤ × ℤ → ScalePlan
up deficit (add_large, add_small) = record {
  add_large = add_large;
  add_small = add_small;
  remove_nodes = [];
  purge_first = false;
  reason = scale_up deficit add_large add_small;
}

module _ (str : Json → String) (loads : String → Option Json) where
  -- `build_plan(state, demand, cfg, now, empty_since, protected_node_fqdns)`
  unfoldable pub build_plan :
      ClusterState → ℤ → Config → ℕ → Dict Datetime → List String → Outcome ScalePlan
  build_plan state demand cfg now empty_since protect =
      let deficit = compute_deficit state demand in
      if ltb_ℤ (pos 0) deficit
      then (plan_scale_up str loads deficit cfg >>= λ adds. returns (up deficit adds))
      else returns (down_or_hold (plan_scale_down state cfg now empty_since protect))
