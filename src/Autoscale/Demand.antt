-- ===== src/Autoscale/Demand.antt =====
-- The demand signal: `estimate_demand` and `compute_deficit` of cspawn/cs_docker/autoscale.py.
-- The rows hold datetimes, as `gather_cluster_state` reads them from the database.
pub mod Laws
use code_server_spawner.Common.{
  ℕ, ◌+◌, String, Bool, true, false, not, ◌&&◌, Option, none, some, List, [], ◌∷◌, str_eq, leb, ltb,
  if◌then◌else◌, count_if, Outcome, returns, ◌>>=◌,
}
use code_server_spawner.Common.Int.{ℤ, pos, ◌+ℤ◌, ◌-ℤ◌, max_ℤ}
use code_server_spawner.Common.Dict.{lookup}
use code_server_spawner.Common.Time.{Datetime, as_utc}
use code_server_spawner.Config.{Config, cfg_int}
use code_server_spawner.Autoscale.State.{ClusterState, total_capacity}

-- A row of `class_rows`; `students` is the number of students.
pub record ClassRow : Type 0 where
  pub id : Option ℕ
  pub purge_after : Option Datetime
  pub purge_by : Option Datetime
  pub students : ℕ

-- A row of `host_rows`
pub record HostRow : Type 0 where
  pub is_mia : Bool
  pub is_purgeable : Bool
  pub app_state : Option String
  pub node_name : Option String
  pub class_id : Option ℕ

-- Python's floats, as far as the code computes with them.
pub record Floats : Type 1 where
  pub Float : Type 0
  -- `float(text)`, or nothing on a `ValueError`
  pub parse_float : String → Option Float
  -- the literal 0.8
  pub four_fifths : Float
  -- `ceil(n * x)`, which raises at an infinity and at a NaN
  pub ceil_mul : ℕ → Float → Outcome ℤ

-- `not h.get("is_mia") and not h.get("is_purgeable")`
abbrev pub is_live : HostRow → Bool
is_live h = not h.is_mia && not h.is_purgeable

abbrev pub is_ready : Option String → Bool
is_ready none = false
is_ready (some s) = str_eq s "ready"

-- `h.get("app_state") not in ("ready",) and not h.get("is_mia")`
abbrev pub is_pending : HostRow → Bool
is_pending h = not (is_ready h.app_state) && not h.is_mia

-- `purge_after <= now < purge_by`, and false where one of the two is missing
abbrev pub in_window : ℕ → ClassRow → Bool
in_window now c = elim c.purge_after [
  | none ↦ false
  | some after ↦ elim c.purge_by [
    | none ↦ false
    | some by ↦ leb (as_utc after) now && ltb now (as_utc by)
  ]
]

module _ (floats : Floats) where
  open floats use {Float, parse_float, four_fifths, ceil_mul}

  -- `_cfg_float(cfg, key, default)`
  cfg_float : Config → String → Float → Float
  cfg_float cfg key default = elim (lookup key cfg) [
    | none ↦ default
    | some raw ↦ elim (parse_float raw) [ none ↦ default | some x ↦ x ]
  ]

  -- The sum over the classes in their window.
  prescale_from : Float → ℕ → ℤ → List ClassRow → Outcome ℤ
  prescale_from fraction now acc [] = returns acc
  prescale_from fraction now acc (c ∷ cs) =
      let skip = prescale_from fraction now acc cs in
      let add = ceil_mul c.students fraction >>= λ k. prescale_from fraction now (acc +ℤ k) cs in
      if in_window now c then add else skip

  -- `estimate_demand(classes, hosts, cfg)`, at the time `now`
  unfoldable pub estimate_demand : ℕ → List ClassRow → List HostRow → Config → Outcome ℤ
  unfolding cfg_float prescale_from max_ℤ
  estimate_demand now classes hosts cfg = do
    prescale ←
        prescale_from (cfg_float cfg "AUTOSCALE_ROSTER_FRACTION" four_fifths) now (pos 0) classes
    returns (
        max_ℤ (pos (count_if is_live hosts + count_if is_pending hosts)) prescale
        +ℤ cfg_int cfg "AUTOSCALE_HEADROOM" (pos 2))

-- `compute_deficit(state, demand, cfg)`
unfoldable pub compute_deficit : ClusterState → ℤ → ℤ
unfolding max_ℤ
compute_deficit state demand = max_ℤ (pos 0) (demand -ℤ total_capacity state)
