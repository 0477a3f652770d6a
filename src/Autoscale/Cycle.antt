-- ===== src/Autoscale/Cycle.antt =====
-- One cycle of the loop: `run_autoscale` of cspawn/cs_docker/autoscale.py, from the switches to the
-- record that is kept for the next cycle.
pub mod Protection
pub mod Inert
mod Tests
use code_server_spawner.Common.{
  ℕ, String, Bool, true, false, not, ◌&&◌, ◌||◌, Option, none, some, List, [], ◌∷◌, str_eq, ◌==◌,
  ltb, if◌then◌else◌, Outcome, returns, raises, outside, ◌>>=◌,
}
use code_server_spawner.Common.Int.{ℤ, pos, ◌+ℤ◌, ◌-ℤ◌, pos_part, minutes}
use code_server_spawner.Common.Dict.{Dict, get_or}
use code_server_spawner.Common.Time.{Datetime, aware, as_utc}
use code_server_spawner.Config.{Config, cfg_int, cfg_bool}
use code_server_spawner.Tiers.{Json}
use code_server_spawner.Hosts.Stop.{World, Faults}
use code_server_spawner.Autoscale.State.{NodeAttrs, assess_cluster}
use code_server_spawner.Autoscale.Demand.{ClassRow, HostRow, Floats, estimate_demand}
use code_server_spawner.Autoscale.Gather.{Snapshot, short_to_fqdn, gather_cluster_state}
use code_server_spawner.Autoscale.Plan.{ScalePlan, build_plan}
use code_server_spawner.Autoscale.Reaper.{apply_reaper_zones}
use code_server_spawner.Autoscale.Apply.{
  ApplyResult, no_result, Attempt, fails, gives, Infra, apply_plan,
}

-- `min(ts, now - timedelta(minutes=cooldown_min + 1))` for every entry. Instants before the epoch
-- stop at 0, and the entries have a zone, as the sidecar file is read.
abbrev pub backdate : ℕ → ℤ → Dict Datetime → Dict Datetime
backdate now cooldown_min [] = []
backdate now cooldown_min ((fqdn, ts) ∷ d) =
    let earlier = pos_part (pos now -ℤ minutes (cooldown_min +ℤ pos 1)) in
    (fqdn, if ltb earlier (as_utc ts) then aware earlier else ts) ∷ backdate now cooldown_min d

-- `now < purge_after`, for a class with that end of its window
abbrev pub is_protected : ℕ → ClassRow → Bool
is_protected now cr = elim cr.purge_after [ none ↦ false | some pa ↦ ltb now (as_utc pa) ]

-- `hr.get("class_id") in protected_class_ids`, for the ids of the protected classes
abbrev pub in_protected_class : ℕ → List ClassRow → Option ℕ → Bool
in_protected_class now [] class_id = false
in_protected_class now (cr ∷ rows) class_id =
    (is_protected now cr
      && (elim class_id [ none ↦ false | some c ↦ elim cr.id [ none ↦ false | some k ↦ c == k ] ]))
    || in_protected_class now rows class_id

-- `protected_node_fqdns`, as a list
abbrev pub protected_node_fqdns : ℕ → List ClassRow → Dict String → List HostRow → List String
protected_node_fqdns now class_rows names [] = []
protected_node_fqdns now class_rows names (hr ∷ rows) =
    let rest = protected_node_fqdns now class_rows names rows in
    elim hr.node_name [
      | none ↦ rest
      | some n ↦
          if in_protected_class now class_rows hr.class_id && not (str_eq (get_or n names "") "")
          then get_or n names "" ∷ rest
          else rest
    ]

-- The filter of the two options: `up_only` is None, True or False.
abbrev pub only : Option Bool → ScalePlan → ScalePlan
only none plan = plan
only (some true) plan = record plan { remove_nodes = []; purge_first = false }
only (some false) plan = record plan { add_large = pos 0; add_small = pos 0 }

-- The times at which a cycle reads the clock: for the snapshot, for its own `now`, and for the
-- demand.
pub record Clock : Type 0 where
  pub gathered : ℕ
  pub now : ℕ
  pub estimated : ℕ

module _ (str : Json → String) (loads : String → Option Json) (floats : Floats) (cfg : Config)
    (clock : Clock) (force : Bool) (up_only : Option Bool) where
  -- The plan of a cycle, filter included, from the snapshot alone.
  unfoldable pub decide : Snapshot → Outcome ScalePlan
  unfolding short_to_fqdn
  decide snap = do
    demand ← estimate_demand floats clock.estimated snap.class_rows snap.host_rows cfg
    plan ←
        build_plan str loads (assess_cluster snap.node_dicts snap.host_counts snap.pending cfg)
          demand cfg clock.now
          (if force
            then backdate clock.now (cfg_int cfg "AUTOSCALE_SCALEDOWN_COOLDOWN_MIN" (pos 30))
                snap.empty_since
            else snap.empty_since)
          (protected_node_fqdns clock.now snap.class_rows (short_to_fqdn [] snap.node_dicts)
            snap.host_rows)
    returns (only up_only plan)

-- What a cycle works on, over states `S`: the operations on the nodes, the tables, and the list of
-- the nodes.
pub record Site (S : Type 0) : Type 0 where
  pub infra : Infra S
  pub world : S → World
  pub set_world : World → S → S
  pub list_nodes : S → Attempt S (List NodeAttrs)
  pub students : ℕ → ℕ
  pub faults : Faults

-- The state, the contents of the sidecar file, and whether a process holds the lock.
pub record System (S : Type 0) : Type 0 where
  pub site : S
  pub sidecar : Dict Datetime
  pub locked : Bool

module _ {S : Type 0} (site : Site S) (str : Json → String) (loads : String → Option Json)
    (floats : Floats) (cfg : Config) (clock : Clock) (force : Bool) (up_only : Option Bool)
    (dry_run : Bool) where
  -- Step 4b.
  pub reap : List ClassRow → S → S
  unfolding apply_reaper_zones
  reap class_rows s =
      site.set_world (apply_reaper_zones site.faults dry_run clock.now class_rows (site.world s)).1
        s

  -- Steps 8 and 9: what an exception interrupts is not undone, and the sidecar is not written.
  pub carry_out :
      Snapshot → Dict Datetime → S → Outcome ScalePlan → Outcome ApplyResult × S × Dict Datetime
  unfolding apply_plan
  carry_out snap saved s (raises e) = (raises e, s, saved)
  carry_out snap saved s (returns plan) =
      elim (apply_plan site.infra str loads cfg dry_run plan s) [
        | raises e ↦ (raises e, s, saved)
        | returns (r, s') ↦ (returns r, s', snap.empty_since)
      ]

  -- Steps 4b to 9.
  pub act : Snapshot → Dict Datetime → S → Outcome ApplyResult × S × Dict Datetime
  unfolding reap carry_out decide
  act snap saved s =
      carry_out snap saved (reap snap.class_rows s)
        (decide str loads floats cfg clock force up_only snap)

  -- Steps 4 to 9.
  pub cycle : S → Dict Datetime → Outcome ApplyResult × S × Dict Datetime
  unfolding act gather_cluster_state
  cycle s saved = elim (site.infra.live_counts s) [
    | fails text s₁ ↦ (raises (outside text), s₁, saved)
    | gives counts s₁ ↦ elim (site.list_nodes s₁) [
      | fails text s₂ ↦ (raises (outside text), s₂, saved)
      | gives nodes s₂ ↦
          act
            (gather_cluster_state site.students nodes counts (site.world s₂).hosts
              (site.world s₂).classes clock.gathered saved)
            saved s₂
    ]
  ]

module _ {S : Type 0} (site : Site S) (str : Json → String) (loads : String → Option Json)
    (floats : Floats) (cfg : Config) (clock : Clock) (force : Bool) (up_only : Option Bool) where
  -- A cycle under the lock, which is free again afterwards.
  pub locked_cycle : Bool → System S → Outcome ApplyResult × System S
  unfolding cycle
  locked_cycle dry_run sys =
      let (result, s, saved) =
        cycle site str loads floats cfg clock force up_only dry_run sys.site sys.sidecar in
      (result, record { site = s; sidecar = saved; locked = false })

  -- `run_autoscale(ctx, dry_run=dry_run, force=force, up_only=up_only, ...)`
  unfoldable pub run_autoscale : Bool → System S → Outcome ApplyResult × System S
  unfolding locked_cycle
  run_autoscale dry_run sys =
      if cfg_bool cfg "AUTOSCALE_ENABLED" false || force
      then (if sys.locked
          then (returns no_result, sys)
          else locked_cycle (cfg_bool cfg "AUTOSCALE_DRY_RUN" true || dry_run) sys)
      else (returns no_result, sys)
