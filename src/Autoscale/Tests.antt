-- ===== src/Autoscale/Tests.antt =====
-- The decisions of the loop at a small cluster, and the theorems at inputs that meet their
-- hypotheses.
use code_server_spawner.Common.{
  ℕ, ◌+◌, ◌-◌, ◌*◌, ◌/◌, String, true, false, not, Option, none, some, List, [], ◌∷◌, ◌≡◌, ◌≢◌,
  refl, ◌⊎◌, arith, All, keep, length, returns,
}
use code_server_spawner.Common.Int.{ℤ, pos, ◌≤ℤ◌, ◌<ℤ◌, ◌+ℤ◌, ◌-ℤ◌, max_ℤ, min_ℤ}
use code_server_spawner.Common.Dict.{Dict}
use code_server_spawner.Common.Sort.Laws.{IsSorted}
use code_server_spawner.Common.Time.{Datetime, aware, naive}
use code_server_spawner.Config.{Config, cfg_int}
use code_server_spawner.Tiers.{Tier, Json, load_tiers}
use code_server_spawner.Hosts.{CodeHost}
use code_server_spawner.Hosts.Stop.{World, Faults, stop_host}
use code_server_spawner.Hosts.Stop.Keys.{HasKeys}
use code_server_spawner.Autoscale.State.{
  NodeAttrs, NodeView, ClusterState, total_capacity, excess_capacity, worker_count,
}
use code_server_spawner.Autoscale.Demand.{
  ClassRow, HostRow, Floats, estimate_demand, compute_deficit,
}
use code_server_spawner.Autoscale.ScaleUp.{clamp, pack, plan_scale_up}
use code_server_spawner.Autoscale.ScaleUp.Bounds.{Packs, Capped, plan_scale_up_covers}
use code_server_spawner.Autoscale.ScaleDown.{policy, candidates, select, plan_scale_down}
use code_server_spawner.Autoscale.ScaleDown.Safety.{
  IsIdleWorker, SerialAbove, MayGo, freed, plan_scale_down-IsIdleWorker, plan_scale_down-Within,
}
use code_server_spawner.Autoscale.Plan.{ScalePlan, scale_down, build_plan}
use code_server_spawner.Autoscale.Plan.Laws.{compute_deficit-cases}
use code_server_spawner.Autoscale.Reaper.{of_class, apply_reaper_zones}
use code_server_spawner.Autoscale.Reaper.Dormant.{apply_reaper_zones-takes}
use code_server_spawner.Autoscale.Reaper.Laws.{at_risk, apply_reaper_zones-spares}

abbrev str : Json → String
str _ = "?"

abbrev loads : String → Option Json
loads _ = none

-- One tier of capacity 6, and at most two additions.
abbrev cfg : Config
cfg = ("DEFAULT_CAPACITY", "6") ∷ []

abbrev tier : Tier
tier = record { name = "default"; slug = "s-1vcpu-1gb"; capacity = pos 6 }

load_tiers-cfg : load_tiers str loads cfg ≡ returns (tier ∷ [])
unfolding load_tiers
load_tiers-cfg = refl

abbrev worker : String → NodeAttrs
worker hostname = record {
  id = "x";
  hostname = hostname;
  role = "worker";
  availability = "active";
  leader = false;
  labels = [];
}

-- A manager and three empty workers, 18 slots.
abbrev cluster : ClusterState
cluster = record {
  nodes =
      record {
        short = "swarm1";
        fqdn = "swarm1.x";
        size_slug = none;
        capacity = pos 6;
        running_hosts = 0;
        is_manager = true;
        is_leader = true;
        serial = some 1;
      }
      ∷ empty_worker "swarm2" "swarm2.x" 2
      ∷ empty_worker "swarm3" "swarm3.x" 3
      ∷ empty_worker "swarm4" "swarm4.x" 4
      ∷ [];
  pending_hosts = 0;
}
  where
    empty_worker : String → String → ℕ → NodeView
    empty_worker short fqdn serial = record {
      short = short;
      fqdn = fqdn;
      size_slug = none;
      capacity = pos 6;
      running_hosts = 0;
      is_manager = false;
      is_leader = false;
      serial = some serial;
    }

-- All three have been empty since time 0; it is now 40 minutes later.
abbrev now : ℕ
now = 40 * 60_000_000

abbrev empty_since : Dict Datetime
empty_since = ("swarm2.x", aware 0) ∷ ("swarm3.x", aware 0) ∷ ("swarm4.x", naive 2_000_000_000) ∷ []

-- `swarm4.x` has not cooled down, so `swarm3.x` goes.
plan_scale_down-cluster :
    (plan_scale_down cluster cfg now empty_since [] ≢ [])
    × (build_plan str loads cluster (pos 14) cfg now empty_since []
        ≡ returns (record {
          add_large = pos 0;
          add_small = pos 0;
          remove_nodes = "swarm3.x" ∷ [];
          purge_first = true;
          reason = scale_down ("swarm3.x" ∷ []);
        }))
unfolding build_plan compute_deficit plan_scale_down policy candidates select cfg_int ◌+ℤ◌ ◌-ℤ◌
    max_ℤ
plan_scale_down-cluster = (cc, refl)

-- The removal reads the load and not the demand. For a demand of 14 the plan above takes a node out
-- of a cluster with 18 slots; at the 12 slots that are left the same demand asks for 2 more.
abbrev without_third : List NodeView → List NodeView
without_third (a ∷ b ∷ c ∷ rest) = a ∷ b ∷ rest
without_third rest = rest

removal_makes_deficit :
    compute_deficit (record cluster { nodes = without_third cluster.nodes }) (pos 14) ≡ pos 2
unfolding compute_deficit ◌+ℤ◌ ◌-ℤ◌ max_ℤ
removal_makes_deficit = refl

-- A remainder takes a small node, and the cap of one cycle leaves the large ones.
plan_scale_up-cfg :
    (plan_scale_up str loads (pos 9) cfg ≡ returns (pos 1, pos 1))
    × (plan_scale_up str loads (pos 40) cfg ≡ returns (pos 2, pos 0))
unfolding plan_scale_up pack clamp load_tiers cfg_int ◌+ℤ◌ ◌-ℤ◌ max_ℤ min_ℤ
plan_scale_up-cfg = (refl, refl)

plan_scale_up_covers_example :
    (wanted adds : ℤ × ℤ) × (plan_scale_up str loads (pos 9) cfg ≡ returns adds)
    × Packs 9 6 (pos 6) wanted
    × Capped (cfg_int cfg "AUTOSCALE_MAX_ADD_PER_CYCLE" (pos 2)) wanted adds
plan_scale_up_covers_example =
    plan_scale_up_covers str loads cfg 9 (tier ∷ []) tier tier load_tiers-cfg refl refl
      (omega arith) (omega arith)

plan_scale_down-IsIdleWorker_example :
    let removed = plan_scale_down cluster cfg now empty_since [] in
    All IsIdleWorker removed
    × All (MayGo (policy cfg) now empty_since []) removed
    × IsSorted SerialAbove removed
plan_scale_down-IsIdleWorker_example = plan_scale_down-IsIdleWorker cluster cfg now empty_since []

plan_scale_down-Within_example :
    let removed = plan_scale_down cluster cfg now empty_since [] in
    let p = policy cfg in
    (removed ≡ [])
    ⊎ ((pos (length removed) ≤ℤ p.max_remove)
        × (freed removed +ℤ p.headroom <ℤ excess_capacity cluster)
        × (p.min_workers ≤ℤ pos (worker_count cluster) -ℤ pos (length removed)))
plan_scale_down-Within_example = plan_scale_down-Within cluster cfg now empty_since []

compute_deficit-cases_example :
    ((pos 14 ≤ℤ total_capacity cluster) × (compute_deficit cluster (pos 14) ≡ pos 0))
    ⊎ ((total_capacity cluster <ℤ pos 14)
        × (compute_deficit cluster (pos 14) ≡ pos 14 -ℤ total_capacity cluster))
compute_deficit-cases_example = compute_deficit-cases cluster (pos 14)

abbrev removal : ScalePlan
removal = record {
  add_large = pos 0;
  add_small = pos 0;
  remove_nodes = "swarm3.x" ∷ [];
  purge_first = true;
  reason = scale_down ("swarm3.x" ∷ []);
}

-- Floats by their tenths.
abbrev tenths : Floats
tenths = record {
  Float = ℕ;
  parse_float = λ _. none;
  four_fifths = 8;
  ceil_mul = λ n x. returns (pos ((n * x + 9) / 10));
}

-- Ten students in their window, and ten before it.
abbrev class_rows : List ClassRow
class_rows =
    record { id = some 1; purge_after = some (aware 0); purge_by = some (aware 90); students = 10 }
    ∷ record {
      id = some 2;
      purge_after = some (aware 70);
      purge_by = some (aware 90);
      students = 10;
    }
    ∷ []

-- A host that is starting stands in the live load and in the pending count.
abbrev host_rows : List HostRow
host_rows =
    record {
      is_mia = false;
      is_purgeable = false;
      app_state = some "starting";
      node_name = none;
      class_id = some 1;
    }
    ∷ []

estimate_demand-rows : estimate_demand tenths 60 class_rows host_rows cfg ≡ returns (pos 10)
unfolding estimate_demand cfg_int ◌+ℤ◌
estimate_demand-rows = refl

-- Nothing fails.
abbrev sound : Faults
sound = record {
  push_error = λ _. none;
  get_error = λ _. none;
  stop_error = λ _. none;
  delete_fails = λ _. false;
  class_commit_fails = λ _. false;
}

abbrev host_of : ℕ → ℕ → ℕ → CodeHost
host_of id cls_id updated = record {
  id = id;
  user_id = id;
  service_id = "s";
  service_name = "s";
  state = "running";
  app_state = some "ready";
  class_id = some cls_id;
  node_name = none;
  last_heartbeat = none;
  last_utilization = none;
  created_at = aware 0;
  updated_at = some (aware updated);
}

-- At time `now` class 1 is in its window, class 2 before it and class 3 past it.
abbrev windows : List ClassRow
windows =
    record {
      id = some 1;
      purge_after = some (aware 0);
      purge_by = some (aware (now + 1));
      students = 0;
    }
    ∷ record { id = some 2; purge_after = some (aware (now + 1)); purge_by = none; students = 0 }
    ∷ record {
      id = some 3;
      purge_after = some (aware 0);
      purge_by = some (aware now);
      students = 0;
    }
    ∷ []

abbrev past : ClassRow
past = record {
  id = some 3;
  purge_after = some (aware 0);
  purge_by = some (aware now);
  students = 0;
}

abbrev world : World
world = record {
  hosts = host_of 1 1 0 ∷ host_of 2 1 (now - 60_000_000) ∷ host_of 3 2 0 ∷ host_of 4 3 now ∷ [];
  classes = [];
  services = [];
  pushed = [];
}

world-HasKeys : HasKeys world.hosts
world-HasKeys = omega arith

apply_reaper_zones-world :
    (apply_reaper_zones sound false now windows world).1.hosts
    ≡ host_of 2 1 (now - 60_000_000) ∷ host_of 3 2 0 ∷ []
unfolding apply_reaper_zones stop_host
apply_reaper_zones-world = refl

apply_reaper_zones-spares_example :
    let w' = (apply_reaper_zones sound false now windows world).1 in
    (keep (λ h. not (at_risk now windows h)) w'.hosts
      ≡ keep (λ h. not (at_risk now windows h)) world.hosts)
    × HasKeys w'.hosts
apply_reaper_zones-spares_example =
    apply_reaper_zones-spares sound false now windows world world-HasKeys

-- Host 4 is of class 3, whose window is over.
apply_reaper_zones-takes_example :
    All (λ h. of_class 3 h ≡ false) (apply_reaper_zones sound false now (past ∷ []) world).1.hosts
apply_reaper_zones-takes_example =
    apply_reaper_zones-takes sound now [] [] past 3 (aware 0) (aware now) world (λ h. refl) refl
      refl refl refl refl
