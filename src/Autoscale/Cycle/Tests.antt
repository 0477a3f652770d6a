-- ===== src/Autoscale/Cycle/Tests.antt =====
-- A cycle over a small swarm whose states are the numbers of hosts on its nodes.
use code_server_spawner.Common.{
  ℕ, ◌+◌, ◌*◌, ◌/◌, String, true, false, Option, none, some, List, [], ◌∷◌, ◌≡◌, refl, arith,
  eq_iff, returns, if◌then◌else◌,
}
use code_server_spawner.Common.Int.{pos, ◌+ℤ◌, ◌-ℤ◌}
use code_server_spawner.Common.Dict.{Dict, contains, lookup, insert, get_or, lookup-insert}
use code_server_spawner.Common.Text.{before_dot, has_dot}
use code_server_spawner.Common.Time.{aware}
use code_server_spawner.Config.{Config, cfg_int, cfg_bool}
use code_server_spawner.Tiers.{Json, load_tiers}
use code_server_spawner.Hosts.Stop.{Faults}
use code_server_spawner.Autoscale.State.{NodeAttrs, assess_cluster}
use code_server_spawner.Autoscale.Demand.{
  ClassRow, HostRow, Floats, estimate_demand, compute_deficit,
}
use code_server_spawner.Autoscale.Gather.{Snapshot, short_to_fqdn, update_empty_since}
use code_server_spawner.Autoscale.Gather.Nodes.{is_listed}
use code_server_spawner.Autoscale.Gather.Laws.{since, lookup-update_empty_since}
use code_server_spawner.Autoscale.ScaleDown.{plan_scale_down, select, candidates, policy}
use code_server_spawner.Autoscale.Plan.{ScalePlan, scale_down, hold, build_plan}
use code_server_spawner.Autoscale.Apply.{ApplyResult, gives, Infra, has_hosts, apply_plan}
use code_server_spawner.Autoscale.Apply.Laws.{Keeps, apply_plan-keeps}
use code_server_spawner.Autoscale.Cycle.{
  Clock, decide, Site, System, protected_node_fqdns, run_autoscale,
}
use code_server_spawner.Autoscale.Cycle.Protection.{decide-spares, protected_node_fqdns-nil}
use code_server_spawner.Autoscale.Cycle.Inert.{run_autoscale-inert}

abbrev str : Json → String
str _ = "?"

abbrev loads : String → Option Json
loads _ = none

abbrev cfg : Config
cfg = ("DEFAULT_CAPACITY", "6") ∷ ("AUTOSCALE_ENABLED", "true") ∷ []

abbrev tenths : Floats
tenths = record {
  Float = ℕ;
  parse_float = λ _. none;
  four_fifths = 8;
  ceil_mul = λ n x. returns (pos ((n * x + 9) / 10));
}

-- A removed node stays in the list, with no host.
abbrev infra : Infra (Dict ℕ)
infra = record {
  join_node = λ tier s. gives "n9.x" (("n9", 0) ∷ s);
  drain_node = λ fqdn s. s;
  verify_node = λ fqdn s. gives [] s;
  activate_node = λ fqdn s. gives tt s;
  sync_hosts = λ s. (true, s);
  live_counts = λ s. gives s s;
  remove_node = λ fqdn s. gives tt (insert (before_dot fqdn) 0 s);
}

abbrev swarm : Dict ℕ
swarm = ("n1", 3) ∷ ("n2", 0) ∷ []

abbrev HasHosts : Dict ℕ → Type 0
HasHosts s = get_or "n1" s 0 ≡ 3

removal_kept : (k : String) (s : Dict ℕ) → HasHosts s → get_or k s 0 ≡ 0 → HasHosts (insert k 0 s)
removal_kept k s h e = ground (arith, lookup-insert k "n1" 0 s, eq_iff k "n1")

abbrev plan : ScalePlan
plan = record {
  add_large = pos 1;
  add_small = pos 0;
  remove_nodes = "n1.x" ∷ "n2.x" ∷ [];
  purge_first = true;
  reason = hold;
}

infra-Keeps : Keeps infra plan.remove_nodes HasHosts
infra-Keeps = record {
  by_join = λ tier s h. h;
  by_drain = λ fqdn s h. h;
  by_verify = λ fqdn s h. h;
  by_activate = λ fqdn s h. h;
  by_sync = λ s h. h;
  by_failed_count = λ s s' text e h. absurd (cc e);
  by_removal = λ fqdn s s' counts asked e h. (
    λ idle. removal_kept (before_dot fqdn) s' (ground (arith, e, h)) (ground (arith, e, idle)),
    ground (arith, e, h),
  );
}

abbrev report : ApplyResult
report = record {
  added = pos 1;
  removed = 1;
  purged = true;
  dry_run = false;
  errors = has_hosts "n1.x" "skipped" ∷ [];
  would_remove = [];
}

apply_plan-swarm :
    apply_plan infra str loads cfg false plan swarm ≡ returns (report, ("n9", 0) ∷ swarm)
unfolding apply_plan ◌+ℤ◌ load_tiers before_dot
apply_plan-swarm = refl

apply_plan-keeps_example : HasHosts (("n9", 0) ∷ swarm)
apply_plan-keeps_example =
    apply_plan-keeps infra str loads cfg false plan HasHosts swarm (("n9", 0) ∷ swarm) report
      infra-Keeps refl apply_plan-swarm

abbrev node : String → NodeAttrs
node hostname = record {
  id = "i";
  hostname = hostname;
  role = "worker";
  availability = "active";
  leader = false;
  labels = [];
}

abbrev nodes : List NodeAttrs
nodes = node "n1.x" ∷ node "n2.x" ∷ []

lookup-update_empty_since_example :
    lookup "n2.x" (update_empty_since nodes swarm 9 (("n1.x", aware 4) ∷ []))
    ≡ (if is_listed "n2.x" nodes then since 9 (get_or (before_dot "n2.x") swarm 0) none else none)
lookup-update_empty_since_example =
    lookup-update_empty_since nodes swarm 9 (("n1.x", aware 4) ∷ []) "n2.x"

update_empty_since-swarm :
    update_empty_since nodes swarm 9 (("n1.x", aware 4) ∷ []) ≡ ("n2.x", aware 9) ∷ []
unfolding update_empty_since
update_empty_since-swarm = refl

-- A class that is protected until later, and a host of it that starts on the node `n2`.
abbrev protected_class : ClassRow
protected_class = record {
  id = some 1;
  purge_after = some (aware 200_000_000_000);
  purge_by = some (aware 300_000_000_000);
  students = 0;
}

abbrev starting : Option String → HostRow
starting node_name = record {
  is_mia = false;
  is_purgeable = false;
  app_state = some "starting";
  node_name = node_name;
  class_id = some 1;
}

abbrev snapshot : HostRow → Snapshot
snapshot hr = record {
  node_dicts = nodes;
  host_counts = [];
  pending = 1;
  class_rows = protected_class ∷ [];
  host_rows = hr ∷ [];
  empty_since = ("n1.x", aware 99_999_999_999) ∷ ("n2.x", aware 99_999_999_999) ∷ [];
}

abbrev clock : Clock
clock = record { gathered = 100_000_000_000; now = 100_000_000_000; estimated = 100_000_000_000 }

abbrev removes : String → ScalePlan
removes fqdn = record {
  add_large = pos 0;
  add_small = pos 0;
  remove_nodes = fqdn ∷ [];
  purge_first = true;
  reason = scale_down (fqdn ∷ []);
}

decide-snapshot :
    decide str loads tenths cfg clock true none (snapshot (starting (some "n2")))
    ≡ returns (removes "n1.x")
unfolding decide estimate_demand build_plan compute_deficit ◌-ℤ◌ ◌+ℤ◌ cfg_int assess_cluster
    plan_scale_down select candidates policy short_to_fqdn
decide-snapshot = refl

decide-spares_example : contains "n2.x" ("n1.x" ∷ []) ≡ false
unfolding short_to_fqdn
decide-spares_example =
    decide-spares str loads tenths cfg clock true none (snapshot (starting (some "n2")))
      (removes "n1.x") [] [] (starting (some "n2")) "n2" "n2.x" decide-snapshot refl refl refl refl
      refl

-- The same host by the name that Docker reports: its node is no longer protected, and goes.
decide-full_name :
    decide str loads tenths cfg clock true none (snapshot (starting (some "n2.x")))
    ≡ returns (removes "n2.x")
unfolding decide estimate_demand build_plan compute_deficit ◌-ℤ◌ ◌+ℤ◌ cfg_int assess_cluster
    plan_scale_down select candidates policy short_to_fqdn
decide-full_name = refl

protected_node_fqdns-nil_example :
    protected_node_fqdns 100_000_000_000
      (protected_class ∷ [])
      (short_to_fqdn [] nodes)
      (starting (some "n2.x") ∷ [])
    ≡ []
unfolding has_dot
protected_node_fqdns-nil_example =
    protected_node_fqdns-nil 100_000_000_000 (protected_class ∷ []) nodes
      (starting (some "n2.x") ∷ []) (refl, tt)

abbrev no_faults : Faults
no_faults = record {
  push_error = λ _. none;
  get_error = λ _. none;
  stop_error = λ _. none;
  delete_fails = λ _. false;
  class_commit_fails = λ _. false;
}

abbrev site : Site (Dict ℕ)
site = record {
  infra = infra;
  world = λ s. record { hosts = []; classes = []; services = []; pushed = [] };
  set_world = λ w s. s;
  list_nodes = λ s. gives nodes s;
  students = λ cls_id. 0;
  faults = no_faults;
}

abbrev system : System (Dict ℕ)
system = record { site = swarm; sidecar = []; locked = false }

-- With a dry run as the default of the configuration.
run_autoscale-inert_example :
    HasHosts (run_autoscale site str loads tenths cfg clock true none false system).1.site
unfolding cfg_bool
run_autoscale-inert_example =
    run_autoscale-inert site str loads tenths cfg clock true none HasHosts (λ s h. h) (λ s h. h)
      (λ s. refl) false system refl refl
