-- ===== src/Hosts/Create/Tests.antt =====
-- Starts of concrete hosts.
use code_server_spawner.Common.{
  ℕ, suc, String, true, false, Option, none, some, List, [], ◌∷◌, ◌≡◌, refl, map, str_eq,
  if◌then◌else◌, returns, length,
}
use code_server_spawner.Common.Time.{aware}
use code_server_spawner.Hosts.{CodeHost}
use code_server_spawner.Hosts.Sync.{Service, Tables, to_model, class_of}
use code_server_spawner.Hosts.Create.{
  LiveService, started_as, created, conflict, Outside, Spawner, row_of_name, live_of_user, commit,
  after_run, new_cs,
}
use code_server_spawner.Hosts.Create.Laws.{HasServices, new_cs-HasServices}
use code_server_spawner.Hosts.Create.Names.{AreNamed}
use code_server_spawner.Hosts.Create.Again.{new_cs-again}

abbrev service : String → Service
service id = record {
  id = id;
  name = "ada";
  username = some "ada";
  class_label = none;
  start_time = some (aware 5);
  status = "new";
  node_name = none;
  node_missing = false;
  is_ready = false;
}

abbrev tables : Tables
tables = record {
  users = ("ada", 1) ∷ ("ada_1", 2) ∷ [];
  root = some 0;
  imported = aware 2;
  class_ids = [];
}

abbrev next_id : List CodeHost → ℕ
next_id rows = suc (length rows)

-- The service is placed on a node, but its pin fails.
abbrev starts : Outside
starts = record {
  prepare = returns tt;
  run = created (service "abc") ("node.role != manager" ∷ []);
  placement = returns (some "swarm3");
  pin_fails = true;
  slugify = λ name. name;
}

-- There is a service of the user already.
abbrev collides : Outside
collides = record starts { run = conflict }

abbrev nothing : Spawner
nothing = record { rows = []; live = [] }

abbrev orphan : Spawner
orphan = record { rows = []; live = record { service = service "old"; constraints = [] } ∷ [] }

-- The row names the node although the host is not pinned to it.
new_cs-unpinned :
    let (_, w) = new_cs tables next_id true starts "ada" nothing in
    (map (λ ch. CodeHost.node_name ch) w.rows ≡ some "swarm3" ∷ [])
    × (map (λ l. LiveService.constraints l) w.live ≡ ("node.role != manager" ∷ []) ∷ [])
unfolding new_cs after_run commit to_model class_of
new_cs-unpinned = (refl, refl)

-- A conflict leads to a row for the service that there is.
new_cs-collides :
    let (_, w) = new_cs tables next_id true collides "ada" orphan in
    (map (λ ch. CodeHost.service_id ch) w.rows ≡ "old" ∷ [])
    × (map (λ ch. CodeHost.node_name ch) w.rows ≡ none ∷ [])
unfolding new_cs after_run commit to_model class_of
new_cs-collides = (refl, refl)

new_cs-HasServices_example : HasServices (new_cs tables next_id true collides "ada" orphan).1.rows
new_cs-HasServices_example = new_cs-HasServices tables next_id true collides "ada" orphan tt

-- A name that is not its own slug.
abbrev slugs : String → String
slugs name = if str_eq name "ada_1" then "ada-1" else name

abbrev starts_slug : Outside
starts_slug = record starts { slugify = slugs }

abbrev collides_slug : Outside
collides_slug = record collides { slugify = slugs }

-- The row of the first start is not found by the second, which gives nothing although the service is
-- live.
new_cs-lost :
    let (_, w) = new_cs tables next_id false starts_slug "ada_1" nothing in
    (map (λ l. Service.name (LiveService.service l)) w.live ≡ "ada-1" ∷ [])
    × (new_cs tables next_id false collides_slug "ada_1" w ≡ (returns (none, none), w))
unfolding new_cs after_run commit to_model class_of
new_cs-lost = (refl, refl)

abbrev first_row : CodeHost
first_row = record {
  id = 1;
  user_id = 2;
  service_id = "abc";
  service_name = "ada-1";
  state = "new";
  app_state = some "unknown";
  class_id = none;
  node_name = some "swarm3";
  last_heartbeat = none;
  last_utilization = none;
  created_at = aware 5;
  updated_at = some (aware 2);
}

new_cs-again_example :
    let after = (new_cs tables next_id true starts_slug "ada_1" nothing).1 in
    let second = new_cs tables next_id false collides_slug "ada_1" after in
    (second.1.live ≡ after.live)
    × AreNamed slugs after.live
    × (slugs "ada_1" ≡ "ada_1"
        → (svc : Option Service) × (ch : CodeHost) × (second ≡ (returns (svc, some ch), after)))
    × (row_of_name "ada_1" after.rows ≡ none
        → live_of_user (slugs "ada_1") after.live ≡ none
        → second ≡ (returns (none, none), after))
unfolding new_cs after_run commit to_model class_of
new_cs-again_example =
    new_cs-again tables next_id true false starts_slug collides_slug "ada_1" nothing
      (some (started_as starts_slug "ada_1" (service "abc"))) first_row tt (λ e. absurd (cc e)) refl
      refl (λ _. refl) refl
