-- ===== src/Hosts/Sync/Tests.antt =====
-- Synchronising a small table with three services.
use code_server_spawner.Common.{
  ℕ, ◌+◌, String, true, false, Option, none, some, List, [], ◌∷◌, ◌≡◌, refl, All, length, str_eq,
  if◌then◌else◌, arith,
}
use code_server_spawner.Common.Time.{aware}
use code_server_spawner.Hosts.{CodeHost}
use code_server_spawner.Hosts.Sync.{Service, Tables, sync, sync_converge}
use code_server_spawner.Hosts.Sync.Marks.{IsMarked, sync-IsMarked}
use code_server_spawner.Hosts.Sync.Converge.{IsTrue, sync_converge-IsTrue}

abbrev tables : Tables
tables = record { users = ("ann", 1) ∷ []; root = some 0; imported = aware 2; class_ids = 4 ∷ [] }

abbrev service : String → Service
service id = record {
  id = id;
  name = "ann";
  username = some "ann";
  class_label = some "4";
  start_time = some (aware 5);
  status = "running";
  node_name = some "n1.x";
  node_missing = false;
  is_ready = true;
}

-- The services `s1` and `s2` are found; `s3` cannot be reached.
abbrev find : String → Option Service
find k =
    if str_eq k "s1" then some (service k) else if str_eq k "s2" then some (service k) else none

find-id : (k : String) (s : Service) → find k ≡ some s → s.id ≡ k
find-id k s h = ground (arith, h)

abbrev row : ℕ → String → CodeHost
row id service_id = record {
  id = id;
  user_id = 1;
  service_id = service_id;
  service_name = "ann";
  state = "unknown";
  app_state = some "unknown";
  class_id = none;
  node_name = none;
  last_heartbeat = none;
  last_utilization = none;
  created_at = aware 0;
  updated_at = some (aware 2);
}

abbrev rows : List CodeHost
rows = row 1 "s1" ∷ row 2 "s9" ∷ row 3 "s3" ∷ []

abbrev listed : List String
listed = "s1" ∷ "s2" ∷ "s3" ∷ []

abbrev next_id : List CodeHost → ℕ
next_id rows = length rows + 1

-- `s1` is refreshed, `s9` is marked, `s3` stays as it was, and `s2` gets a row.
abbrev ready : ℕ → String → CodeHost
ready id service_id = record (row id service_id) {
  state = "running";
  app_state = some "ready";
  class_id = some 4;
  node_name = some "n1.x";
  created_at = aware 5;
}

sync-rows :
    sync tables find next_id true listed rows
    ≡ ready 1 "s1"
      ∷ record (row 2 "s9") { state = "mia"; app_state = some "mia" }
      ∷ row 3 "s3"
      ∷ ready 4 "s2"
      ∷ []
unfolding sync
sync-rows = refl

sync-IsMarked_example : All (IsMarked listed) (sync tables find next_id true listed rows)
sync-IsMarked_example = sync-IsMarked tables find next_id true find-id listed rows

abbrev pass : ℕ → List CodeHost → List CodeHost
pass n rows = sync tables find next_id true listed rows

sync_converge-IsTrue_example : IsTrue (λ n. false) 3 (sync_converge pass (λ n. false) 3 rows)
sync_converge-IsTrue_example = sync_converge-IsTrue pass (λ n. false) 2 rows

-- `s3` never settles, so all three passes are made.
sync_converge-rows :
    (sync_converge pass (λ n. false) 3 rows).0
    ≡ record { passes = 3; settled = 3; unsettled = 1; unsettled_names = "ann" ∷ [] }
unfolding sync_converge sync
sync_converge-rows = refl
