-- ===== src/Hosts/Tests.antt =====
-- The health flags and a stop at concrete inputs.
use code_server_spawner.Common.{
  String, true, false, none, some, [], ◌∷◌, ◌≡◌, refl, ◌⊎◌, if◌then◌else◌,
}
use code_server_spawner.Common.Dict.{contains}
use code_server_spawner.Common.Int.{pos, negsuc, ◌+ℤ◌}
use code_server_spawner.Common.Time.{aware}
use code_server_spawner.Hosts.{CodeHost, to_minutes}
use code_server_spawner.Hosts.Stop.{World, Faults, stop_host}
use code_server_spawner.Hosts.Stop.Laws.{others, stop_host-deletes, stop_host-stops}

-- 2.5 minutes round to 2, 3.5 to 4, and -0.5 to 0.
to_minutes-ties :
    (to_minutes (pos 150_000_000) ≡ pos 2)
    × (to_minutes (pos 210_000_000) ≡ pos 4)
    × (to_minutes (negsuc 29_999_999) ≡ pos 0)
unfolding ◌+ℤ◌
to_minutes-ties = (refl, refl, refl)

abbrev host : CodeHost
host = record {
  id = 7;
  user_id = 1;
  service_id = "abc";
  service_name = "cs-abc";
  state = "running";
  app_state = some "ready";
  class_id = none;
  node_name = none;
  last_heartbeat = none;
  last_utilization = none;
  created_at = aware 0;
  updated_at = none;
}

abbrev world : World
world = record { hosts = host ∷ []; classes = []; services = "abc" ∷ "def" ∷ []; pushed = [] }

-- The push fails, and nothing else does.
abbrev no_push : Faults
no_push = record {
  push_error = λ _. some "timeout";
  get_error = λ _. none;
  stop_error = λ _. none;
  delete_fails = λ _. false;
  class_commit_fails = λ _. false;
}

stop_host-world :
    (stop_host no_push host true world).1
    ≡ record { hosts = []; classes = []; services = "def" ∷ []; pushed = [] }
unfolding stop_host
stop_host-world = refl

stop_host-deletes_example :
    ((stop_host no_push host true world).0.deleted ≡ true)
    × ((stop_host no_push host true world).1.hosts ≡ (
        if (stop_host no_push host true world).0.deleted
        then others host (host ∷ [])
        else (host ∷ [])))
    × ((stop_host no_push host true world).1.classes ≡ [])
stop_host-deletes_example = stop_host-deletes no_push host true world

stop_host-stops_example :
    let (r, w') = stop_host no_push host true world in
    ((r.stopped ≡ true) × (r.stop_error ≡ none) × (contains host.service_id w'.services ≡ false))
    ⊎ ((r.stopped ≡ false)
        × ((e : String) × (r.stop_error ≡ some e))
        × (w'.services ≡ world.services))
stop_host-stops_example = stop_host-stops no_push host true world
