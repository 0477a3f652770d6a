-- ===== src/Classes/Start/Tests.antt =====
-- A start from a concrete class.
use code_server_spawner.Common.{
  ℕ, suc, ◌≤◌, true, false, none, some, List, [], ◌∷◌, ◌≡◌, refl, arith, map, returns, length,
}
use code_server_spawner.Common.Time.{aware}
use code_server_spawner.Hosts.{CodeHost}
use code_server_spawner.Hosts.Sync.{Tables, to_model, class_of}
use code_server_spawner.Hosts.Create.{created, Outside, Spawner, commit, after_run, new_cs}
use code_server_spawner.Classes.Start.{already_running, started, start_class}
use code_server_spawner.Classes.Start.Laws.{hosts_of, hosts_of-start_class}

abbrev tables : Tables
tables = record { users = ("ada", 1) ∷ []; root = some 0; imported = aware 2; class_ids = [] }

abbrev next_id : List CodeHost → ℕ
next_id rows = suc (length rows)

abbrev starts : Outside
starts = record {
  prepare = returns tt;
  run =
      created
        (record {
          id = "abc";
          name = "ada";
          username = some "ada";
          class_label = none;
          start_time = some (aware 5);
          status = "new";
          node_name = none;
          node_missing = false;
          is_ready = false;
        })
        [];
  placement = returns none;
  pin_fails = false;
  slugify = λ name. name;
}

abbrev nothing : Spawner
nothing = record { rows = []; live = [] }

-- The first start makes the host, for the class, and the second says that there is one.
start_class-twice :
    let (first, w) = start_class tables next_id true starts (some 4) 1 "ada" nothing in
    let (second, _) = start_class tables next_id true starts (some 5) 1 "ada" w in
    (first ≡ returns started)
    × (second ≡ returns already_running)
    × (map (λ ch. CodeHost.class_id ch) w.rows ≡ some 4 ∷ [])
unfolding start_class new_cs after_run commit to_model class_of
start_class-twice = (refl, refl, refl)

hosts_of-start_class_example :
    hosts_of 1 (start_class tables next_id true starts (some 4) 1 "ada" nothing).1.rows ≤ 1
hosts_of-start_class_example =
    hosts_of-start_class 1 tables next_id true starts (some 4) "ada" nothing (omega arith)
