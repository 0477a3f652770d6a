-- ===== src/Hosts/Sync.antt =====
-- Bringing the rows in line with the services: `sync_to_db` and `to_model` of the services, and
-- `sync`, `unsettled_hosts` and `sync_converge` of the manager, in
-- cspawn/cs_docker/csmanager.py. What Docker and the web server of a host answer is an argument.
pub mod Marks
pub mod Covers
pub mod Converge
mod Tests
use Prim.Native.Nat.{suc}
use code_server_spawner.Common.{
  ℕ, zero, ◌+◌, ◌-◌, String, Bool, true, false, not, ◌&&◌, ◌||◌, Option, none, some, List, [], ◌∷◌,
  ◌++◌, map, keep, str_eq, ◌==◌, length, if◌then◌else◌,
}
use code_server_spawner.Common.Int.{ℤ, pos, negsuc}
use code_server_spawner.Common.Dict.{Dict, contains, lookup}
use code_server_spawner.Common.Text.{parse_int}
use code_server_spawner.Common.Time.{Datetime}
use code_server_spawner.Hosts.{CodeHost, is_mia, says}

-- A service as its wrapper shows it. `node_name` is the hostname of the node of its container, if a
-- container is found; `start_time` is nothing where the label is missing or no date.
pub record Service : Type 0 where
  pub id : String
  pub name : String
  pub username : Option String
  pub class_label : Option String
  pub start_time : Option Datetime
  pub status : String
  pub node_name : Option String
  pub node_missing : Bool
  pub is_ready : Bool

-- What the database answers: the users' ids by name, the id of the root user, and the class ids; and
-- the time at which the module of the tables was imported, the default of `updated_at`.
pub record Tables : Type 0 where
  pub users : Dict ℕ
  pub root : Option ℕ
  pub imported : Datetime
  pub class_ids : List ℕ

abbrev has_class : ℕ → List ℕ → Bool
has_class k [] = false
has_class k (c ∷ cs) = if c == k then true else has_class k cs

-- `class_id` of a label: none unless the label is a number, and the number of a class
unfoldable pub class_of : Tables → Option String → Option ℕ
unfolding parse_int
class_of tables none = none
class_of tables (some label) =
    if str_eq label "" || str_eq label "-1" then none else elim (parse_int label) [
      | none ↦ none
      | some (negsuc _) ↦ none
      | some (pos k) ↦ if has_class k tables.class_ids then some k else none
    ]

-- `User.query.filter_by(username=username).first()`, or else the root user
abbrev pub user_of : Tables → Option String → Option ℕ
user_of tables none = tables.root
user_of tables (some name) = elim (lookup name tables.users) [
  | none ↦ tables.root
  | some k ↦ some k
]

-- The attributes that `to_model` sets; `app_state` is nothing where it is not set. A row that is
-- inserted takes its `updated_at` from the default of the column.
pub record Model : Type 0 where
  pub user_id : ℕ
  pub service_id : String
  pub service_name : String
  pub class_id : Option ℕ
  pub state : String
  pub app_state : Option String
  pub node_name : Option String
  pub created_at : Datetime
  pub default_updated : Datetime

-- A service has no container, and the node of its task is gone.
abbrev pub is_lost : Service → Bool
is_lost s = elim s.node_name [ none ↦ s.node_missing | some _ ↦ false ]

-- `to_model()`; nothing where it raises, for want of a user or of a start time
unfoldable pub to_model : Tables → Service → Option Model
unfolding class_of
to_model tables s = elim (user_of tables s.username) [
  | none ↦ none
  | some user_id ↦ elim s.start_time [
    | none ↦ none
    | some created_at ↦ some (record {
      user_id = user_id;
      service_id = s.id;
      service_name = s.name;
      class_id = class_of tables s.class_label;
      state = if is_lost s then "mia" else s.status;
      app_state = if is_lost s then some "mia" else none;
      node_name = s.node_name;
      created_at = created_at;
      default_updated = tables.imported;
    })
  ]
]

-- `if check_ready: if self.is_ready: m.app_state = READY`
abbrev pub probe : Bool → Service → Model → Model
probe check_ready s m =
    if check_ready && s.is_ready then record m { app_state = some "ready" } else m

-- The attributes that are set, on the row that there is.
abbrev pub overwrite : Model → CodeHost → CodeHost
overwrite m ch = record ch {
  user_id = m.user_id;
  service_id = m.service_id;
  service_name = m.service_name;
  class_id = m.class_id;
  state = m.state;
  app_state = elim m.app_state [ none ↦ ch.app_state | some a ↦ some a ];
  node_name = m.node_name;
  created_at = m.created_at;
}

-- A new row with the defaults of the columns.
abbrev pub fresh_row : ℕ → Model → CodeHost
fresh_row id m = record {
  id = id;
  user_id = m.user_id;
  service_id = m.service_id;
  service_name = m.service_name;
  state = m.state;
  app_state = elim m.app_state [ none ↦ some "unknown" | some a ↦ some a ];
  class_id = m.class_id;
  node_name = m.node_name;
  last_heartbeat = none;
  last_utilization = none;
  created_at = m.created_at;
  updated_at = some m.default_updated;
}

-- The first row of the service is overwritten; without one, a row is added.
abbrev pub put_row : ℕ → Model → List CodeHost → List CodeHost
put_row id m [] = fresh_row id m ∷ []
put_row id m (ch ∷ rows) =
    if str_eq ch.service_id m.service_id then overwrite m ch ∷ rows else ch ∷ put_row id m rows

module _ (tables : Tables) (get : String → Option Service) (next_id : List CodeHost → ℕ)
    (check_ready : Bool) where
  -- `s = self.get(service_id); s.sync_to_db(check_ready=check_ready)`, whose exceptions are caught
  pub sync_one : String → List CodeHost → List CodeHost
  unfolding to_model
  sync_one service_id rows = elim (get service_id) [
    | none ↦ rows
    | some s ↦ elim (to_model tables s) [
      | none ↦ rows
      | some m ↦ put_row (next_id rows) (probe check_ready s m) rows
    ]
  ]

  pub sync_all : List String → List CodeHost → List CodeHost
  unfolding sync_one
  sync_all [] rows = rows
  sync_all (service_id ∷ ids) rows = sync_all ids (sync_one service_id rows)

-- The rows whose service is gone are marked.
abbrev pub mark_missing : List String → List CodeHost → List CodeHost
mark_missing in_swarm [] = []
mark_missing in_swarm (ch ∷ rows) =
    (if contains ch.service_id in_swarm
      then ch
      else record ch { state = "mia"; app_state = some "mia" })
    ∷ mark_missing in_swarm rows

-- `(state != 'running') | (app_state != 'ready')` in SQL, where a null is not different from a text
abbrev pub is_not_ready : CodeHost → Bool
is_not_ready ch =
    not (str_eq ch.state "running")
    || (elim ch.app_state [ none ↦ false | some a ↦ not (str_eq a "ready") ])

abbrev pub service_ids : List CodeHost → List String
service_ids = map (λ ch. ch.service_id)

-- The hosts that the second loop of `sync` goes to.
abbrev pub to_refresh : List CodeHost → List String
to_refresh rows = service_ids (keep (λ ch. is_not_ready ch && not (str_eq ch.state "mia")) rows)

-- `sync(check_ready=check_ready)`, with the ids of the listed services
unfoldable pub sync :
    Tables
    → (String → Option Service)
    → (List CodeHost → ℕ)
    → Bool
    → List String
    → List CodeHost
    → List CodeHost
unfolding sync_all
sync tables get next_id check_ready in_swarm rows =
    let marked = mark_missing in_swarm rows in
    let refreshed = sync_all tables get next_id check_ready (to_refresh marked) marked in
    sync_all tables get next_id check_ready
      (keep (λ k. not (contains k (service_ids rows))) in_swarm) refreshed

-- `unsettled_hosts()`
abbrev pub is_unsettled : CodeHost → Bool
is_unsettled ch = not (is_mia ch) && not (says ch.app_state "ready")

abbrev pub unsettled_hosts : List CodeHost → List CodeHost
unsettled_hosts = keep is_unsettled

-- The summary that `sync_converge` returns.
pub record Summary : Type 0 where
  pub passes : ℕ
  pub settled : ℕ
  pub unsettled : ℕ
  pub unsettled_names : List String

abbrev pub summary : ℕ → List CodeHost → List CodeHost → Summary
summary passes remaining rows = record {
  passes = passes;
  settled = length rows - length remaining;
  unsettled = length remaining;
  unsettled_names = map (λ ch. ch.service_name) remaining;
}

-- The loop of `sync_converge`: `left` passes may follow after `passes` of them. `pass n` is the n-th
-- call of `sync`, and `late n` says whether the deadline has passed after it.
module _ (pass : ℕ → List CodeHost → List CodeHost) (late : ℕ → Bool) where
  unfoldable pub converge : ℕ → ℕ → List CodeHost → List CodeHost → Summary × List CodeHost
  converge zero passes remaining rows = (summary passes remaining rows, rows)
  converge (suc left) passes remaining rows =
      let rows' = pass (suc passes) rows in
      let unsettled = unsettled_hosts rows' in
      let rest = converge left (suc passes) unsettled rows' in
      elim unsettled [
        | [] ↦ (summary (suc passes) [] rows', rows')
        | ch ∷ more ↦
            if late (suc passes) then (summary (suc passes) (ch ∷ more) rows', rows') else rest
      ]

  -- `sync_converge(max_passes=max_passes, ...)`
  unfoldable pub sync_converge : ℕ → List CodeHost → Summary × List CodeHost
  unfolding converge
  sync_converge max_passes rows = converge max_passes 0 [] rows
