-- ===== src/Hosts/Create.antt =====
-- Starting a host: `new_cs` with `_new_cs_inner` and `_get_by_username_raw` of
-- cspawn/cs_docker/csmanager.py, over the rows and the live services. What GitHub and Docker answer,
-- and the slugs of names, are arguments; so is whether new hosts are pinned to their nodes. The
-- semaphore around the calls of Docker and the user directories are left out.
pub mod Laws
pub mod Names
pub mod Again
mod Tests
use code_server_spawner.Common.{
  ℕ, String, Bool, true, false, Option, none, some, List, [], ◌∷◌, ◌++◌, str_eq, if◌then◌else◌,
  Outcome, raises, returns, outside,
}
use code_server_spawner.Hosts.{CodeHost}
use code_server_spawner.Hosts.Sync.{Service, Tables, Model, to_model, fresh_row}
use code_server_spawner.Nodes.Pins.{pinned}

-- A live service with its placement constraints.
pub record LiveService : Type 0 where
  pub service : Service
  pub constraints : List String

-- How `run` ends: with the new service, whose name and user are those asked for, and its constraints, with a conflict (409) or another `APIError`, or with an
-- exception of another kind.
pub data RunAnswer : Type 0 where
  created : Service → List String → RunAnswer
  conflict api_error : RunAnswer
  run_fails : String → RunAnswer

-- `placement` is what `_resolve_task_node_fqdn` gives, nothing where the time is out.
pub record Outside : Type 0 where
  pub prepare : Outcome (Unit {0})
  pub run : RunAnswer
  pub placement : Outcome (Option String)
  pub pin_fails : Bool
  pub slugify : String → String

pub record Spawner : Type 0 where
  pub rows : List CodeHost
  pub live : List LiveService

-- `CodeHost.query.filter_by(service_name=username).first()`
abbrev pub row_of_name : String → List CodeHost → Option CodeHost
row_of_name name [] = none
row_of_name name (ch ∷ rows) =
    if str_eq ch.service_name name then some ch else row_of_name name rows

-- `CodeHost.query.filter_by(service_id=ch.service_id).first()`
abbrev pub row_of_service : String → List CodeHost → Option CodeHost
row_of_service sid [] = none
row_of_service sid (ch ∷ rows) =
    if str_eq ch.service_id sid then some ch else row_of_service sid rows

-- `super().get(service_id)`
abbrev pub live_service : String → List LiveService → Option Service
live_service sid [] = none
live_service sid (l ∷ ls) = if str_eq l.service.id sid then some l.service else live_service sid ls

-- `_get_by_username_raw(username)`, with the slug of the name
abbrev pub live_of_user : String → List LiveService → Option Service
live_of_user slug [] = none
live_of_user slug (l ∷ ls) = elim l.service.username [
  | none ↦ live_of_user slug ls
  | some u ↦ if str_eq u slug then some l.service else live_of_user slug ls
]

-- The pin of a new service, best effort: the constraints, and the node for the row. The node is
-- known before the pin is tried.
abbrev pub pin_new : Bool → Outside → List String → List String × Option String
pin_new pins out given =
    if pins
    then (elim out.placement [
      | raises _ ↦ (given, none)
      | returns none ↦ (given, none)
      | returns (some fqdn) ↦
          (if out.pin_fails then (given, some fqdn) else (pinned fqdn given, some fqdn))
    ])
    else (given, none)

-- `s.to_model(no_container=True)`
abbrev pub model_of : Tables → Service → Option Model
model_of tables s = to_model tables (record s { node_name = none; node_missing = false })

-- The row that there is for the service takes these attributes.
abbrev pub reuse : Model → Option String → CodeHost → CodeHost
reuse m node_fqdn ch = record ch {
  service_name = m.service_name;
  user_id = m.user_id;
  class_id = m.class_id;
  state = m.state;
  node_name = node_fqdn;
}

abbrev pub reuse_row : Model → Option String → List CodeHost → List CodeHost
reuse_row m node_fqdn [] = []
reuse_row m node_fqdn (ch ∷ rows) =
    if str_eq ch.service_id m.service_id
    then reuse m node_fqdn ch ∷ rows
    else ch ∷ reuse_row m node_fqdn rows

-- The service that `define_cs_container` describes bears the slug of the user's name, and the name in
-- its label.
abbrev pub started_as : Outside → String → Service → Service
started_as out username s = record s { name = out.slugify username; username = some username }

-- What is returned: the service and its row, each of which may be missing.
abbrev pub Started : Type 0
Started = Outcome (Option Service × Option CodeHost)

module _ (tables : Tables) (next_id : List CodeHost → ℕ) where
  -- From "Committing model" on.
  unfoldable pub commit : Service → Option String → Spawner → Started × Spawner
  unfolding to_model
  commit s node_fqdn w = elim (model_of tables s) [
    | none ↦ (raises (outside "no user or no start time"), w)
    | some m ↦ elim (row_of_service m.service_id w.rows) [
      | some ch ↦ (
        returns (some s, some (reuse m node_fqdn ch)),
        record w { rows = reuse_row m node_fqdn w.rows },
      )
      | none ↦
          let ch = record (fresh_row (next_id w.rows) m) { node_name = node_fqdn } in
          (returns (some s, some ch), record w { rows = w.rows ++ ch ∷ [] })
    ]
  ]

  -- What follows the call of `run`.
  unfoldable pub after_run : Bool → Outside → String → Spawner → RunAnswer → Started × Spawner
  unfolding commit
  after_run pins out username w (created s given) =
      let (constraints, node_fqdn) = pin_new pins out given in
      let new = started_as out username s in
      commit new node_fqdn
        (record w { live = w.live ++ (record { service = new; constraints = constraints }) ∷ [] })
  after_run pins out username w conflict = elim (live_of_user (out.slugify username) w.live) [
    | none ↦ (returns (none, none), w)
    | some s ↦ commit s none w
  ]
  after_run pins out username w api_error = (returns (none, none), w)
  after_run pins out username w (run_fails text) = (raises (outside text), w)

  -- `new_cs(user, proto, class_)`, for the user of this name
  unfoldable pub new_cs : Bool → Outside → String → Spawner → Started × Spawner
  unfolding after_run
  new_cs pins out username w = elim out.prepare [
    | raises exc ↦ (raises exc, w)
    | returns _ ↦ elim (row_of_name username w.rows) [
      | some ch ↦ (returns (live_service ch.service_id w.live, some ch), w)
      | none ↦ after_run pins out username w out.run
    ]
  ]
