-- ===== src/Classes/Start.antt =====
-- The start of a host from a class: the view `start_class` of cspawn/main/routes/classes.py, which
-- calls `new_cs` of the manager or `sync_to_db` of the service that there is. The messages to the
-- user and the redirects are left out, as are the assertions on the prototypes.
pub mod Laws
mod Tests
use code_server_spawner.Common.{
  ℕ, String, Bool, true, false, Option, none, some, List, [], ◌∷◌, ◌==◌, str_eq, if◌then◌else◌,
  Outcome, raises, returns, outside,
}
use code_server_spawner.Hosts.{CodeHost}
use code_server_spawner.Hosts.Sync.{Service, Tables, to_model, probe, put_row}
use code_server_spawner.Hosts.Create.{Outside, Spawner, live_of_user, Started, new_cs}

-- What the view says to the user.
pub data Reply : Type 0 where
  no_class already_running started not_started synced : Reply

-- `CodeHost.query.filter_by(user_id=current_user.id).first()`
abbrev pub row_of_user : ℕ → List CodeHost → Option CodeHost
row_of_user user_id [] = none
row_of_user user_id (ch ∷ rows) =
    if ch.user_id == user_id then some ch else row_of_user user_id rows

-- `ch.class_id = class_id`, on the row of the service
abbrev pub assign_class : ℕ → String → List CodeHost → List CodeHost
assign_class class_id sid [] = []
assign_class class_id sid (ch ∷ rows) =
    if str_eq ch.service_id sid
    then record ch { class_id = some class_id } ∷ rows
    else ch ∷ assign_class class_id sid rows

-- What follows the call of `new_cs`.
abbrev pub after_new : ℕ → Started × Spawner → Outcome Reply × Spawner
after_new class_id (raises exc, w) = (raises exc, w)
after_new class_id (returns (s, ch), w) =
    let reply : Reply = elim s [ none ↦ not_started | some _ ↦ started ] in
    elim ch [
      | none ↦ (returns reply, w)
      | some row ↦ elim row.class_id [
        | some _ ↦ (returns reply, w)
        | none ↦ (returns reply, record w { rows = assign_class class_id row.service_id w.rows })
      ]
    ]

module _ (tables : Tables) (next_id : List CodeHost → ℕ) where
  -- `s.sync_to_db(check_ready=True)`
  pub sync_to_db : Service → Spawner → Outcome Reply × Spawner
  unfolding to_model
  sync_to_db s w = elim (to_model tables s) [
    | none ↦ (raises (outside "no user or no start time"), w)
    | some m ↦
        (returns synced, record w { rows = put_row (next_id w.rows) (probe true s m) w.rows })
  ]

  -- `start_class(class_id)`, for the current user; the class may not be there
  unfoldable pub start_class :
      Bool → Outside → Option ℕ → ℕ → String → Spawner → Outcome Reply × Spawner
  unfolding new_cs sync_to_db
  start_class pins out none user_id username w = (returns no_class, w)
  start_class pins out (some class_id) user_id username w = elim (row_of_user user_id w.rows) [
    | some _ ↦ (returns already_running, w)
    | none ↦ elim (live_of_user (out.slugify username) w.live) [
      | none ↦ after_new class_id (new_cs tables next_id pins out username w)
      | some s ↦ sync_to_db s w
    ]
  ]
