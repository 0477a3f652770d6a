-- ===== src/Hosts/Stop.antt =====
-- Stopping a host: `StopResult` and `CodeServerManager.stop_host` of
-- cspawn/cs_docker/csmanager.py, over the rows, the live services and what Git, Docker and the
-- database answer.
pub mod Laws
pub mod Keys
use code_server_spawner.Common.{
  ℕ, String, Bool, true, false, not, Option, none, some, List, [], ◌∷◌, ◌++◌, ◌==◌, str_eq, keep,
  if◌then◌else◌,
}
use code_server_spawner.Common.Dict.{contains}
use code_server_spawner.Hosts.{CodeHost, is_mia}
use code_server_spawner.Classes.{Class}

-- The rows of the two tables, the ids of the live services, and the ids of the hosts whose work has
-- been pushed.
pub record World : Type 0 where
  pub hosts : List CodeHost
  pub classes : List Class
  pub services : List String
  pub pushed : List ℕ

-- What the systems outside answer: the error of a push, of the lookup of a service and of its
-- removal, and whether the commit of a row fails.
pub record Faults : Type 0 where
  pub push_error : CodeHost → Option String
  pub get_error : CodeHost → Option String
  pub stop_error : CodeHost → Option String
  pub delete_fails : CodeHost → Bool
  pub class_commit_fails : ℕ → Bool

-- `StopResult`
pub record StopResult : Type 0 where
  pub service_name : String
  pub pushed : Bool
  pub push_error : Option String
  pub stopped : Bool
  pub stop_error : Option String
  pub deleted : Bool
  pub skipped_push_mia : Bool

abbrev fresh : CodeHost → StopResult
fresh ch = record {
  service_name = ch.service_name;
  pushed = false;
  push_error = none;
  stopped = false;
  stop_error = none;
  deleted = false;
  skipped_push_mia = false;
}

module _ (faults : Faults) (ch : CodeHost) where
  -- Step 1: the push, skipped for a host that is missing in action.
  pub push_step : Bool → StopResult → World → StopResult × World
  push_step false r w = (r, w)
  push_step true r w =
      if is_mia ch then (record r { skipped_push_mia = true }, w) else elim (faults.push_error ch) [
        | some e ↦ (record r { push_error = some e }, w)
        | none ↦ (record r { pushed = true }, record w { pushed = ch.id ∷ w.pushed })
      ]

  -- Step 2: the service; one that is gone counts as stopped.
  pub stop_step : StopResult → World → StopResult × World
  stop_step r w = elim (faults.get_error ch) [
    | some e ↦ (record r { stop_error = some e }, w)
    | none ↦
        if contains ch.service_id w.services
        then elim (faults.stop_error ch) [
          | some e ↦ (record r { stop_error = some e }, w)
          | none ↦ (
            record r { stopped = true },
            record w { services = keep (λ s. not (str_eq s ch.service_id)) w.services },
          )
        ]
        else (record r { stopped = true }, w)
  ]

  -- Step 3: the row; a failed commit is rolled back.
  pub delete_step : StopResult → World → StopResult × World
  delete_step r w = if faults.delete_fails ch then (r, w) else (
    record r { deleted = true },
    record w { hosts = keep (λ h. not (h.id == ch.id)) w.hosts },
  )

  -- `stop_host(code_host, push=push)`
  unfoldable pub stop_host : Bool → World → StopResult × World
  unfolding push_step stop_step delete_step
  stop_host push w =
      let (r₁, w₁) = push_step push (fresh ch) w in
      let (r₂, w₂) = stop_step r₁ w₁ in delete_step r₂ w₂
