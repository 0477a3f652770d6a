-- ===== src/Users/Teardown.antt =====
-- The full deletion of a user: cspawn/admin/teardown.py, with `GithubOrg.remove` of
-- cspawn/cs_github/repo.py. What GitHub, Git, Docker and the database answer, and how an f-string
-- shows a number, are arguments.
pub mod Stops
pub mod Repos
pub mod Laws
mod Tests
use Prim.Native.String.{◌++◌ as append}
use code_server_spawner.Common.{
  ℕ, String, Bool, true, false, not, ◌||◌, Option, none, some, List, [], ◌∷◌, ◌++◌, ◌==◌, str_eq,
  keep, if◌then◌else◌, Outcome, raises, returns, outside,
}
use code_server_spawner.Common.Text.{ends_with, has_part}
use code_server_spawner.Hosts.{CodeHost}
use code_server_spawner.Hosts.Stop.{World, Faults, StopResult, stop_host}
use code_server_spawner.Users.{User}

-- The entries of `TeardownReport.failures`.
pub data Failure : Type 0 where
  stop_server : String → String → Failure
  delete_host_record : String → Failure
  github_org_init list_repos : String → Failure
  delete_repo : String → String → Failure
  delete_user_record : String → Failure

-- `TeardownReport`
pub record TeardownReport : Type 0 where
  pub username : String
  pub servers_stopped : List String
  pub repos_deleted : List String
  pub failures : List Failure
  pub user_deleted : Bool

-- `TeardownReport.ok`
abbrev pub ok : TeardownReport → Bool
ok r = elim r.failures [ [] ↦ true | _ ∷ _ ↦ false ]

-- The rows and services, the users, and the names of the organisation's repositories.
pub record Estate : Type 0 where
  pub world : World
  pub users : List ℕ
  pub repos : List String

-- The exceptions, if any, of the connection to the organisation, of the listing of its repositories
-- and of the deletion of each, and that of the commit which deletes a user.
pub record Replies : Type 0 where
  pub org : String
  pub init_error : Option String
  pub list_error : Option String
  pub repo_error : String → Option String
  pub user_error : ℕ → Option String

-- `x or fallback`
abbrev or_else : String → String → String
or_else s fallback = if str_eq s "" then fallback else s

abbrev text_or : Option String → String → String
text_or none fallback = fallback
text_or (some s) fallback = or_else s fallback

-- `e` as a condition
abbrev pub is_truthy : Option String → Bool
is_truthy none = false
is_truthy (some s) = not (str_eq s "")

abbrev pub fail : Failure → TeardownReport → TeardownReport
fail failure r = record r { failures = r.failures ++ failure ∷ [] }

-- `f"-{user.username}"`
abbrev pub suffix_of : User → String
suffix_of user = elim user.username [ none ↦ "-None" | some s ↦ append "-" s ]

module _ (faults : Faults) (answers : Replies) (show : ℕ → String) where
  -- `ch.service_name or ch.service_id or f"host:{ch.id}"`
  abbrev pub name_of : CodeHost → String
  name_of ch = or_else ch.service_name (or_else ch.service_id (append "host:" (show ch.id)))

  -- The report on the stop of a host.
  abbrev pub note_errors : String → StopResult → TeardownReport → TeardownReport
  note_errors name result r =
      if is_truthy result.push_error || is_truthy result.stop_error
      then fail (stop_server name (text_or result.push_error (text_or result.stop_error ""))) r
      else r

  abbrev pub note_record : String → StopResult → TeardownReport → TeardownReport
  note_record name result r =
      if result.deleted
      then record r { servers_stopped = r.servers_stopped ++ name ∷ [] }
      else fail (delete_host_record name) r

  pub stop_hosts : List CodeHost → TeardownReport → World → TeardownReport × World
  stop_hosts [] r w = (r, w)
  stop_hosts (ch ∷ chs) r w =
      let (result, w') = stop_host faults ch true w in
      stop_hosts chs (note_record (name_of ch) result (note_errors (name_of ch) result r)) w'

  -- `_stop_user_servers(app, user, report)`
  abbrev pub stop_user_servers : User → TeardownReport → World → TeardownReport × World
  stop_user_servers user r w = stop_hosts (keep (λ h. h.user_id == user.id) w.hosts) r w

  -- `org.remove(full)` of a repository of the organisation, by its name
  abbrev pub remove_repo : String → List String → Outcome Bool × List String
  remove_repo name repos = elim (answers.repo_error name) [
    | none ↦ (returns true, keep (λ r. not (str_eq r name)) repos)
    | some text ↦
        if has_part "Not Found" text
        then (returns false, repos)
        else (raises (outside (append "Delete failed: " text)), repos)
  ]

  abbrev full_name : String → String
  full_name name = append answers.org (append "/" name)

  -- What a `RuntimeError` says.
  abbrev pub note_repo : String → Outcome Bool → TeardownReport → TeardownReport
  note_repo name (returns true) r = record r {
    repos_deleted = r.repos_deleted ++ full_name name ∷ [];
  }
  note_repo name (returns false) r = r
  note_repo name (raises (outside text)) r = fail (delete_repo (full_name name) text) r
  note_repo name (raises _) r = fail (delete_repo (full_name name) "") r

  pub delete_repos : List String → TeardownReport → List String → TeardownReport × List String
  delete_repos [] r repos = (r, repos)
  delete_repos (name ∷ names) r repos =
      let (answer, repos') = remove_repo name repos in
      delete_repos names (note_repo name answer r) repos'

  -- `_delete_user_repos(app, user, report)`
  pub delete_user_repos : User → TeardownReport → List String → TeardownReport × List String
  unfolding delete_repos ends_with
  delete_user_repos user r repos = elim answers.init_error [
    | some text ↦ (fail (github_org_init text) r, repos)
    | none ↦ elim answers.list_error [
      | some text ↦ (fail (list_repos text) r, repos)
      | none ↦ delete_repos (keep (ends_with (suffix_of user)) repos) r repos
    ]
  ]

  -- The deletion of the row of the user.
  abbrev pub delete_user : User → TeardownReport → List ℕ → TeardownReport × List ℕ
  delete_user user r users = elim (answers.user_error user.id) [
    | some text ↦ (fail (delete_user_record text) r, users)
    | none ↦ (record r { user_deleted = true }, keep (λ u. not (u == user.id)) users)
  ]

  abbrev pub new_report : User → TeardownReport
  new_report user = record {
    username = text_or user.username (append "id:" (show user.id));
    servers_stopped = [];
    repos_deleted = [];
    failures = [];
    user_deleted = false;
  }

  -- `teardown_user(app, user, force)`
  unfoldable pub teardown_user : User → Bool → Estate → TeardownReport × Estate
  unfolding stop_hosts delete_user_repos
  teardown_user user force s =
      let (r₁, w) = stop_user_servers user (new_report user) s.world in
      let (r₂, repos) = delete_user_repos user r₁ s.repos in
      let (r₃, users) = delete_user user r₂ s.users in
      if ok r₂ || force
      then (r₃, record { world = w; users = users; repos = repos })
      else (r₂, record { world = w; users = s.users; repos = repos })
