-- ===== src/Users/Teardown/Tests.antt =====
-- Full deletions of concrete users.
use code_server_spawner.Common.{
  ℕ, String, true, false, none, some, [], ◌∷◌, ◌≡◌, refl, ◌==◌, str_eq, if◌then◌else◌,
}
use code_server_spawner.Common.Dict.{contains}
use code_server_spawner.Common.Text.{ends_with, has_part, drop_prefix}
use code_server_spawner.Common.Time.{aware}
use code_server_spawner.Hosts.{CodeHost}
use code_server_spawner.Hosts.Stop.{Faults, stop_host}
use code_server_spawner.Users.{User}
use code_server_spawner.Users.Teardown.{
  Failure, Estate, Replies, teardown_user, delete_user_repos, stop_hosts, delete_repos,
}
use code_server_spawner.Users.Teardown.Laws.{IsClean, teardown_user-IsClean}

abbrev host_of : ℕ → String → CodeHost
host_of id sid = record {
  id = id;
  user_id = if id == 9 then 2 else 1;
  service_id = sid;
  service_name = "";
  state = "running";
  app_state = some "ready";
  class_id = none;
  node_name = none;
  last_heartbeat = none;
  last_utilization = none;
  created_at = aware 0;
  updated_at = none;
}

-- Two hosts of the user 1 and one of the user 2.
abbrev site : Estate
site = record {
  world = record {
    hosts = host_of 7 "abc" ∷ host_of 8 "def" ∷ host_of 9 "ghi" ∷ [];
    classes = [];
    services = "abc" ∷ "def" ∷ "ghi" ∷ [];
    pushed = [];
  };
  users = 1 ∷ 2 ∷ [];
  repos = "py-ada" ∷ "py-bob" ∷ "js-ada" ∷ [];
}

abbrev ada : User
ada = record { id = 1; username = some "ada" }

-- The stop of the service with this id fails with this text.
abbrev failing : String → String → Faults
failing sid text = record {
  push_error = λ _. none;
  get_error = λ _. none;
  stop_error = λ ch. if str_eq ch.service_id sid then some text else none;
  delete_fails = λ _. false;
  class_commit_fails = λ _. false;
}

abbrev no_faults : Faults
no_faults = record {
  push_error = λ _. none;
  get_error = λ _. none;
  stop_error = λ _. none;
  delete_fails = λ _. false;
  class_commit_fails = λ _. false;
}

-- GitHub has lost the second repository of the user.
abbrev answers : Replies
answers = record {
  org = "org";
  init_error = none;
  list_error = none;
  repo_error = λ name. if str_eq name "js-ada" then some "404 Not Found" else none;
  user_error = λ _. none;
}

abbrev show : ℕ → String
show _ = "n"

after-clean :
    let (r, s) = teardown_user no_faults answers show ada false site in
    (r.user_deleted ≡ true)
    × (r.servers_stopped ≡ "abc" ∷ "def" ∷ [])
    × (r.repos_deleted ≡ "org/py-ada" ∷ [])
    × (s.users ≡ 2 ∷ [])
    × (s.repos ≡ "py-bob" ∷ "js-ada" ∷ [])
    × (s.world.services ≡ "ghi" ∷ [])
unfolding teardown_user stop_hosts stop_host delete_user_repos delete_repos ends_with has_part
    drop_prefix
after-clean = (refl, refl, refl, refl, refl, refl)

-- A stop that fails keeps the user.
after-failure :
    let (r, s) = teardown_user (failing "def" "timeout") answers show ada false site in
    (r.user_deleted ≡ false)
    × (r.failures ≡ Failure.stop_server "def" "timeout" ∷ [])
    × (s.users ≡ 1 ∷ 2 ∷ [])
unfolding teardown_user stop_hosts stop_host delete_user_repos delete_repos ends_with has_part
    drop_prefix
after-failure = (refl, refl, refl)

-- A stop that fails by an exception without a text is taken for one that went through: the user is
-- deleted while the service is live.
after-textless_failure :
    let (r, s) = teardown_user (failing "def" "") answers show ada false site in
    (r.user_deleted ≡ true) × (r.failures ≡ []) × (contains "def" s.world.services ≡ true)
unfolding teardown_user stop_hosts stop_host delete_user_repos delete_repos ends_with has_part
    drop_prefix
after-textless_failure = (refl, refl, refl)

teardown_user-IsClean_example :
    IsClean no_faults answers show ada site (teardown_user no_faults answers show ada false site).1
unfolding teardown_user stop_hosts stop_host delete_user_repos delete_repos ends_with has_part
    drop_prefix
teardown_user-IsClean_example =
    teardown_user-IsClean no_faults answers show (λ ch. ((λ e. cc e), (λ e. cc e))) ada site refl
