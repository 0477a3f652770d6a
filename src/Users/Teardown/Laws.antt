-- ===== src/Users/Teardown/Laws.antt =====
-- What a full deletion leaves of a user, and whether its report is true.
use code_server_spawner.Common.{
  ℕ, String, Bool, true, false, not, ◌||◌, List, [], ◌∷◌, Outcome, ◌∙◌, ◌≡◌, refl, ◌⊎◌, inl, inr,
  arith, ◌==◌, keep, All, All-keep, Bool-cases, Option-cases,
}
use code_server_spawner.Common.Dict.{contains}
use code_server_spawner.Common.Text.{ends_with}
use code_server_spawner.Hosts.{CodeHost}
use code_server_spawner.Hosts.Stop.{World, Faults, StopResult, stop_host}
use code_server_spawner.Users.{User}
use code_server_spawner.Users.Teardown.{
  Failure, TeardownReport, ok, Estate, Replies, name_of, note_errors, note_record, stop_hosts,
  stop_user_servers, remove_repo, note_repo, delete_repos, suffix_of, delete_user_repos,
  delete_user, new_report, teardown_user,
}
use code_server_spawner.Users.Teardown.Stops.{ok-fail, HaveText, stop_user_servers-IsGone}
use code_server_spawner.Users.Teardown.Repos.{IsUnknown, delete_user_repos-gone}

module _ (faults : Faults) (answers : Replies) (show : ℕ → String) where
  keeps_note :
      (name : String) (result : StopResult) (r : TeardownReport)
      → (note_record faults answers show name result
          (note_errors faults answers show name result r)).user_deleted
        ≡ r.user_deleted
  keeps_note name result r = ground arith

  keeps_note_repo :
      (name : String) (answer : Outcome Bool) (r : TeardownReport)
      → (note_repo faults answers show name answer r).user_deleted ≡ r.user_deleted
  keeps_note_repo name answer r = ground arith

  -- Nothing of the user in the tables, the services and the repositories.
  abbrev pub IsClean : User → Estate → Estate → Type 0
  IsClean user before after =
      All (λ h. (h.user_id == user.id) ≡ false) after.world.hosts
      × All
          (λ h. (h.user_id == user.id) ≡ true → contains h.service_id after.world.services ≡ false)
          before.world.hosts
      × All
          (λ name.
            ends_with (suffix_of user) name ≡ true
            → (contains name after.repos ≡ false) ⊎ IsUnknown faults answers show name)
          before.repos
      × All (λ u. (u == user.id) ≡ false) after.users

  -- Only the last step sets `user_deleted`.
  keeps_user-stop_hosts :
      (chs : List CodeHost) (r : TeardownReport) (w : World)
      → (stop_hosts faults answers show chs r w).0.user_deleted ≡ r.user_deleted
  unfolding stop_hosts
  keeps_user-stop_hosts [] r w = refl
  keeps_user-stop_hosts (ch ∷ chs) r w =
      keeps_user-stop_hosts chs _ (stop_host faults ch true w).1
      ∙ keeps_note (name_of faults answers show ch) (stop_host faults ch true w).0 r

  keeps_user-delete_repos :
      (names : List String) (r : TeardownReport) (repos : List String)
      → (delete_repos faults answers show names r repos).0.user_deleted ≡ r.user_deleted
  unfolding delete_repos
  keeps_user-delete_repos [] r repos = refl
  keeps_user-delete_repos (name ∷ names) r repos =
      keeps_user-delete_repos names _ (remove_repo faults answers show name repos).1
      ∙ keeps_note_repo name (remove_repo faults answers show name repos).0 r

  keeps_user-delete_user_repos :
      (user : User) (r : TeardownReport) (repos : List String)
      → (delete_user_repos faults answers show user r repos).0.user_deleted ≡ r.user_deleted
  unfolding delete_user_repos
  keeps_user-delete_user_repos user r repos =
      ground (arith, keeps_user-delete_repos (keep (ends_with (suffix_of user)) repos) r repos)

  unset-steps :
      (user : User) (s : Estate)
      → let (r, w) =
          stop_user_servers faults answers show user
            (new_report faults answers show user)
            s.world in
        (delete_user_repos faults answers show user r s.repos).0.user_deleted ≡ false
  unset-steps user s =
      let (r, w) =
        stop_user_servers faults answers show user (new_report faults answers show user) s.world in
      keeps_user-delete_user_repos user r s.repos
      ∙ keeps_user-stop_hosts (keep (λ h. h.user_id == user.id) s.world.hosts)
          (new_report faults answers show user) s.world

  -- The exceptions of Docker having texts, a deletion without force that deletes the row of the user
  -- leaves nothing of the user: no row of a host, no live service of one of the hosts, no repository
  -- with the user's suffix unless GitHub says that it has none, and no row of the user.
  pub teardown_user-IsClean :
      HaveText faults answers show
      → (user : User) (before : Estate)
      → let (r, after) = teardown_user faults answers show user false before in
        r.user_deleted ≡ true → IsClean user before after
  unfolding teardown_user
  teardown_user-IsClean text user before h =
      let S =
        stop_user_servers faults answers show user (new_report faults answers show user)
          before.world in
      let D = delete_user_repos faults answers show user S.0 before.repos in
      let unset = unset-steps user before in
      elim (Bool-cases (ok D.0)) [
        | inl e ↦
            let (fine, repos_gone) =
              delete_user_repos-gone faults answers show user S.0 before.repos e in
            let (_, rows_gone, services_gone) =
              stop_user_servers-IsGone faults answers show text user
                (new_report faults answers show user) before.world fine in
            elim (Option-cases (answers.user_error user.id)) [
              | inl f ↦
                  rw (teardown_user, e, delete_user, f)
                    (
                      rows_gone,
                      services_gone,
                      repos_gone,
                      All-keep (λ u. (u == user.id) ≡ false) (λ u. not (u == user.id)) before.users
                          (λ u k. ground (arith, k)),
                    )
              | inr (text, f) ↦ absurd (cc (unset, rw (teardown_user, e, delete_user, f) at h))
            ]
        | inr e ↦ absurd (cc (unset, rw (teardown_user, e) at h))
      ]

  -- The report says whether the row of the user is gone, with or without force: set, no row with the
  -- user's id is left and no other is gone; not set, the users are as they were and the report has a
  -- failure.
  pub teardown_user-IsTrue :
      (user : User) (force : Bool) (before : Estate)
      → let (r, after) = teardown_user faults answers show user force before in
        ((r.user_deleted ≡ true) × (after.users ≡ keep (λ u. not (u == user.id)) before.users))
        ⊎ ((r.user_deleted ≡ false) × (after.users ≡ before.users) × (ok r ≡ false))
  unfolding teardown_user
  teardown_user-IsTrue user force before =
      let S =
        stop_user_servers faults answers show user (new_report faults answers show user)
          before.world in
      let D = delete_user_repos faults answers show user S.0 before.repos in
      let unset = unset-steps user before in
      elim (Bool-cases (ok D.0 || force)) [
        | inl e ↦ elim (Option-cases (answers.user_error user.id)) [
          | inl f ↦ rw (teardown_user, e, delete_user, f) (inl (refl, refl))
          | inr (text, f) ↦
              rw (teardown_user, e, delete_user, f)
                (inr (unset, refl, ok-fail (Failure.delete_user_record text) D.0))
        ]
        | inr e ↦ rw (teardown_user, e) (inr (unset, refl, ground (arith, e)))
      ]
