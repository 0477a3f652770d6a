-- ===== src/Users/Teardown/Repos.antt =====
-- What the deletion of the repositories of a user leaves of them.
use code_server_spawner.Common.{
  ℕ, String, true, false, not, some, List, [], ◌∷◌, ◌≡◌, refl, ◌⊎◌, inl, inr, arith, str_eq, keep,
  All, Bool-cases, Option-cases,
}
use code_server_spawner.Common.Dict.{contains}
use code_server_spawner.Common.Text.{ends_with, has_part}
use code_server_spawner.Hosts.Stop.{Faults}
use code_server_spawner.Hosts.Stop.Laws.{contains-keep_ne}
use code_server_spawner.Users.{User}
use code_server_spawner.Users.Teardown.{
  Failure, TeardownReport, ok, Replies, remove_repo, note_repo, delete_repos, suffix_of,
  delete_user_repos,
}
use code_server_spawner.Users.Teardown.Stops.{ok-fail, contains-keep_less, All-of_keep}

module _ (faults : Faults) (answers : Replies) (show : ℕ → String) where
  -- GitHub answers that it has no repository of this name.
  abbrev pub IsUnknown : String → Type 0
  IsUnknown name =
      (text : String) × (answers.repo_error name ≡ some text) × (has_part "Not Found" text ≡ true)

  contains-delete_repos :
      (k : String) (names : List String) (r : TeardownReport) (repos : List String)
      → contains k repos ≡ false
      → contains k (delete_repos faults answers show names r repos).1 ≡ false
  unfolding delete_repos
  contains-delete_repos k [] r repos h = h
  contains-delete_repos k (name ∷ names) r repos h =
      contains-delete_repos k names _ (remove_repo faults answers show name repos).1
        (ground (arith, h, contains-keep_less k (λ x. not (str_eq x name)) repos h))

  -- A report that is fine after a repository: it is deleted, or unknown.
  removes_repo :
      (name : String) (r : TeardownReport) (repos : List String)
      → let (answer, repos') = remove_repo faults answers show name repos in
        ok (note_repo faults answers show name answer r) ≡ true
        → (ok r ≡ true) × ((contains name repos' ≡ false) ⊎ IsUnknown name)
  removes_repo name r repos h = elim (Option-cases (answers.repo_error name)) [
    | inl e ↦ (rw (remove_repo, e) at h, inl (rw (remove_repo, e) (contains-keep_ne name repos)))
    | inr (text, e) ↦ elim (Bool-cases (has_part "Not Found" text)) [
      | inl f ↦ (rw (remove_repo, e, f) at h, inr (text, e, f))
      | inr f ↦ absurd (cc (ok-fail (Failure.delete_repo _ _) r, rw (remove_repo, e, f) at h))
    ]
  ]

  delete_repos-gone :
      (names : List String) (r : TeardownReport) (repos : List String)
      → let (r', repos') = delete_repos faults answers show names r repos in
        ok r' ≡ true
        → (ok r ≡ true) × All (λ name. (contains name repos' ≡ false) ⊎ IsUnknown name) names
  unfolding delete_repos
  delete_repos-gone [] r repos h = (h, tt)
  delete_repos-gone (name ∷ names) r repos h =
      let (answer, repos₁) = remove_repo faults answers show name repos in
      let r₁ = note_repo faults answers show name answer r in
      let (fine₁, rest) = delete_repos-gone names r₁ repos₁ h in
      let (fine, here) = removes_repo name r repos fine₁ in
      (
        fine,
        (
          elim here [
            | inl gone ↦ inl (contains-delete_repos name names r₁ repos₁ gone)
            | inr unknown ↦ inr unknown
          ],
          rest,
        ),
      )

  pub delete_user_repos-gone :
      (user : User) (r : TeardownReport) (repos : List String)
      → let (r', repos') = delete_user_repos faults answers show user r repos in
        ok r' ≡ true
        → (ok r ≡ true)
          × All
              (λ name.
                ends_with (suffix_of user) name ≡ true
                → (contains name repos' ≡ false) ⊎ IsUnknown name)
              repos
  unfolding delete_user_repos
  delete_user_repos-gone user r repos h = elim (Option-cases answers.init_error) [
    | inr (text, e) ↦ absurd (cc (ok-fail (Failure.github_org_init text) r, rw e at h))
    | inl e ↦ elim (Option-cases answers.list_error) [
      | inr (text, f) ↦ absurd (cc (ok-fail (Failure.list_repos text) r, rw (e, f) at h))
      | inl f ↦
          let ends = ends_with (suffix_of user) in
          let same : delete_user_repos faults answers show user r repos
              ≡ delete_repos faults answers show (keep ends repos) r repos =
            rw (delete_user_repos, e, f) refl in
          let (fine, gone) = delete_repos-gone (keep ends repos) r repos (rw same at h) in
          let left = (delete_repos faults answers show (keep ends repos) r repos).1 in
          (
            fine,
            rw same (
                All-of_keep (λ name. (contains name left ≡ false) ⊎ IsUnknown name) ends repos
                  gone),
          )
    ]
  ]
