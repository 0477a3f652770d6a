-- ===== src/Hosts/Create/Laws.antt =====
-- The rows after the start of a host.
use code_server_spawner.Common.{
  ℕ, String, Bool, Option, none, List, [], ◌∷◌, ◌++◌, ◌≡◌, ◌≢◌, inl, inr, str_eq, eq_iff, All,
  Bool-cases, Option-cases, Outcome-cases,
}
use code_server_spawner.Common.Sort.Laws.{IsSorted}
use code_server_spawner.Hosts.{CodeHost}
use code_server_spawner.Hosts.Sync.{Service, Tables, Model}
use code_server_spawner.Hosts.Create.{
  started_as, RunAnswer, created, conflict, api_error, run_fails, Outside, Spawner, row_of_name,
  row_of_service, live_of_user, model_of, reuse_row, commit, after_run, new_cs,
}

-- Two rows are of two services, as the unique column of the table demands.
abbrev pub HasServices : List CodeHost → Type 0
HasServices = IsSorted (λ a b. a.service_id ≢ b.service_id)

row_of_service-none :
    (sid : String) (rows : List CodeHost)
    → row_of_service sid rows ≡ none
    → All (λ r. r.service_id ≢ sid) rows
row_of_service-none sid [] h = tt
row_of_service-none sid (r ∷ rows) h = elim (Bool-cases (str_eq r.service_id sid)) [
  | inl e ↦ absurd (cc (rw (row_of_service, e) at h))
  | inr e ↦ (
    λ same. absurd (cc (e, (eq_iff r.service_id sid).1 same)),
    row_of_service-none sid rows (rw (row_of_service, e) at h),
  )
]

All-append_one :
    (P : CodeHost → Type 0) (rows : List CodeHost) (ch : CodeHost)
    → All P rows
    → P ch
    → All P (rows ++ ch ∷ [])
All-append_one P [] ch h p = (p, tt)
All-append_one P (r ∷ rows) ch (q, h) p = (q, All-append_one P rows ch h p)

HasServices-append :
    (rows : List CodeHost) (ch : CodeHost)
    → HasServices rows
    → All (λ r. r.service_id ≢ ch.service_id) rows
    → HasServices (rows ++ ch ∷ [])
HasServices-append [] ch h a = (tt, tt)
HasServices-append (r ∷ rows) ch (ne, h) (d, a) =
    (All-append_one (λ b. r.service_id ≢ b.service_id) rows ch ne d, HasServices-append rows ch h a)

All-reuse_row :
    (m : Model) (fqdn : Option String) (P : String → Type 0) (rows : List CodeHost)
    → All (λ r. P r.service_id) rows
    → All (λ r. P r.service_id) (reuse_row m fqdn rows)
All-reuse_row m fqdn P [] h = tt
All-reuse_row m fqdn P (r ∷ rows) (p, h) = elim (Bool-cases (str_eq r.service_id m.service_id)) [
  | inl e ↦ rw (reuse_row, e) (p, h)
  | inr e ↦ rw (reuse_row, e) (p, All-reuse_row m fqdn P rows h)
]

HasServices-reuse_row :
    (m : Model) (fqdn : Option String) (rows : List CodeHost)
    → HasServices rows
    → HasServices (reuse_row m fqdn rows)
HasServices-reuse_row m fqdn [] h = tt
HasServices-reuse_row m fqdn (r ∷ rows) (ne, h) =
    elim (Bool-cases (str_eq r.service_id m.service_id)) [
      | inl e ↦ rw (reuse_row, e) (ne, h)
      | inr e ↦
          rw (reuse_row, e)
            (
              All-reuse_row m fqdn (λ sid. r.service_id ≢ sid) rows ne,
              HasServices-reuse_row m fqdn rows h,
            )
    ]

module _ (tables : Tables) (next_id : List CodeHost → ℕ) where
  commit-HasServices :
      (s : Service) (fqdn : Option String) (w : Spawner)
      → HasServices w.rows
      → HasServices (commit tables next_id s fqdn w).1.rows
  unfolding commit
  commit-HasServices s fqdn w h = elim (Option-cases (model_of tables s)) [
    | inl e ↦ rw (commit, e) h
    | inr (m, e) ↦ elim (Option-cases (row_of_service m.service_id w.rows)) [
      | inl f ↦
          rw (commit, e, f)
            (HasServices-append w.rows _ h (row_of_service-none m.service_id w.rows f))
      | inr (ch, f) ↦ rw (commit, e, f) (HasServices-reuse_row m fqdn w.rows h)
    ]
  ]

  after_run-HasServices :
      (pins : Bool) (out : Outside) (username : String) (w : Spawner) (answer : RunAnswer)
      → HasServices w.rows
      → HasServices (after_run tables next_id pins out username w answer).1.rows
  unfolding after_run
  after_run-HasServices pins out username w (created s given) h =
      commit-HasServices (started_as out username s) _ _ h
  after_run-HasServices pins out username w conflict h =
      elim (Option-cases (live_of_user (out.slugify username) w.live)) [
        | inl g ↦ rw (after_run, g) h
        | inr (s, g) ↦ rw (after_run, g) (commit-HasServices s none w h)
      ]
  after_run-HasServices pins out username w api_error h = h
  after_run-HasServices pins out username w (run_fails text) h = h

  -- However a start of a host ends, no two rows are of one service afterwards, if none were before: a
  -- row that there is for the service is used again.
  pub new_cs-HasServices :
      (pins : Bool) (out : Outside) (username : String) (w : Spawner)
      → HasServices w.rows
      → HasServices (new_cs tables next_id pins out username w).1.rows
  unfolding new_cs
  new_cs-HasServices pins out username w h = elim (Outcome-cases out.prepare) [
    | inl (exc, e) ↦ rw (new_cs, e) h
    | inr (u, e) ↦ elim (Option-cases (row_of_name username w.rows)) [
      | inr (ch, f) ↦ rw (new_cs, e, f) h
      | inl f ↦ rw (new_cs, e, f) (after_run-HasServices pins out username w out.run h)
    ]
  ]
