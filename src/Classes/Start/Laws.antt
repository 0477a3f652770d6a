-- ===== src/Classes/Start/Laws.antt =====
-- How many hosts a user can come to.
use code_server_spawner.Common.{
  ℕ, ◌+◌, ◌≤◌, String, Bool, true, Option, none, some, List, [], ◌∷◌, ◌++◌, ◌≡◌, refl, inl, inr,
  arith, ◌==◌, count_if, Bool-cases, Option-cases, Outcome-cases, raises, returns,
}
use code_server_spawner.Hosts.{CodeHost}
use code_server_spawner.Hosts.Sync.{Service, Tables, Model, to_model, probe, put_row}
use code_server_spawner.Hosts.Create.{
  RunAnswer, started_as, created, conflict, api_error, run_fails, Outside, Spawner, row_of_name,
  row_of_service, live_of_user, model_of, reuse_row, commit, after_run, new_cs, Started,
}
use code_server_spawner.Classes.Start.{
  row_of_user, assign_class, after_new, sync_to_db, start_class,
}

-- The rows of a user.
abbrev pub hosts_of : ℕ → List CodeHost → ℕ
hosts_of u = count_if (λ h. h.user_id == u)

module _ (u : ℕ) where
  hosts_of-none : (rows : List CodeHost) → row_of_user u rows ≡ none → hosts_of u rows ≡ 0
  hosts_of-none [] h = refl
  hosts_of-none (ch ∷ rows) h = elim (Bool-cases (ch.user_id == u)) [
    | inl e ↦ absurd (cc (rw (row_of_user, e) at h))
    | inr e ↦ rw (hosts_of, e) (hosts_of-none rows (rw (row_of_user, e) at h))
  ]

  hosts_of-append :
      (rows : List CodeHost) (ch : CodeHost) → hosts_of u (rows ++ ch ∷ []) ≤ hosts_of u rows + 1
  hosts_of-append [] ch = ground arith
  hosts_of-append (r ∷ rows) ch = ground (arith, hosts_of-append rows ch)

  hosts_of-reuse_row :
      (m : Model) (fqdn : Option String) (rows : List CodeHost)
      → hosts_of u (reuse_row m fqdn rows) ≤ hosts_of u rows + 1
  hosts_of-reuse_row m fqdn [] = ground arith
  hosts_of-reuse_row m fqdn (r ∷ rows) = ground (arith, hosts_of-reuse_row m fqdn rows)

  hosts_of-put_row :
      (id : ℕ) (m : Model) (rows : List CodeHost)
      → hosts_of u (put_row id m rows) ≤ hosts_of u rows + 1
  hosts_of-put_row id m [] = ground arith
  hosts_of-put_row id m (r ∷ rows) = ground (arith, hosts_of-put_row id m rows)

  hosts_of-assign_class :
      (class_id : ℕ) (sid : String) (rows : List CodeHost)
      → hosts_of u (assign_class class_id sid rows) ≡ hosts_of u rows
  hosts_of-assign_class class_id sid [] = refl
  hosts_of-assign_class class_id sid (r ∷ rows) =
      ground (arith, hosts_of-assign_class class_id sid rows)

  hosts_of-after_new :
      (class_id : ℕ) (started : Started) (w : Spawner)
      → hosts_of u (after_new class_id (started, w)).1.rows ≡ hosts_of u w.rows
  hosts_of-after_new class_id (raises exc) w = refl
  hosts_of-after_new class_id (returns (s, none)) w = refl
  hosts_of-after_new class_id (returns (s, some row)) w = elim (Option-cases row.class_id) [
    | inr (c, e) ↦ rw (after_new, e) refl
    | inl e ↦ rw (after_new, e) (hosts_of-assign_class class_id row.service_id w.rows)
  ]

  module _ (tables : Tables) (next_id : List CodeHost → ℕ) where
    hosts_of-commit :
        (s : Service) (fqdn : Option String) (w : Spawner)
        → hosts_of u (commit tables next_id s fqdn w).1.rows ≤ hosts_of u w.rows + 1
    unfolding commit
    hosts_of-commit s fqdn w = elim (Option-cases (model_of tables s)) [
      | inl e ↦ rw (commit, e) (omega arith)
      | inr (m, e) ↦ elim (Option-cases (row_of_service m.service_id w.rows)) [
        | inl f ↦ rw (commit, e, f) (hosts_of-append w.rows _)
        | inr (ch, f) ↦ rw (commit, e, f) (hosts_of-reuse_row m fqdn w.rows)
      ]
    ]

    hosts_of-after_run :
        (pins : Bool) (out : Outside) (username : String) (w : Spawner) (answer : RunAnswer)
        → hosts_of u (after_run tables next_id pins out username w answer).1.rows
          ≤ hosts_of u w.rows + 1
    unfolding after_run
    hosts_of-after_run pins out username w (created s given) =
        hosts_of-commit (started_as out username s) _ _
    hosts_of-after_run pins out username w conflict =
        elim (Option-cases (live_of_user (out.slugify username) w.live)) [
          | inl g ↦ rw (after_run, g) (omega arith)
          | inr (s, g) ↦ rw (after_run, g) (hosts_of-commit s none w)
        ]
    hosts_of-after_run pins out username w api_error = omega arith
    hosts_of-after_run pins out username w (run_fails text) = omega arith

    hosts_of-new_cs :
        (pins : Bool) (out : Outside) (username : String) (w : Spawner)
        → hosts_of u (new_cs tables next_id pins out username w).1.rows ≤ hosts_of u w.rows + 1
    unfolding new_cs
    hosts_of-new_cs pins out username w = elim (Outcome-cases out.prepare) [
      | inl (exc, e) ↦ rw (new_cs, e) (omega arith)
      | inr (x, e) ↦ elim (Option-cases (row_of_name username w.rows)) [
        | inr (ch, f) ↦ rw (new_cs, e, f) (omega arith)
        | inl f ↦ rw (new_cs, e, f) (hosts_of-after_run pins out username w out.run)
      ]
    ]

    hosts_of-sync_to_db :
        (s : Service) (w : Spawner)
        → hosts_of u (sync_to_db tables next_id s w).1.rows ≤ hosts_of u w.rows + 1
    unfolding sync_to_db
    hosts_of-sync_to_db s w = elim (Option-cases (to_model tables s)) [
      | inl e ↦ rw (sync_to_db, e) (omega arith)
      | inr (m, e) ↦ rw (sync_to_db, e) (hosts_of-put_row (next_id w.rows) (probe true s m) w.rows)
    ]

    -- A start of a host from a class never brings a user to two hosts, whatever the answers of Docker
    -- and GitHub: with at most one row before, the user has at most one row afterwards.
    pub hosts_of-start_class :
        (pins : Bool) (out : Outside) (class_ : Option ℕ) (username : String) (w : Spawner)
        → hosts_of u w.rows ≤ 1
        → hosts_of u (start_class tables next_id pins out class_ u username w).1.rows ≤ 1
    unfolding start_class
    hosts_of-start_class pins out none username w h = h
    hosts_of-start_class pins out (some class_id) username w h =
        elim (Option-cases (row_of_user u w.rows)) [
          | inr (ch, e) ↦ rw (start_class, e) h
          | inl e ↦
              let empty = hosts_of-none w.rows e in
              elim (Option-cases (live_of_user (out.slugify username) w.live)) [
                | inl f ↦
                    let (st, w') = new_cs tables next_id pins out username w in
                    let more = hosts_of-new_cs pins out username w in
                    let same = hosts_of-after_new class_id st w' in
                    rw (start_class, e, f) (omega (arith, more, same, empty))
                | inr (s, f) ↦
                    let more = hosts_of-sync_to_db s w in
                    rw (start_class, e, f) (omega (arith, more, empty))
              ]
        ]
