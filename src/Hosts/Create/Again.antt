-- ===== src/Hosts/Create/Again.antt =====
-- A second start of a host for a user.
use mathlib.Core.Path.{subst}
use code_server_spawner.Common.{
  ℕ, String, Bool, true, ◌⊎◌, ap, ◌∙◌, Option, none, some, List, ◌≡◌, refl, inl, inr, arith,
  Option-cases, Outcome-cases, returns, is_some,
}
use code_server_spawner.Hosts.{CodeHost}
use code_server_spawner.Hosts.Sync.{Service, Tables, Model, to_model}
use code_server_spawner.Hosts.Create.{
  Started, started_as, RunAnswer, created, conflict, api_error, run_fails, Outside, Spawner,
  row_of_name, row_of_service, live_service, live_of_user, model_of, commit, after_run, new_cs,
}
use code_server_spawner.Hosts.Create.Names.{
  row_of_name-append, row_of_name-reuse_row, AreNamed, is_taken, some-injective, AreNamed-append,
  AreNamed-live_of_user, is_taken-append,
}

module _ (tables : Tables) (next_id : List CodeHost → ℕ) where
  named : (s : Service) (m : Model) → model_of tables s ≡ some m → m.service_name ≡ s.name
  unfolding to_model
  named s m e = ground (arith, e)

  -- A start that gives a row gives one of the table afterwards.
  row_of_name-commit :
      (s : Service) (fqdn : Option String) (w : Spawner) (other : Option Service) (ch : CodeHost)
      → (commit tables next_id s fqdn w).0 ≡ returns (other, some ch)
      → is_some (row_of_name s.name (commit tables next_id s fqdn w).1.rows) ≡ true
  unfolding commit
  row_of_name-commit s fqdn w other ch h = elim (Option-cases (model_of tables s)) [
    | inl e ↦ absurd (cc (rw (commit, e) at h))
    | inr (m, e) ↦ elim (Option-cases (row_of_service m.service_id w.rows)) [
      | inl f ↦ rw (commit, e, f) (row_of_name-append s.name w.rows _ (named s m e))
      | inr (old, f) ↦
          rw (commit, e, f) (row_of_name-reuse_row s.name m fqdn w.rows old (named s m e) f)
    ]
  ]

  commit-live :
      (s : Service) (fqdn : Option String) (w : Spawner)
      → (commit tables next_id s fqdn w).1.live ≡ w.live
  unfolding commit
  commit-live s fqdn w = elim (Option-cases (model_of tables s)) [
    | inl e ↦ rw (commit, e) refl
    | inr (m, e) ↦ elim (Option-cases (row_of_service m.service_id w.rows)) [
      | inl f ↦ rw (commit, e, f) refl
      | inr (old, f) ↦ rw (commit, e, f) refl
    ]
  ]

  module _ (pins : Bool) (out : Outside) (username : String) (w : Spawner) where
    -- The services keep to the names that `new_cs` gives.
    AreNamed-after_run :
        (answer : RunAnswer)
        → AreNamed out.slugify w.live
        → AreNamed out.slugify (after_run tables next_id pins out username w answer).1.live
    unfolding after_run
    AreNamed-after_run (created s given) h =
        rw (commit-live (started_as out username s) _ _)
          (AreNamed-append out.slugify w.live _ h (λ u e. ap out.slugify (some-injective e)))
    AreNamed-after_run conflict h =
        elim (Option-cases (live_of_user (out.slugify username) w.live)) [
          | inl g ↦ rw (after_run, g) h
          | inr (s, g) ↦ rw (after_run, g, commit-live s none w) h
        ]
    AreNamed-after_run api_error h = h
    AreNamed-after_run (run_fails text) h = h

    -- A start that gives a row gives one of the table afterwards by the user's name, where the name
    -- is its own slug.
    row_of_name-after_run :
        (answer : RunAnswer) (svc : Option Service) (ch : CodeHost)
        → AreNamed out.slugify w.live
        → out.slugify username ≡ username
        → (after_run tables next_id pins out username w answer).0 ≡ returns (svc, some ch)
        → is_some
            (row_of_name username (after_run tables next_id pins out username w answer).1.rows)
          ≡ true
    unfolding after_run
    row_of_name-after_run (created s given) svc ch named_all own h =
        subst
          (λ (n : String).
            is_some (
              row_of_name n (after_run tables next_id pins out username w (created s given)).1.rows)
            ≡ true)
          own (row_of_name-commit (started_as out username s) _ _ svc ch h)
    row_of_name-after_run conflict svc ch named_all own h =
        elim (Option-cases (live_of_user (out.slugify username) w.live)) [
          | inl g ↦ absurd (cc (rw (after_run, g) at h))
          | inr (s, g) ↦
              let found = row_of_name-commit s none w svc ch (rw (after_run, g) at h) in
              let same : s.name ≡ username =
                AreNamed-live_of_user out.slugify (out.slugify username) w.live s named_all g
                ∙ ap out.slugify own
                ∙ own in
              rw (after_run, g)
                (subst
                  (λ (n : String).
                    is_some (row_of_name n (commit tables next_id s none w).1.rows) ≡ true)
                  same found)
        ]
    row_of_name-after_run api_error svc ch named_all own h = absurd (cc h)
    row_of_name-after_run (run_fails text) svc ch named_all own h = absurd (cc h)

    -- A start that gives a row and comes as far as Docker leaves the name of the host taken.
    is_taken-after_run :
        (answer : RunAnswer) (svc : Option Service) (ch : CodeHost)
        → (answer ≡ conflict → is_taken (out.slugify username) w.live ≡ true)
        → (after_run tables next_id pins out username w answer).0 ≡ returns (svc, some ch)
        → is_taken
            (out.slugify username)
            (after_run tables next_id pins out username w answer).1.live
          ≡ true
    unfolding after_run
    is_taken-after_run (created s given) svc ch law h =
        rw (commit-live (started_as out username s) _ _)
          (is_taken-append (out.slugify username) w.live _ refl)
    is_taken-after_run conflict svc ch law h =
        elim (Option-cases (live_of_user (out.slugify username) w.live)) [
          | inl g ↦ rw (after_run, g) (law refl)
          | inr (s, g) ↦ rw (after_run, g, commit-live s none w) (law refl)
        ]
    is_taken-after_run api_error svc ch law h = absurd (cc h)
    is_taken-after_run (run_fails text) svc ch law h = absurd (cc h)

    -- What a start does that finds a row, and one that finds the name of the host taken.
    new_cs-found :
        out.prepare ≡ returns tt
        → is_some (row_of_name username w.rows) ≡ true
        → (svc : Option Service) × (ch : CodeHost) × (new_cs tables next_id pins out username w
            ≡ (returns (svc, some ch), w))
    unfolding new_cs
    new_cs-found ready found = elim (Option-cases (row_of_name username w.rows)) [
      | inl e ↦ absurd (cc (rw e at found))
      | inr (c, e) ↦ (live_service c.service_id w.live, c, rw (new_cs, ready, e) refl)
    ]

    new_cs-taken :
        out.prepare ≡ returns tt
        → row_of_name username w.rows ≡ none
        → out.run ≡ conflict
        → ((new_cs tables next_id pins out username w).1.live ≡ w.live)
          × (live_of_user (out.slugify username) w.live ≡ none
              → new_cs tables next_id pins out username w ≡ (returns (none, none), w))
    unfolding new_cs after_run
    new_cs-taken ready absent refused =
        elim (Option-cases (live_of_user (out.slugify username) w.live)) [
          | inl g ↦ (
            rw (new_cs, ready, absent, refused, after_run, g) refl,
            λ _. rw (new_cs, ready, absent, refused, after_run, g) refl,
          )
          | inr (s, g) ↦ (
            rw (new_cs, ready, absent, refused, after_run, g) (commit-live s none w),
            λ k. absurd (cc (k, g)),
          )
        ]

    pub AreNamed-new_cs :
        AreNamed out.slugify w.live
        → AreNamed out.slugify (new_cs tables next_id pins out username w).1.live
    unfolding new_cs
    AreNamed-new_cs h = elim (Outcome-cases out.prepare) [
      | inl (exc, e) ↦ rw (new_cs, e) h
      | inr (u, e) ↦ elim (Option-cases (row_of_name username w.rows)) [
        | inr (ch, f) ↦ rw (new_cs, e, f) h
        | inl f ↦ rw (new_cs, e, f) (AreNamed-after_run out.run h)
      ]
    ]

    -- What a start that gives a row leaves for the next one.
    new_cs-leaves :
        (svc : Option Service) (ch : CodeHost)
        → AreNamed out.slugify w.live
        → (out.run ≡ conflict → is_taken (out.slugify username) w.live ≡ true)
        → (new_cs tables next_id pins out username w).0 ≡ returns (svc, some ch)
        → let after = (new_cs tables next_id pins out username w).1 in
          (out.slugify username ≡ username → is_some (row_of_name username after.rows) ≡ true)
          × ((is_some (row_of_name username after.rows) ≡ true)
              ⊎ (is_taken (out.slugify username) after.live ≡ true))
    unfolding new_cs
    new_cs-leaves svc ch named_all law h = elim (Outcome-cases out.prepare) [
      | inl (exc, e) ↦ absurd (cc (rw (new_cs, e) at h))
      | inr (u, e) ↦ elim (Option-cases (row_of_name username w.rows)) [
        | inr (old, f) ↦ rw (new_cs, e, f) (λ _. rw f refl, inl (rw f refl))
        | inl f ↦
            let gives = rw (new_cs, e, f) at h in
            rw (new_cs, e, f)
              (
                λ own. row_of_name-after_run out.run svc ch named_all own gives,
                inr (is_taken-after_run out.run svc ch law gives),
              )
      ]
    ]

  -- Once a start has given a row, another one for the same user that comes as far as Docker starts no
  -- second service, and the services bear the slugs of their users' names again. Where the user's
  -- name is its own slug, it gives a row and changes nothing. Where it is not, so that the row is
  -- under another name, and no service has a label with the slug, it gives neither a service nor a
  -- row, and changes nothing. Docker is taken to answer by a conflict exactly if the name of the
  -- host is taken, and the services before to bear the slugs of their users' names.
  pub new_cs-again :
      (pins pins' : Bool) (out out' : Outside) (username : String) (w : Spawner)
      (svc : Option Service) (ch : CodeHost)
      → AreNamed out.slugify w.live
      → (out.run ≡ conflict → is_taken (out.slugify username) w.live ≡ true)
      → (new_cs tables next_id pins out username w).0 ≡ returns (svc, some ch)
      → out'.slugify ≡ out.slugify
      → (is_taken (out.slugify username) (new_cs tables next_id pins out username w).1.live ≡ true
          → out'.run ≡ conflict)
      → out'.prepare ≡ returns tt
      → let after = (new_cs tables next_id pins out username w).1 in
        let second = new_cs tables next_id pins' out' username after in
        (second.1.live ≡ after.live)
        × AreNamed out.slugify after.live
        × (out.slugify username ≡ username
            → (svc' : Option Service) × (ch' : CodeHost) × (second
                ≡ (returns (svc', some ch'), after)))
        × (row_of_name username after.rows ≡ none
            → live_of_user (out.slugify username) after.live ≡ none
            → second ≡ (returns (none, none), after))
  new_cs-again pins pins' out out' username w svc ch named_all law h slugs law' ready =
      let after = (new_cs tables next_id pins out username w).1 in
      let (own, either) = new_cs-leaves pins out username w svc ch named_all law h in
      let taken : row_of_name username after.rows ≡ none → out'.run ≡ conflict =
        λ absent. elim either [ inl found ↦ absurd (cc (rw absent at found)) | inr t ↦ law' t ] in
      (
        elim (Option-cases (row_of_name username after.rows)) [
          | inl absent ↦ (new_cs-taken pins' out' username after ready absent (taken absent)).0
          | inr (old, f) ↦
              let (_, _, e) = new_cs-found pins' out' username after ready (rw f refl) in
              ap (λ (r : Started × Spawner). r.1.live) e
        ],
        AreNamed-new_cs pins out username w named_all,
        λ same. new_cs-found pins' out' username after ready (own same),
        λ absent nobody.
            (new_cs-taken pins' out' username after ready absent (taken absent)).1
              (ap (λ (f : String → String). live_of_user (f username) after.live) slugs ∙ nobody),
      )
