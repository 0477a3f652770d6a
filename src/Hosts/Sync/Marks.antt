-- ===== src/Hosts/Sync/Marks.antt =====
-- The rows without a service after a synchronisation.
use code_server_spawner.Common.{
  ℕ, String, Bool, true, not, ◌&&◌, Option, some, List, [], ◌∷◌, ◌≡◌, ◌⊎◌, refl, ap, ◌∙◌, inl, inr,
  arith, str_eq, eq_iff, keep, All, Bool-cases, Option-cases, if-elim,
}
use code_server_spawner.Common.Dict.{contains}
use code_server_spawner.Common.Sort.Laws.{All-map}
use code_server_spawner.Hosts.{CodeHost, is_mia}
use code_server_spawner.Hosts.Sync.{
  Service, Tables, Model, to_model, probe, put_row, sync_one, sync_all, mark_missing, is_not_ready,
  service_ids, to_refresh, sync,
}

-- Every row has a service in the swarm or is marked as missing.
abbrev pub IsMarked : List String → CodeHost → Type 0
IsMarked in_swarm ch = (contains ch.service_id in_swarm ≡ true) ⊎ (is_mia ch ≡ true)

mark_missing-IsMarked :
    (in_swarm : List String) (rows : List CodeHost)
    → All (IsMarked in_swarm) (mark_missing in_swarm rows)
mark_missing-IsMarked in_swarm [] = tt
mark_missing-IsMarked in_swarm (ch ∷ rows) = elim (Bool-cases (contains ch.service_id in_swarm)) [
  | inl e ↦ rw e (inl e, mark_missing-IsMarked in_swarm rows)
  | inr e ↦ rw e (inr refl, mark_missing-IsMarked in_swarm rows)
]

-- What is refreshed stands in the swarm.
to_refresh-listed :
    (in_swarm : List String) (rows : List CodeHost)
    → All (λ k. contains k in_swarm ≡ true) (to_refresh (mark_missing in_swarm rows))
to_refresh-listed in_swarm [] = tt
to_refresh-listed in_swarm (ch ∷ rows) = elim (Bool-cases (contains ch.service_id in_swarm)) [
  | inr e ↦ rw e (to_refresh-listed in_swarm rows)
  | inl e ↦ elim (Bool-cases (is_not_ready ch && not (str_eq ch.state "mia"))) [
    | inl f ↦ rw (e, f) (e, to_refresh-listed in_swarm rows)
    | inr f ↦ rw (e, f) (to_refresh-listed in_swarm rows)
  ]
]

keep-listed :
    (p : String → Bool) (in_swarm ids : List String)
    → All (λ k. contains k in_swarm ≡ true) ids
    → All (λ k. contains k in_swarm ≡ true) (keep p ids)
keep-listed p in_swarm [] h = tt
keep-listed p in_swarm (k ∷ ids) (h, hs) = elim (Bool-cases (p k)) [
  | inl e ↦ rw e (h, keep-listed p in_swarm ids hs)
  | inr e ↦ rw e (keep-listed p in_swarm ids hs)
]

All-contains_later :
    (x : String) (ids xs : List String)
    → All (λ k. contains k xs ≡ true) ids
    → All (λ k. contains k (x ∷ xs) ≡ true) ids
All-contains_later x ids xs h = All-map ids (λ k c. ground (arith, c)) h

self_listed : (ids : List String) → All (λ k. contains k ids ≡ true) ids
self_listed [] = tt
self_listed (k ∷ ids) = (ground (arith, eq_iff k k), All-contains_later k ids ids (self_listed ids))

put_row-IsMarked :
    (in_swarm : List String) (id : ℕ) (m : Model) (rows : List CodeHost)
    → contains m.service_id in_swarm ≡ true
    → All (IsMarked in_swarm) rows
    → All (IsMarked in_swarm) (put_row id m rows)
put_row-IsMarked in_swarm id m [] c h = (inl c, tt)
put_row-IsMarked in_swarm id m (ch ∷ rows) c (h, hs) =
    if-elim (All (IsMarked in_swarm)) (str_eq ch.service_id m.service_id) (λ e. (inl c, hs))
      (λ e. (h, put_row-IsMarked in_swarm id m rows c hs))

pub to_model-service_id :
    (tables : Tables) (s : Service) (m : Model) → to_model tables s ≡ some m → m.service_id ≡ s.id
unfolding to_model
to_model-service_id tables s m e = ground (arith, e)

pub probe-service_id :
    (check_ready : Bool) (s : Service) (m : Model)
    → (probe check_ready s m).service_id ≡ m.service_id
probe-service_id check_ready s m =
    if-elim (λ (n : Model). n.service_id ≡ m.service_id) (check_ready && s.is_ready) (λ _. refl)
      (λ _. refl)

module _ (tables : Tables) (get : String → Option Service) (next_id : List CodeHost → ℕ)
    (check_ready : Bool) (answers : (k : String) (s : Service) → get k ≡ some s → s.id ≡ k) where
  sync_one-IsMarked :
      (in_swarm : List String) (k : String) (rows : List CodeHost)
      → contains k in_swarm ≡ true
      → All (IsMarked in_swarm) rows
      → All (IsMarked in_swarm) (sync_one tables get next_id check_ready k rows)
  unfolding sync_one
  sync_one-IsMarked in_swarm k rows c h = elim (Option-cases (get k)) [
    | inl e ↦ rw (sync_one, e) h
    | inr (s, e) ↦ elim (Option-cases (to_model tables s)) [
      | inl f ↦ rw (sync_one, e, f) h
      | inr (m, f) ↦
          let id =
            probe-service_id check_ready s m ∙ to_model-service_id tables s m f ∙ answers k s e in
          rw (sync_one, e, f)
            (put_row-IsMarked in_swarm (next_id rows) (probe check_ready s m) rows
              (ap (λ j. contains j in_swarm) id ∙ c) h)
    ]
  ]

  sync_all-IsMarked :
      (in_swarm ids : List String) (rows : List CodeHost)
      → All (λ k. contains k in_swarm ≡ true) ids
      → All (IsMarked in_swarm) rows
      → All (IsMarked in_swarm) (sync_all tables get next_id check_ready ids rows)
  unfolding sync_all
  sync_all-IsMarked in_swarm [] rows c h = h
  sync_all-IsMarked in_swarm (k ∷ ids) rows (c, cs) h =
      sync_all-IsMarked in_swarm ids (sync_one tables get next_id check_ready k rows) cs
        (sync_one-IsMarked in_swarm k rows c h)

  -- After a synchronisation every row has a service in the swarm or is marked as missing, whatever
  -- the services answer, given that a lookup by id gives the service with that id.
  pub sync-IsMarked :
      (in_swarm : List String) (rows : List CodeHost)
      → All (IsMarked in_swarm) (sync tables get next_id check_ready in_swarm rows)
  unfolding sync
  sync-IsMarked in_swarm rows =
      let marked = mark_missing in_swarm rows in
      sync_all-IsMarked in_swarm (keep (λ k. not (contains k (service_ids rows))) in_swarm)
        (sync_all tables get next_id check_ready (to_refresh marked) marked)
        (keep-listed (λ k. not (contains k (service_ids rows))) in_swarm in_swarm
          (self_listed in_swarm))
        (sync_all-IsMarked in_swarm (to_refresh marked) marked (to_refresh-listed in_swarm rows)
          (mark_missing-IsMarked in_swarm rows))
