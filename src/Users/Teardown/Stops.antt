-- ===== src/Users/Teardown/Stops.antt =====
-- What the loop over the hosts of a user leaves of them.
use code_server_spawner.Common.{
  ℕ, String, Bool, true, false, not, ◌||◌, none, some, List, [], ◌∷◌, ◌++◌, ◌≢◌, ◌≡◌, refl, ◌⊎◌,
  inl, inr, arith, ◌==◌, str_eq, eq_iff, keep, All, All-keep, Bool-cases, ap,
}
use code_server_spawner.Common.Sort.Laws.{All-map}
use code_server_spawner.Common.Dict.{contains}
use code_server_spawner.Hosts.{CodeHost}
use code_server_spawner.Hosts.Stop.{World, Faults, StopResult, stop_host}
use code_server_spawner.Hosts.Stop.Laws.{stop_host-deletes, stop_host-stops}
use code_server_spawner.Hosts.Stop.Keys.{All-keep_of, hosts-stop_host}
use code_server_spawner.Users.{User}
use code_server_spawner.Users.Teardown.{
  Failure, TeardownReport, ok, Replies, is_truthy, fail, name_of, note_errors, note_record,
  stop_hosts, stop_user_servers,
}

pub ok-fail : (f : Failure) (r : TeardownReport) → ok (fail f r) ≡ false
ok-fail f r = not_nil r.failures
  where
    not_nil : (fs : List Failure) → elim (fs ++ f ∷ []) [ [] ↦ true | _ ∷ _ ↦ false ] ≡ false
    not_nil [] = refl
    not_nil (g ∷ fs) = refl

pub contains-keep_less :
    (k : String) (p : String → Bool) (xs : List String)
    → contains k xs ≡ false
    → contains k (keep p xs) ≡ false
contains-keep_less k p [] h = refl
contains-keep_less k p (x ∷ xs) h = ground (arith, h, contains-keep_less k p xs)

pub All-of_keep {ℓ κ} :
    {A : Type ℓ} (P : A → Type κ) (p : A → Bool) (xs : List A)
    → All P (keep p xs)
    → All (λ x. p x ≡ true → P x) xs
All-of_keep P p [] h = tt
All-of_keep P p (x ∷ xs) h = elim (Bool-cases (p x)) [
  | inl e ↦
      let (here, rest) : P x × All P (keep p xs) = rw e at h in
      ((λ _. here), All-of_keep P p xs rest)
  | inr e ↦ ((λ t. absurd (cc (e, t))), All-of_keep P p xs (rw e at h))
]

-- What all elements are to all, each is to itself.
All-diagonal {ℓ κ} :
    {A : Type ℓ} (R : A → A → Type κ) (xs : List A)
    → All (λ y. All (λ x. R x y) xs) xs
    → All (λ y. R y y) xs
All-diagonal R [] h = tt
All-diagonal R (x ∷ xs) ((r, _), h) = (r, All-diagonal R xs (All-map xs (λ y k. k.1) h))

All-func {ℓ κ} :
    {A : Type ℓ} (B : Type 0) (P : A → Type κ) (xs : List A)
    → (B → All P xs)
    → All (λ x. B → P x) xs
All-func B P [] h = tt
All-func B P (x ∷ xs) h = ((λ b. (h b).0), All-func B P xs (λ b. (h b).1))

module _ (faults : Faults) (answers : Replies) (show : ℕ → String) where
  -- The exceptions of Docker have a text.
  abbrev pub HaveText : Type 0
  HaveText = (ch : CodeHost) → (faults.get_error ch ≢ some "") × (faults.stop_error ch ≢ some "")

  -- A report that is fine after a host tells of no error and of a row that is gone.
  ok-note_record :
      (name : String) (result : StopResult) (r : TeardownReport)
      → ok (note_record faults answers show name result r) ≡ true
      → (ok r ≡ true) × (result.deleted ≡ true)
  ok-note_record name result r h = elim (Bool-cases result.deleted) [
    | inl e ↦ (rw e at h, e)
    | inr e ↦ absurd (cc (ok-fail (Failure.delete_host_record name) r, rw e at h))
  ]

  ok-note_errors :
      (name : String) (result : StopResult) (r : TeardownReport)
      → ok (note_errors faults answers show name result r) ≡ true
      → (ok r ≡ true) × (is_truthy result.stop_error ≡ false)
  ok-note_errors name result r h =
      elim (Bool-cases (is_truthy result.push_error || is_truthy result.stop_error)) [
        | inl e ↦ absurd (cc (ok-fail (Failure.stop_server name _) r, rw e at h))
        | inr e ↦ (rw e at h, ground (arith, e))
      ]

  stop_error-known :
      (ch : CodeHost) (w : World)
      → let e = (stop_host faults ch true w).0.stop_error in
        (e ≡ faults.get_error ch) ⊎ (e ≡ faults.stop_error ch) ⊎ (e ≡ none)
  unfolding stop_host
  stop_error-known ch w = ground arith

  not_empty : (e : String) → some e ≢ some "" → is_truthy (some e) ≡ true
  not_empty e ne = elim (Bool-cases (str_eq e "")) [
    | inl t ↦ absurd (ne (ap (λ x. some x) ((eq_iff _ _).0 t)))
    | inr t ↦ rw t refl
  ]

  -- A stop whose error, if it has one, is falsy had none.
  stops_host :
      HaveText
      → (ch : CodeHost) (w : World) → is_truthy (stop_host faults ch true w).0.stop_error ≡ false
      → contains ch.service_id (stop_host faults ch true w).1.services ≡ false
  stops_host text ch w h = elim (stop_host-stops faults ch true w) [
    | inl (_, _, gone) ↦ gone
    | inr (_, (e, said), _) ↦
        let truthy : some e ≢ some "" → is_truthy (stop_host faults ch true w).0.stop_error ≡ true =
          λ ne. rw said (not_empty e ne) in
        let (g, st) = text ch in
        elim (stop_error-known ch w) [
          | inl k ↦ absurd (cc (h, truthy (λ x. g (cc (x, k, said)))))
          | inr (inl k) ↦ absurd (cc (h, truthy (λ x. st (cc (x, k, said)))))
          | inr (inr k) ↦ absurd (cc (k, said))
        ]
  ]

  -- A service that is gone stays so.
  contains-step :
      (k : String) (ch : CodeHost) (w : World)
      → contains k w.services ≡ false
      → contains k (stop_host faults ch true w).1.services ≡ false
  unfolding stop_host
  contains-step k ch w h =
      ground (arith, h, contains-keep_less k (λ s. not (str_eq s ch.service_id)) w.services h)

  contains-stop_hosts :
      (k : String) (chs : List CodeHost) (r : TeardownReport) (w : World)
      → contains k w.services ≡ false
      → contains k (stop_hosts faults answers show chs r w).1.services ≡ false
  unfolding stop_hosts
  contains-stop_hosts k [] r w h = h
  contains-stop_hosts k (ch ∷ chs) r w h =
      contains-stop_hosts k chs _ (stop_host faults ch true w).1 (contains-step k ch w h)

  row_gone :
      (ch : CodeHost) (w : World)
      → (stop_host faults ch true w).0.deleted ≡ true
      → All (λ h. (h.id == ch.id) ≡ false) (stop_host faults ch true w).1.hosts
  row_gone ch w deleted =
      rw ((stop_host-deletes faults ch true w).1, deleted)
        (All-keep (λ h. (h.id == ch.id) ≡ false) (λ h. not (h.id == ch.id)) w.hosts
          (λ h e. ground (arith, e)))

  -- The rows that are left are rows that were there.
  module _ (Q : CodeHost → Type 0) where
    All-stop_hosts :
        (chs : List CodeHost) (r : TeardownReport) (w : World)
        → All Q w.hosts
        → All Q (stop_hosts faults answers show chs r w).1.hosts
    unfolding stop_hosts
    All-stop_hosts [] r w h = h
    All-stop_hosts (ch ∷ chs) r w h =
        All-stop_hosts chs _ (stop_host faults ch true w).1
          (hosts-stop_host (λ _. true) faults true ch w (All Q) h (All-keep_of Q _ w.hosts h))

  -- Neither the service of the host nor a row with its id.
  abbrev pub IsGone : World → CodeHost → Type 0
  IsGone w ch =
      (contains ch.service_id w.services ≡ false) × All (λ h. (h.id == ch.id) ≡ false) w.hosts

  -- When the report is fine after the loop, it was before, and every host of the list is gone.
  stop_hosts-IsGone :
      HaveText
      → (chs : List CodeHost) (r : TeardownReport) (w : World)
      → let (r', w') = stop_hosts faults answers show chs r w in
        ok r' ≡ true → (ok r ≡ true) × All (IsGone w') chs
  unfolding stop_hosts
  stop_hosts-IsGone text [] r w h = (h, tt)
  stop_hosts-IsGone text (ch ∷ chs) r w h =
      let (result, w₁) = stop_host faults ch true w in
      let name = name_of faults answers show ch in
      let r₁ = note_errors faults answers show name result r in
      let r₂ = note_record faults answers show name result r₁ in
      let (fine₂, rest) = stop_hosts-IsGone text chs r₂ w₁ h in
      let (fine₁, deleted) = ok-note_record name result r₁ fine₂ in
      let (fine, no_error) = ok-note_errors name result r fine₁ in
      (
        fine,
        (
          (
            contains-stop_hosts ch.service_id chs r₂ w₁ (stops_host text ch w no_error),
            All-stop_hosts (λ x. (x.id == ch.id) ≡ false) chs r₂ w₁ (row_gone ch w deleted),
          ),
          rest,
        ),
      )

  -- Rows of which none has the id of a row of the user: none is the user's.
  none_left :
      (user : User) (hs : List CodeHost)
      → All (λ h. All (λ x. (h.user_id == user.id) ≡ true → (x.id == h.id) ≡ false) hs) hs
      → All (λ h. (h.user_id == user.id) ≡ false) hs
  none_left user hs h =
      All-map hs (λ x k. ground (arith, k))
        (All-diagonal (λ x y. (y.user_id == user.id) ≡ true → (x.id == y.id) ≡ false) hs h)

  -- When the report is fine after the stops, no row of the user's is left, and no service of one.
  pub stop_user_servers-IsGone :
      HaveText
      → (user : User) (r : TeardownReport) (w : World)
      → let (r', w') = stop_user_servers faults answers show user r w in
        ok r' ≡ true
        → (ok r ≡ true)
          × All (λ h. (h.user_id == user.id) ≡ false) w'.hosts
          × All
              (λ h. (h.user_id == user.id) ≡ true → contains h.service_id w'.services ≡ false)
              w.hosts
  stop_user_servers-IsGone text user r w h =
      let w' = (stop_user_servers faults answers show user r w).1 in
      let (fine, gone) = stop_hosts-IsGone text (keep (λ h. h.user_id == user.id) w.hosts) r w h in
      let each = All-of_keep (IsGone w') (λ h. h.user_id == user.id) w.hosts gone in
      let left =
        All-stop_hosts (λ h. (h.user_id == user.id) ≡ true → IsGone w' h)
          (keep (λ h. h.user_id == user.id) w.hosts) r w each in
      (
        fine,
        none_left user w'.hosts (
            All-map w'.hosts
              (λ h k. All-func _ (λ x. (x.id == h.id) ≡ false) w'.hosts (λ e. (k e).1)) left),
        All-map w.hosts (λ h k e. (k e).0) each,
      )
