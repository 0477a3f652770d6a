-- ===== src/Nodes/Pins/Laws.antt =====
-- What pins and their removal do to the constraints of a service.
use Prim.Native.String.{◌++◌ as append}
use code_server_spawner.Common.{
  map, ◌&&◌, returns, none, String, Bool, true, false, not, List, [], ◌∷◌, ◌++◌, sym, ◌⊎◌,
  returns-injective, ◌∙◌, ◌≡◌, refl, ap, inl, inr, arith, str_eq, eq_iff, keep, All, All-keep,
  count_if, Bool-cases, if◌then◌else◌,
}
use text.Mathlib.TextPositions.{eq_refl}
use code_server_spawner.Common.Sort.Laws.{All-map}
use code_server_spawner.Common.Dict.{contains}
use code_server_spawner.Common.Text.{
  before_dot, without_spaces, drop_prefix-append, without_spaces-append,
}
use code_server_spawner.Nodes.Pins.{
  PlacedService, pin_service_to_node, is_nil, is_pin, pinned, is_target, matching, kept, unpin_one,
  unpin_all, unpin_services_from_node,
}

module _ (p : String → Bool) where
  keep_whole : (xs : List String) → All (λ c. p c ≡ true) xs → keep p xs ≡ xs
  keep_whole [] h = refl
  keep_whole (x ∷ xs) (h, hs) = rw (h, keep_whole xs hs) refl

  keep-append : (xs ys : List String) → keep p (xs ++ ys) ≡ keep p xs ++ keep p ys
  keep-append [] ys = refl
  keep-append (x ∷ xs) ys = elim (Bool-cases (p x)) [
    | inl e ↦ rw (e, keep-append xs ys) refl
    | inr e ↦ rw (e, keep-append xs ys) refl
  ]

  -- A list that a filter leaves empty has nothing of it.
  keep-none : (xs : List String) → keep p xs ≡ [] → All (λ c. p c ≡ false) xs
  keep-none [] h = tt
  keep-none (x ∷ xs) h = elim (Bool-cases (p x)) [
    | inl e ↦ absurd (cc (rw e at h))
    | inr e ↦ (e, keep-none xs (rw e at h))
  ]

  contains-keep_step :
      (x c : String) (K : List String)
      → contains c K ≡ p c
      → contains c (if p x then x ∷ K else K) ≡ p c
  contains-keep_step x c K h = ground (arith, h, eq_iff x c)

  -- What a filter drops is not in its result.
  contains-keep_dropped :
      (c : String) (xs : List String) → p c ≡ false → contains c (keep p xs) ≡ false
  contains-keep_dropped c [] h = refl
  contains-keep_dropped c (x ∷ xs) h = elim (Bool-cases (p x)) [
    | inl e ↦
        let rest = contains-keep_dropped c xs h in rw e (ground (arith, h, e, eq_iff x c, rest))
    | inr e ↦ rw e (contains-keep_dropped c xs h)
  ]

  contains-keep_head : (x : String) (xs : List String) → contains x (keep p (x ∷ xs)) ≡ p x
  contains-keep_head x xs = elim (Bool-cases (p x)) [
    | inl e ↦ rw (e, eq_refl x) refl
    | inr e ↦ rw e (contains-keep_dropped x xs e)
  ]

  -- An element is in the filtered list where it passes the filter.
  contains-keep : (xs : List String) → All (λ c. contains c (keep p xs) ≡ p c) xs
  contains-keep [] = tt
  contains-keep (x ∷ xs) = (
    contains-keep_head x xs,
    All-map xs (λ c h. contains-keep_step x c (keep p xs) h) (contains-keep xs),
  )

  keep_rest :
      (ms xs : List String)
      → All (λ c. contains c ms ≡ p c) xs
      → keep (λ c. not (contains c ms)) xs ≡ keep (λ c. not (p c)) xs
  keep_rest ms [] h = refl
  keep_rest ms (x ∷ xs) (h, hs) = rw (h, keep_rest ms xs hs) refl

kept_lem : (f : String) (cs : List String) → kept f cs ≡ keep (λ c. not (is_target f c)) cs
kept_lem f cs = keep_rest (is_target f) (matching f cs) cs (contains-keep (is_target f) cs)

is_pin-prefix : (f : String) → is_pin (append "node.hostname==" f) ≡ true
unfolding is_pin
is_pin-prefix f =
    rw
      (
        without_spaces-append "node.hostname==" f,
        drop_prefix-append "node.hostname==" (without_spaces f),
      )
      refl

is_pin-of_same :
    (g c : String)
    → without_spaces c ≡ without_spaces (append "node.hostname==" g)
    → is_pin c ≡ true
unfolding is_pin
is_pin-of_same g c e =
    rw
      (
        e,
        without_spaces-append "node.hostname==" g,
        drop_prefix-append "node.hostname==" (without_spaces g),
      )
      refl

is_pin-of_target : (f c : String) → is_target f c ≡ true → is_pin c ≡ true
unfolding is_target
is_pin-of_target f c h =
    elim (Bool-cases (str_eq (without_spaces c) (without_spaces (append "node.hostname==" f)))) [
      | inl e ↦ is_pin-of_same f c ((eq_iff _ _).0 e)
      | inr e ↦ is_pin-of_same (before_dot f) c ((eq_iff _ _).0 (rw e at h))
    ]

is_target_self : (f : String) → is_target f (append "node.hostname==" f) ≡ true
unfolding is_target
is_target_self f = rw (eq_refl (without_spaces (append "node.hostname==" f))) refl

append-nil : (xs : List String) → xs ++ [] ≡ xs
append-nil [] = refl
append-nil (x ∷ xs) = rw (append-nil xs) refl

-- The constraints that are no pin.
abbrev pub unpinned : List String → List String
unpinned = keep (λ c. not (is_pin c))

-- A constraint that is no pin is none to `f`.
not_target : (f c : String) → not (is_pin c) ≡ true → not (is_target f c) ≡ true
not_target f c h = elim (Bool-cases (is_target f c)) [
  | inl t ↦ absurd (cc (rw (is_pin-of_target f c t) at h))
  | inr t ↦ rw t refl
]

kept-pinned : (f : String) (cs : List String) → kept f (pinned f cs) ≡ unpinned cs
unfolding pinned
kept-pinned f cs =
    rw
      (
        kept_lem f (pinned f cs),
        keep-append (λ c. not (is_target f c)) (unpinned cs) (append "node.hostname==" f ∷ []),
        is_target_self f,
        append-nil,
      )
      (keep_whole (λ c. not (is_target f c)) (unpinned cs)
        (All-keep (λ c. not (is_target f c) ≡ true) (λ c. not (is_pin c)) cs (not_target f)))

pinned-pinned : (f g : String) (cs : List String) → pinned f (pinned g cs) ≡ pinned f cs
unfolding pinned
pinned-pinned f g cs =
    rw
      (
        keep-append (λ c. not (is_pin c)) (unpinned cs) (append "node.hostname==" g ∷ []),
        is_pin-prefix g,
        append-nil,
      )
      (ap (λ xs. xs ++ append "node.hostname==" f ∷ [])
        (keep_whole (λ c. not (is_pin c)) (unpinned cs)
          (All-keep (λ c. not (is_pin c) ≡ true) (λ c. not (is_pin c)) cs (λ c h. h))))

is_nil-append : (xs : List String) (x : String) → is_nil (xs ++ x ∷ []) ≡ false
is_nil-append [] x = refl
is_nil-append (y ∷ xs) x = refl

matching-pinned : (f : String) (cs : List String) → is_nil (matching f (pinned f cs)) ≡ false
unfolding pinned
matching-pinned f cs =
    rw (keep-append (is_target f) (unpinned cs) (append "node.hostname==" f ∷ []), is_target_self f)
      (is_nil-append (keep (is_target f) (unpinned cs)) (append "node.hostname==" f))

is_nil-cases : (xs : List String) → (xs ≡ []) ⊎ (is_nil xs ≡ false)
is_nil-cases [] = inl refl
is_nil-cases (x ∷ xs) = inr refl

not_of_false : (b : Bool) → b ≡ false → not b ≡ true
not_of_false b h = rw h refl

module _ (fails : PlacedService → Bool) (f : String) where
  -- What is asked of a removal of the pins to `f`: the services whose updates go through lose these
  -- constraints, and no others.
  abbrev pub expected : PlacedService → PlacedService
  expected svc =
      if fails svc
      then svc
      else record svc { constraints = keep (λ c. not (is_target f c)) svc.constraints }

  abbrev pub has_pin : PlacedService → Bool
  has_pin svc = not (is_nil (matching f svc.constraints))

  unpin_one_lem :
      (svc : PlacedService)
      → unpin_one fails f false svc
        ≡ (if has_pin svc && not (fails svc) then 1 else 0, expected svc)
  unfolding unpin_one
  unpin_one_lem svc = elim (is_nil-cases (matching f svc.constraints)) [
    | inl e ↦
        let none_there = keep-none (is_target f) svc.constraints e in
        let same =
          keep_whole (λ c. not (is_target f c)) svc.constraints
            (All-map svc.constraints (λ c. not_of_false (is_target f c)) none_there) in
        ground (arith, e, same)
    | inr e ↦ ground (arith, e, kept_lem f svc.constraints)
  ]

  pub unpin_all_lem :
      (svcs : List PlacedService)
      → unpin_all fails f false svcs
        ≡ (count_if (λ svc. has_pin svc && not (fails svc)) svcs, map expected svcs)
  unfolding unpin_all
  unpin_all_lem [] = refl
  unpin_all_lem (svc ∷ svcs) = rw (unpin_one_lem svc, unpin_all_lem svcs) (ground arith)

  pub unpin_all-dry :
      (svcs : List PlacedService) → unpin_all fails f true svcs ≡ (count_if has_pin svcs, svcs)
  unfolding unpin_all unpin_one
  unpin_all-dry [] = refl
  unpin_all-dry (svc ∷ svcs) = ground (arith, unpin_all-dry svcs)

  -- Where the services can be listed, the pins to a node, and no other constraints, are gone from
  -- every service whose update goes through, a service whose update fails is as it was, and the
  -- number is that of the services that had such a pin and were updated.
  pub unpin_services_from_node-clears :
      (svcs : List PlacedService)
      → unpin_services_from_node fails f false none svcs
        ≡ (returns (count_if (λ svc. has_pin svc && not (fails svc)) svcs), map expected svcs)
  unfolding unpin_services_from_node
  unpin_services_from_node-clears svcs = rw (unpin_all_lem svcs) refl

  -- A dry run changes no service, and gives the number of services with a pin to the node: the number
  -- that a run gives whose updates go through.
  pub unpin_services_from_node-dry :
      (svcs : List PlacedService)
      → unpin_services_from_node fails f true none svcs ≡ (returns (count_if has_pin svcs), svcs)
  unfolding unpin_services_from_node
  unpin_services_from_node-dry svcs = rw (unpin_all-dry svcs) refl

  -- A service without a pin that is pinned to one node, then to another, and whose pin to the latter
  -- is then removed, is as it was, provided that the services can be listed and its update goes
  -- through.
  pub unpin-pin :
      (g : String) (svc svc₁ svc₂ : PlacedService)
      → All (λ c. not (is_pin c) ≡ true) svc.constraints
      → pin_service_to_node none g svc ≡ returns svc₁
      → pin_service_to_node none f svc₁ ≡ returns svc₂
      → fails svc₂ ≡ false
      → unpin_services_from_node fails f false none (svc₂ ∷ []) ≡ (returns 1, svc ∷ [])
  unpin-pin g svc svc₁ svc₂ clean e₁ e₂ ok =
      let first : svc₁ ≡ record svc { constraints = pinned g svc.constraints } =
        sym (returns-injective e₁) in
      let second : svc₂ ≡ record svc { constraints = pinned f (pinned g svc.constraints) } =
        sym (returns-injective (rw first at e₂)) in
      let back : keep (λ c. not (is_target f c)) svc₂.constraints ≡ svc.constraints = rw second (
        rw (pinned-pinned f g svc.constraints) (
          sym (kept_lem f (pinned f svc.constraints))
          ∙ kept-pinned f svc.constraints
          ∙ keep_whole (λ c. not (is_pin c)) svc.constraints clean)) in
      let there : is_nil (matching f svc₂.constraints) ≡ false =
        rw second (matching-pinned f (pinned g svc.constraints)) in
      rw (unpin_services_from_node-clears (svc₂ ∷ []), ok, there, back) (rw second refl)
