-- ===== src/Nodes/Rebalance/Bounds.antt =====
-- What a plan may ask for: its targets, its length, and the users it moves.
use mathlib.Core.List.{reverse, reverse-append}
use mathlib.Core.Path.{subst}
use code_server_spawner.Common.{
  Outcome-cases, ℕ, ◌+◌, ◌≤◌, String, Bool, true, false, Option, none, some, List, [], ◌∷◌, ◌++◌,
  ◌≡◌, refl, sym, ap, ◌∙◌, inl, inr, arith, length, length-append, count_if, str_eq, All, returns,
  not_leb→lt, returns-injective, Option-cases,
}
use code_server_spawner.Common.Dict.{contains, insert, lookup}
use code_server_spawner.Nodes.Rebalance.{
  Members, users, Move, Plan, move, capped, set_defaults, plan_state, plan_rebalance,
}
use code_server_spawner.Nodes.Rebalance.Moves.{EvacuateMove, LevelMove, plan_state-keeps}

-- A move to another node, and an eligible one.
abbrev pub IsMove : List String → Move → Type 0
IsMove order (user, src, tgt) = (contains tgt order ≡ true) × (str_eq src tgt ≡ false)

abbrev pub Within : Option ℕ → List Move → Type 0
Within none moves = Unit
Within (some k) moves = length moves ≤ k

-- Moves to other, eligible nodes, and no more of them than the cap.
abbrev pub IsBounded : List String → Option ℕ → List Move → Type 0
IsBounded order cap moves = All (IsMove order) moves × Within cap moves

All-snoc :
    (order : List String) (ms : List Move) (mv : Move)
    → All (IsMove order) ms
    → IsMove order mv
    → All (IsMove order) (ms ++ mv ∷ [])
All-snoc order [] mv hs h = (h, tt)
All-snoc order (x ∷ ms) mv (hx, hs) h = (hx, All-snoc order ms mv hs h)

Within-snoc :
    (cap : Option ℕ) (ms : List Move) (mv : Move)
    → capped cap ms ≡ false
    → Within cap (ms ++ mv ∷ [])
Within-snoc none ms mv h = tt
Within-snoc (some k) ms mv h =
    let less = not_leb→lt k (length ms) h in omega (arith, length-append ms (mv ∷ []))

Within-nil : (cap : Option ℕ) → Within cap []
Within-nil none = tt
Within-nil (some k) = omega arith

-- A plan asks only for moves to other, eligible nodes, and for no more of them than the cap.
pub plan_rebalance-IsBounded :
    (m : Members) (eligible order : List String) (cap : Option ℕ) (moves : List Move)
    → plan_rebalance m eligible order cap ≡ returns moves
    → IsBounded order cap moves
unfolding plan_rebalance
plan_rebalance-IsBounded m eligible order cap moves h =
    let P = λ (p : Plan). IsBounded order cap p.moves in
    let first : EvacuateMove order cap P = λ p user rest src tgt (good, _) room s t ne us.
      (All-snoc order p.moves (user, src, tgt) good (t, ne), Within-snoc cap p.moves _ room) in
    let second : LevelMove order cap P = λ p user rest src tgt (good, _) room s t ne us.
      (All-snoc order p.moves (user, src, tgt) good (t, ne), Within-snoc cap p.moves _ room) in
    elim (Outcome-cases (plan_state m eligible order cap)) [
      | inl (e, f) ↦ absurd (cc (rw (plan_rebalance, f) at h))
      | inr (q, f) ↦
          subst (IsBounded order cap) (returns-injective (rw (plan_rebalance, f) at h))
            (plan_state-keeps order cap P first second m eligible q (tt, Within-nil cap) f)
    ]

-- How often a user stands in a placement, over all nodes.
abbrev pub places : String → Members → ℕ
places u [] = 0
places u ((n, us) ∷ m) = count_if (str_eq u) us + places u m

count_if-append :
    (p : String → Bool) (xs ys : List String)
    → count_if p (xs ++ ys) ≡ count_if p xs + count_if p ys
count_if-append p [] ys = omega arith
count_if-append p (x ∷ xs) ys = ground (arith, count_if-append p xs ys)

count_if-reverse : (p : String → Bool) (xs : List String) → count_if p (reverse xs) ≡ count_if p xs
count_if-reverse p [] = refl
count_if-reverse p (x ∷ xs) =
    rw (reverse-append (x ∷ []) xs, count_if-append p (reverse xs) (x ∷ []))
      (ground (arith, count_if-reverse p xs))

places-insert :
    (u k : String) (v : List String) (m : Members)
    → places u (insert k v m) + count_if (str_eq u) (users m k) ≡ places u m + count_if (str_eq u) v
places-insert u k v [] = omega arith
places-insert u k v ((j, w) ∷ m) = ground (arith, places-insert u k v m)

places-move :
    (u user : String) (rest : List String) (src tgt : String) (p : Plan)
    → reverse (users p.members src) ≡ user ∷ rest
    → places u (move user (reverse rest) src tgt p).members ≡ places u p.members
places-move u user rest src tgt p e =
    let left = insert src (reverse rest) p.members in
    let taken = places-insert u src (reverse rest) p.members in
    let given = places-insert u tgt (users left tgt ++ user ∷ []) left in
    let split = count_if-append (str_eq u) (users left tgt) (user ∷ []) in
    let back = count_if-reverse (str_eq u) rest in
    let all =
      sym (count_if-reverse (str_eq u) (users p.members src)) ∙ ap (count_if (str_eq u)) e in
    ground arith

places-set_defaults :
    (u : String) (ns : List String) (m : Members) → places u (set_defaults ns m) ≡ places u m
unfolding set_defaults
places-set_defaults u [] m = refl
places-set_defaults u (n ∷ ns) m = elim (Option-cases (lookup n m)) [
  | inl e ↦
      let here = places-insert u n [] m in
      rw e (places-set_defaults u ns (insert n [] m) ∙ (ground (arith, here, e)))
  | inr (us, e) ↦ rw e (places-set_defaults u ns m)
]

-- A plan loses nobody and doubles nobody: each user stands as often in the placement that it ends
-- with as in the one that it is given.
pub places-plan_state :
    (m : Members) (eligible order : List String) (cap : Option ℕ) (q : Plan)
    → plan_state m eligible order cap ≡ returns q
    → (u : String) → places u q.members ≡ places u m
places-plan_state m eligible order cap q h u =
    plan_state-keeps order cap (λ p. places u p.members ≡ places u m)
      (λ p user rest src tgt same room s t ne us. places-move u user rest src tgt p us ∙ same)
      (λ p user rest src tgt same room s t ne us. places-move u user rest src tgt p us ∙ same) m
      eligible q (places-set_defaults u eligible m) h
