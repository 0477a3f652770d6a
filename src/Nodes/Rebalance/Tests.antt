-- ===== src/Nodes/Rebalance/Tests.antt =====
-- The planner on small placements.
use code_server_spawner.Common.{
  String, ◌≡◌, refl, none, some, List, [], ◌∷◌, returns, raises, empty_max,
}
use code_server_spawner.Nodes.Rebalance.{Members, Plan, plan_state, plan_rebalance}
use code_server_spawner.Nodes.Rebalance.Clears.{IsDone, plan_state-IsDone}
use code_server_spawner.Nodes.Rebalance.Bounds.{
  IsBounded, plan_rebalance-IsBounded, places, places-plan_state,
}

-- Node `c` is drained; its host goes to the empty `b`, and then `a` gives one of its three.
abbrev placement : Members
placement = ("a", "u" ∷ "v" ∷ "w" ∷ []) ∷ ("c", "x" ∷ []) ∷ []

abbrev targets : List String
targets = "a" ∷ "b" ∷ []

plan_rebalance-placement :
    plan_rebalance placement targets targets none ≡ returns (("x", "c", "b") ∷ ("w", "a", "b") ∷ [])
unfolding plan_rebalance
plan_rebalance-placement = refl

-- With nothing to place and no eligible node the call raises.
plan_rebalance-empty : plan_rebalance [] [] [] none ≡ raises empty_max
unfolding plan_rebalance
plan_rebalance-empty = refl

abbrev levelled : Plan
levelled = record {
  members = ("a", "u" ∷ "v" ∷ []) ∷ ("c", []) ∷ ("b", "x" ∷ "w" ∷ []) ∷ [];
  moves = ("x", "c", "b") ∷ ("w", "a", "b") ∷ [];
}

plan_state-placement : plan_state placement targets targets none ≡ returns levelled
unfolding plan_state
plan_state-placement = refl

plan_state-IsDone_example :
    (q : Plan) × (plan_state placement targets targets (some 5) ≡ returns q)
    × IsDone targets (some 5) q
plan_state-IsDone_example =
    plan_state-IsDone placement targets "a" ("b" ∷ []) (some 5) (refl, (refl, tt))

capped_at_one : plan_rebalance placement targets targets (some 1) ≡ returns (("x", "c", "b") ∷ [])
unfolding plan_rebalance
capped_at_one = refl

plan_rebalance-IsBounded_example : IsBounded targets (some 1) (("x", "c", "b") ∷ [])
plan_rebalance-IsBounded_example =
    plan_rebalance-IsBounded placement targets targets (some 1) (("x", "c", "b") ∷ []) capped_at_one

places-plan_state_example : places "w" levelled.members ≡ places "w" placement
places-plan_state_example =
    places-plan_state placement targets targets none levelled plan_state-placement "w"
