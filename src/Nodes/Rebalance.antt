-- ===== src/Nodes/Rebalance.antt =====
-- Levelling the hosts over the nodes: `plan_rebalance` of cspawn/cli/node.py. The order in which
-- Python iterates over `set(eligible)` is an argument, `order`; it is one order for the whole call,
-- since the set does not change.
pub mod Loads
pub mod Level
pub mod Moves
pub mod Clears
pub mod Bounds
mod Tests
use code_server_spawner.Common.{
  ℕ, zero, suc, ◌+◌, ◌-◌, ◌*◌, String, Bool, true, false, Option, none, some, List, [], ◌∷◌, ◌++◌,
  leb, ltb, length, str_eq, if◌then◌else◌, Outcome, returns, raises, empty_max,
}
use mathlib.Core.List.{reverse}
use code_server_spawner.Common.Dict.{Dict, insert, get_or, lookup, contains}

-- The users on each node, by the node's short name.
abbrev pub Members : Type 0
Members = Dict (List String)

abbrev pub users : Members → String → List String
users m n = get_or n m []

abbrev pub load : Members → String → ℕ
load m n = length (users m n)

-- A user, the node that the user's host leaves and the one that it goes to.
abbrev pub Move : Type 0
Move = String × String × String

-- The two variables of the loops.
pub record Plan : Type 0 where
  pub members : Members
  pub moves : List Move

-- `members.setdefault(n, [])` for every eligible node
pub set_defaults : List String → Members → Members
set_defaults [] m = m
set_defaults (n ∷ ns) m = set_defaults ns (elim (lookup n m) [ none ↦ insert n [] m | some _ ↦ m ])

-- `_capped()`
abbrev pub capped : Option ℕ → List Move → Bool
capped none moves = false
capped (some k) moves = leb k (length moves)

-- `min(ns, key=lambda n: len(members[n]))`, the first of the least loaded
abbrev pub least_from : Members → String → List String → String
least_from m best [] = best
least_from m best (n ∷ ns) = least_from m (if ltb (load m n) (load m best) then n else best) ns

-- `max(ns, key=lambda n: len(members[n]))`, the first of the most loaded
abbrev pub most_from : Members → String → List String → String
most_from m best [] = best
most_from m best (n ∷ ns) = most_from m (if ltb (load m best) (load m n) then n else best) ns

-- `_least_loaded_target()`
abbrev pub least_loaded_target : Members → List String → Option String
least_loaded_target m [] = none
least_loaded_target m (n ∷ ns) = some (least_from m n ns)

-- `user = members[src].pop(); members[tgt].append(user); moves.append((user, src, tgt))`, where
-- `rest` is what the pop leaves
abbrev pub move : String → List String → String → String → Plan → Plan
move user rest src tgt p =
    let left = insert src rest p.members in
    record {
      members = insert tgt (users left tgt ++ user ∷ []) left;
      moves = p.moves ++ (user, src, tgt) ∷ [];
    }

-- What ends a phase: `return moves`, or the end of the loop.
pub data Flow : Type 0 where
  returned proceeds : Plan → Flow

module _ (order : List String) (max_moves : Option ℕ) where
  -- `while members[src]:` of phase 1. The first list holds the users that are still on `src`, the
  -- last of them first.
  pub evacuate : String → List String → Plan → Flow
  evacuate src [] p = proceeds p
  evacuate src (user ∷ rest) p =
      let next = λ (tgt : String). evacuate src rest (move user (reverse rest) src tgt p) in
      if capped max_moves p.moves
      then returned p
      else elim (least_loaded_target p.members order) [ none ↦ returned p | some tgt ↦ next tgt ]

  -- `for src in list(members):` of phase 1
  pub evacuate_all : List String → Plan → Flow
  unfolding evacuate
  evacuate_all [] p = proceeds p
  evacuate_all (src ∷ srcs) p =
      if contains src order
      then evacuate_all srcs p
      else elim (evacuate src (reverse (users p.members src)) p) [
        | returned q ↦ returned q
        | proceeds q ↦ evacuate_all srcs q
      ]

  -- One round of phase 2: nothing where the loop breaks.
  pub level_step : Plan → String → String → Option Plan
  level_step p src tgt =
      if str_eq src tgt
      then none
      else if leb (load p.members src - load p.members tgt) 1
      then none
      else elim (reverse (users p.members src)) [
        | [] ↦ none
        | user ∷ rest ↦ some (move user (reverse rest) src tgt p)
      ]

  -- `while not _capped():` of phase 2, with fuel. `max` raises over an empty set.
  pub level : ℕ → Plan → Outcome Plan
  unfolding level_step
  level zero p = returns p
  level (suc fuel) p = if capped max_moves p.moves then returns p else elim order [
    | [] ↦ raises empty_max
    | n ∷ ns ↦ elim (level_step p (most_from p.members n ns) (least_from p.members n ns)) [
      | none ↦ returns p
      | some q ↦ level fuel q
    ]
  ]

-- The sum of the squares of the loads, which every round of phase 2 lowers.
abbrev pub sum_squares : Members → List String → ℕ
sum_squares m [] = 0
sum_squares m (n ∷ ns) = load m n * load m n + sum_squares m ns

-- The keys of a dict, in order: `list(members)`
abbrev pub keys : Members → List String
keys [] = []
keys ((n, _) ∷ m) = n ∷ keys m

-- The state at the end of the two phases.
pub plan_state : Members → List String → List String → Option ℕ → Outcome Plan
unfolding set_defaults evacuate_all level
plan_state per_node eligible order max_moves =
    let start = set_defaults eligible per_node in
    elim (evacuate_all order max_moves (keys start) (record { members = start; moves = [] })) [
      | returned p ↦ returns p
      | proceeds p ↦ level order max_moves (sum_squares p.members order + 1) p
    ]

-- `plan_rebalance(per_node, eligible, max_moves)`
pub plan_rebalance : Members → List String → List String → Option ℕ → Outcome (List Move)
unfolding plan_state
plan_rebalance per_node eligible order max_moves =
    elim (plan_state per_node eligible order max_moves) [
      | returns p ↦ returns p.moves
      | raises e ↦ raises e
    ]
