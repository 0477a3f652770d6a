-- ===== src/Nodes/Rebalance/Level.antt =====
-- The rounds of phase 2 and how they end.
use mathlib.Core.Path.{subst}
use mathlib.Core.List.{reverse}
use code_server_spawner.Common.{
  ℕ, zero, suc, ◌+◌, ◌-◌, ◌≤◌, ◌<◌, String, true, Option, none, some, List, ◌∷◌, ◌≡◌, refl, sym, ap,
  ◌∙◌, ◌⊎◌, inl, inr, arith, leb, length, str_eq, eq_iff, All, Bool-cases, List-cases, leb→le,
  not_leb→lt, returns,
}
use code_server_spawner.Common.Dict.{contains}
use code_server_spawner.Common.Sort.Laws.{All-map}
use code_server_spawner.Nodes.Rebalance.{
  Members, users, load, Plan, move, capped, least_from, most_from, level_step, level, sum_squares,
}
use code_server_spawner.Nodes.Rebalance.Loads.{
  Distinct, length-reverse, least_from_bounds, most_from_bounds, contains-least_from,
  contains-most_from, move-lowers,
}

-- The loads of the nodes `ns` differ by at most 1.
abbrev pub IsLevel : Members → List String → Type 0
IsLevel m ns = All (λ a. All (λ b. load m a ≤ load m b + 1) ns) ns

-- Between two bounds that differ by at most 1, everything is level.
IsLevel-bounds :
    (m : Members) (lo hi : ℕ) (ns : List String)
    → hi ≤ lo + 1
    → All (λ n. lo ≤ load m n) ns
    → All (λ n. load m n ≤ hi) ns
    → IsLevel m ns
IsLevel-bounds m lo hi ns h below above =
    All-map ns (λ a ha. All-map ns (λ b hb. omega arith) below) above

-- What a round of phase 2 does between two nodes of `order`.
module _ (order : List String) (d : Distinct order) (p : Plan) (src tgt : String) (cap : Option ℕ)
    (s : contains src order ≡ true) (t : contains tgt order ≡ true) where
  level_step-cases :
      (level_step order cap p src tgt ≡ none × (load p.members src ≤ load p.members tgt + 1))
      ⊎ ((q : Plan) × (level_step order cap p src tgt ≡ some q)
          × (sum_squares q.members order < sum_squares p.members order))
  unfolding level_step
  level_step-cases = elim (Bool-cases (str_eq src tgt)) [
    | inl same ↦
        let e : src ≡ tgt = (eq_iff src tgt).0 same in
        inl (rw same refl, subst (λ n. load p.members src ≤ load p.members n + 1) e (omega arith))
    | inr ne ↦ elim (Bool-cases (leb (load p.members src - load p.members tgt) 1)) [
      | inl close ↦
          let bound = leb→le (load p.members src - load p.members tgt) 1 close in
          inl (rw (ne, close) refl, omega arith)
      | inr far ↦
          let gap = not_leb→lt (load p.members src - load p.members tgt) 1 far in
          elim (List-cases (reverse (users p.members src))) [
            | inl e ↦
                let none_left = sym (length-reverse (users p.members src)) ∙ ap length e in
                absurd (omega arith)
            | inr (user, rest, e) ↦ inr (
              move user (reverse rest) src tgt p,
              rw (ne, far, e) refl,
              move-lowers src tgt user rest p order d s t ne e (omega arith),
            )
          ]
    ]
  ]

-- A plan that has reached the cap, or one whose loads are level.
abbrev pub Settled : List String → Option ℕ → Plan → Type 0
Settled order cap p = (capped cap p.moves ≡ true) ⊎ IsLevel p.members order

pub level-Settled :
    (n : String) (ns : List String) (cap : Option ℕ) (fuel : ℕ) (p : Plan)
    → Distinct (n ∷ ns)
    → sum_squares p.members (n ∷ ns) < fuel
    → (q : Plan) × (level (n ∷ ns) cap fuel p ≡ returns q) × Settled (n ∷ ns) cap q
unfolding level
level-Settled n ns cap zero p d h = absurd (omega arith)
level-Settled n ns cap (suc fuel) p d h = elim (Bool-cases (capped cap p.moves)) [
  | inl full ↦ (p, rw full refl, inl full)
  | inr room ↦
      let src = most_from p.members n ns in
      let tgt = least_from p.members n ns in
      elim (level_step-cases (n ∷ ns) d p src tgt cap (contains-most_from p.members n ns)
        (contains-least_from p.members n ns)) [
          | inl (stop, close) ↦
              let below = least_from_bounds p.members n ns in
              let above = most_from_bounds p.members n ns in
              (
                p,
                rw (room, stop) refl,
                inr (
                    IsLevel-bounds p.members (load p.members tgt) (load p.members src) (n ∷ ns)
                      close below above),
              )
          | inr (q, step, less) ↦
              let (r, e, settled) = level-Settled n ns cap fuel q d (omega arith) in
              (r, rw (room, step) e, settled)
        ]
]
