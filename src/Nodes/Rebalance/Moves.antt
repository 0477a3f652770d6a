-- ===== src/Nodes/Rebalance/Moves.antt =====
-- What every move of a plan keeps, from the start of phase 1 to the end of phase 2.
use mathlib.Core.List.{reverse, reverse-reverse}
use mathlib.Core.Path.{subst}
use code_server_spawner.Common.{
  ℕ, zero, suc, ◌+◌, ◌-◌, String, true, false, Option, none, some, List, [], ◌∷◌, ◌≡◌, refl, ap,
  ◌∙◌, ◌⊎◌, inl, inr, arith, leb, str_eq, eq_iff, Bool-cases, List-cases, returns,
  returns-injective,
}
use code_server_spawner.Common.Dict.{contains}
use code_server_spawner.Nodes.Rebalance.{
  Members, users, load, Plan, Flow, returned, proceeds, move, capped, least_from, most_from,
  least_loaded_target, level_step, level, evacuate, evacuate_all, set_defaults, keys, sum_squares,
  plan_state,
}
use code_server_spawner.Nodes.Rebalance.Loads.{
  contains-least_from, contains-most_from, users-insert_ne, users-insert_self,
}

-- What holds of the plan at the end of a phase.
abbrev pub FlowKeeps : (Plan → Type 0) → Flow → Type 0
FlowKeeps P (returned q) = P q
FlowKeeps P (proceeds q) = P q

pub flow-cases : (f : Flow) → ((q : Plan) × (f ≡ returned q)) ⊎ ((q : Plan) × (f ≡ proceeds q))
flow-cases (returned q) = inl (q, refl)
flow-cases (proceeds q) = inr (q, refl)

pub target-cases :
    (order : List String) (m : Members)
    → ((order ≡ []) × (least_loaded_target m order ≡ none))
      ⊎ ((tgt : String) × (least_loaded_target m order ≡ some tgt) × (contains tgt order ≡ true))
target-cases order m = elim (List-cases order) [
  | inl e ↦ inl (e, rw e refl)
  | inr (n, ns, e) ↦ inr (least_from m n ns, rw e refl, rw e (contains-least_from m n ns))
]

-- A name in the list and one that is not are different.
pub apart :
    (order : List String) (src tgt : String)
    → contains src order ≡ false
    → contains tgt order ≡ true
    → str_eq src tgt ≡ false
apart order src tgt out inside = elim (Bool-cases (str_eq src tgt)) [
  | inr e ↦ e
  | inl e ↦
      let same = (eq_iff src tgt).0 e in
      let bad : contains src order ≡ true = rw same inside in ground (arith, bad, out)
]

-- After a move away from `src`, the users there are those that the pop left.
pub users-move_src :
    (user : String) (rest : List String) (src tgt : String) (p : Plan)
    → str_eq src tgt ≡ false
    → users (move user rest src tgt p).members src ≡ rest
users-move_src user rest src tgt p ne =
    let flip : str_eq tgt src ≡ false = ground (arith, eq_iff src tgt, eq_iff tgt src) in
    rw (users-insert_ne tgt src _ _ flip) (users-insert_self src rest p.members)

-- A node other than the two of a move has the users that it had.
pub users-move_other :
    (user : String) (rest : List String) (src tgt n : String) (p : Plan)
    → str_eq src n ≡ false
    → str_eq tgt n ≡ false
    → users (move user rest src tgt p).members n ≡ users p.members n
users-move_other user rest src tgt n p s t =
    rw (users-insert_ne tgt n _ _ t) (users-insert_ne src n rest p.members s)

-- What phase 2 does in a round.
pub level_step-moves :
    (order : List String) (cap : Option ℕ) (p : Plan) (src tgt : String)
    → (level_step order cap p src tgt ≡ none)
      ⊎ ((user : String) × (rest : List String) × (level_step order cap p src tgt
            ≡ some (move user (reverse rest) src tgt p))
          × (str_eq src tgt ≡ false)
          × (reverse (users p.members src) ≡ user ∷ rest))
unfolding level_step
level_step-moves order cap p src tgt = elim (Bool-cases (str_eq src tgt)) [
  | inl same ↦ inl (rw same refl)
  | inr ne ↦ elim (Bool-cases (leb (load p.members src - load p.members tgt) 1)) [
    | inl close ↦ inl (rw (ne, close) refl)
    | inr far ↦ elim (List-cases (reverse (users p.members src))) [
      | inl e ↦ inl (rw (ne, far, e) refl)
      | inr (user, rest, e) ↦ inr (user, rest, rw (ne, far, e) refl, ne, e)
    ]
  ]
]

module _ (order : List String) (cap : Option ℕ) (P : Plan → Type 0) where
  -- What a move of phase 2 has to keep.
  abbrev pub LevelMove : Type 0
  LevelMove =
      (p : Plan) (user : String) (rest : List String) (src tgt : String)
      → P p
      → capped cap p.moves ≡ false
      → contains src order ≡ true
      → contains tgt order ≡ true
      → str_eq src tgt ≡ false
      → reverse (users p.members src) ≡ user ∷ rest
      → P (move user (reverse rest) src tgt p)

  -- What a move of phase 1 has to keep.
  abbrev pub EvacuateMove : Type 0
  EvacuateMove =
      (p : Plan) (user : String) (rest : List String) (src tgt : String)
      → P p
      → capped cap p.moves ≡ false
      → contains src order ≡ false
      → contains tgt order ≡ true
      → str_eq src tgt ≡ false
      → reverse (users p.members src) ≡ user ∷ rest
      → P (move user (reverse rest) src tgt p)

  pub level-keeps :
      LevelMove → (fuel : ℕ) (p q : Plan) → P p → level order cap fuel p ≡ returns q → P q
  unfolding level
  level-keeps keeps zero p q h e = subst P (returns-injective e) h
  level-keeps keeps (suc fuel) p q h e = elim (Bool-cases (capped cap p.moves)) [
    | inl full ↦ subst P (returns-injective (rw full at e)) h
    | inr room ↦ elim (List-cases order) [
      | inl empty ↦ absurd (cc (rw (room, empty) at e))
      | inr (n, ns, o) ↦
          let src = most_from p.members n ns in
          let tgt = least_from p.members n ns in
          elim (level_step-moves order cap p src tgt) [
            | inl stop ↦ subst P (returns-injective (rw (room, o, stop) at e)) h
            | inr (user, rest, step, ne, us) ↦
                let s : contains src order ≡ true = rw o (contains-most_from p.members n ns) in
                let t : contains tgt order ≡ true = rw o (contains-least_from p.members n ns) in
                level-keeps keeps fuel (move user (reverse rest) src tgt p) q
                  (keeps p user rest src tgt h room s t ne us) (ground (arith, e, room, o, step))
          ]
    ]
  ]

  pub evacuate-keeps :
      EvacuateMove
      → (src : String) (us : List String) (p : Plan) → contains src order ≡ false
      → reverse (users p.members src) ≡ us
      → P p
      → FlowKeeps P (evacuate order cap src us p)
  unfolding evacuate
  evacuate-keeps keeps src [] p out left h = h
  evacuate-keeps keeps src (user ∷ rest) p out left h = elim (Bool-cases (capped cap p.moves)) [
    | inl full ↦ rw full h
    | inr room ↦ elim (target-cases order p.members) [
      | inl (_, stuck) ↦ rw (room, stuck) h
      | inr (tgt, e, t) ↦
          let ne = apart order src tgt out t in
          rw (room, e)
            (evacuate-keeps keeps src rest (move user (reverse rest) src tgt p) out
              (ap reverse (users-move_src user (reverse rest) src tgt p ne) ∙ reverse-reverse rest)
              (keeps p user rest src tgt h room out t ne left))
    ]
  ]

  pub evacuate_all-keeps :
      EvacuateMove
      → (srcs : List String) (p : Plan) → P p
      → FlowKeeps P (evacuate_all order cap srcs p)
  unfolding evacuate_all
  evacuate_all-keeps keeps [] p h = h
  evacuate_all-keeps keeps (src ∷ srcs) p h = elim (Bool-cases (contains src order)) [
    | inl e ↦ rw e (evacuate_all-keeps keeps srcs p h)
    | inr e ↦
        let kept = evacuate-keeps keeps src (reverse (users p.members src)) p e refl h in
        elim (flow-cases (evacuate order cap src (reverse (users p.members src)) p)) [
          | inl (q, f) ↦ rw (e, f) (rw f at kept)
          | inr (q, f) ↦ rw (e, f) (evacuate_all-keeps keeps srcs q (rw f at kept))
        ]
  ]

-- What both kinds of moves keep holds at the end of a plan, when it holds at its start.
pub plan_state-keeps :
    (order : List String) (cap : Option ℕ) (P : Plan → Type 0)
    → EvacuateMove order cap P
    → LevelMove order cap P
    → (m : Members) (eligible : List String) (q : Plan)
    → P (record { members = set_defaults eligible m; moves = [] })
    → plan_state m eligible order cap ≡ returns q
    → P q
unfolding plan_state
plan_state-keeps order cap P first second m eligible q h e =
    let start = set_defaults eligible m in
    let p : Plan = record { members = start; moves = [] } in
    let kept = evacuate_all-keeps order cap P first (keys start) p h in
    elim (flow-cases (evacuate_all order cap (keys start) p)) [
      | inl (r, f) ↦ subst P (returns-injective (rw (plan_state, f) at e)) (rw f at kept)
      | inr (r, f) ↦
          level-keeps order cap P second (sum_squares r.members order + 1) r q (rw f at kept)
            (rw (plan_state, f) at e)
    ]
