-- ===== src/Nodes/Rebalance/Clears.antt =====
-- The end of a plan: what the nodes that are not eligible are left with, and how the plan stops.
use mathlib.Core.List.{reverse, reverse-reverse}
use code_server_spawner.Common.{
  ℕ, ◌+◌, String, true, false, Option, List, [], ◌∷◌, ◌≡◌, refl, sym, ap, ◌∙◌, ◌⊎◌, inl, inr, arith,
  str_eq, eq_iff, Bool-cases, returns,
}
use code_server_spawner.Common.Dict.{contains}
use code_server_spawner.Nodes.Rebalance.{
  Members, users, Plan, Flow, returned, proceeds, move, capped, evacuate, evacuate_all,
  set_defaults, keys, sum_squares, plan_state,
}
use code_server_spawner.Nodes.Rebalance.Loads.{Distinct}
use code_server_spawner.Nodes.Rebalance.Level.{IsLevel, level-Settled}
use code_server_spawner.Nodes.Rebalance.Moves.{
  LevelMove, flow-cases, target-cases, apart, users-move_src, users-move_other, level-keeps,
}

-- Every node that is not eligible is empty.
abbrev pub Cleared : List String → Plan → Type 0
Cleared order q = (n : String) → contains n order ≡ false → users q.members n ≡ []

-- The plan has reached the cap, or it is done: nobody is left on a node that is not eligible, and
-- the loads of the eligible ones differ by at most 1.
abbrev pub IsDone : List String → Option ℕ → Plan → Type 0
IsDone order cap q = (capped cap q.moves ≡ true) ⊎ (Cleared order q × IsLevel q.members order)

users-cons_ne :
    (k n : String) (us : List String) (m : Members)
    → str_eq k n ≡ false
    → users ((k, us) ∷ m) n ≡ users m n
users-cons_ne k n us m e = ground (arith, e)

contains-keys : (n : String) (m : Members) → (contains n (keys m) ≡ true) ⊎ (users m n ≡ [])
contains-keys n [] = inr refl
contains-keys n ((k, us) ∷ m) = elim (Bool-cases (str_eq k n)) [
  | inl e ↦ inl (rw e refl)
  | inr e ↦ elim (contains-keys n m) [
    | inl c ↦ inl (rw e c)
    | inr c ↦ inr (users-cons_ne k n us m e ∙ c)
  ]
]

module _ (order : List String) (cap : Option ℕ) (one : String)
    (nonempty : contains one order ≡ true) where
  -- How the inner loop of phase 1 ends.
  abbrev FlowClears : String → Plan → Flow → Type 0
  FlowClears src p (returned q) = capped cap q.moves ≡ true
  FlowClears src p (proceeds q) =
      (users q.members src ≡ [])
      × ((n : String)
          → contains n order ≡ false
          → str_eq src n ≡ false
          → users q.members n ≡ users p.members n)

  FlowClears-step :
      (src : String) (p r : Plan)
      → ((n : String)
          → contains n order ≡ false
          → str_eq src n ≡ false
          → users r.members n ≡ users p.members n)
      → (f : Flow) → FlowClears src r f
      → FlowClears src p f
  FlowClears-step src p r same (returned q) c = c
  FlowClears-step src p r same (proceeds q) (gone, kept) =
      (gone, λ n out ne. kept n out ne ∙ same n out ne)

  evacuate-clears :
      (src : String) (us : List String) (p : Plan)
      → contains src order ≡ false
      → reverse (users p.members src) ≡ us
      → FlowClears src p (evacuate order cap src us p)
  unfolding evacuate
  evacuate-clears src [] p out left =
      (sym (reverse-reverse (users p.members src)) ∙ ap reverse left, λ n _ _. refl)
  evacuate-clears src (user ∷ rest) p out left = elim (Bool-cases (capped cap p.moves)) [
    | inl full ↦ rw full full
    | inr room ↦ elim (target-cases order p.members) [
      | inl (none_there, _) ↦ absurd (cc (rw none_there at nonempty))
      | inr (tgt, e, t) ↦
          let ne = apart order src tgt out t in
          let r = move user (reverse rest) src tgt p in
          let later =
            evacuate-clears src rest r out (
              ap reverse (users-move_src user (reverse rest) src tgt p ne)
              ∙ reverse-reverse rest) in
          rw (room, e)
            (FlowClears-step src p r
              (λ n far ns.
                let flip : str_eq tgt n ≡ false =
                  ground (arith, apart order n tgt far t, eq_iff n tgt, eq_iff tgt n) in
                users-move_other user (reverse rest) src tgt n p ns flip)
              (evacuate order cap src rest r) later)
    ]
  ]

  -- How phase 1 ends, from the nodes still to come.
  abbrev AllClears : List String → Plan → Flow → Type 0
  AllClears srcs p (returned q) = capped cap q.moves ≡ true
  AllClears srcs p (proceeds q) =
      (n : String)
      → contains n order ≡ false
      → (contains n srcs ≡ true) ⊎ (users p.members n ≡ [])
      → users q.members n ≡ []

  AllClears-step :
      (src : String) (srcs : List String) (p r : Plan)
      → ((n : String)
          → contains n order ≡ false
          → (contains n (src ∷ srcs) ≡ true) ⊎ (users p.members n ≡ [])
          → (contains n srcs ≡ true) ⊎ (users r.members n ≡ []))
      → (f : Flow) → AllClears srcs r f
      → AllClears (src ∷ srcs) p f
  AllClears-step src srcs p r back (returned q) c = c
  AllClears-step src srcs p r back (proceeds q) c = λ n out here. c n out (back n out here)

  evacuate_all-clears :
      (srcs : List String) (p : Plan) → AllClears srcs p (evacuate_all order cap srcs p)
  unfolding evacuate_all
  evacuate_all-clears [] p = λ n out here. elim here [ inl c ↦ absurd (cc c) | inr e ↦ e ]
  evacuate_all-clears (src ∷ srcs) p = elim (Bool-cases (contains src order)) [
    | inl e ↦ rw e (
        AllClears-step src srcs p p
          (λ n out here. elim here [
            | inr c ↦ inr c
            | inl c ↦ inl (ground (arith, eq_iff src n, apart order n src out e, eq_iff n src))
          ])
          (evacuate_all order cap srcs p) (evacuate_all-clears srcs p))
    | inr e ↦
        let ends = evacuate-clears src (reverse (users p.members src)) p e refl in
        elim (flow-cases (evacuate order cap src (reverse (users p.members src)) p)) [
          | inl (q, f) ↦ rw (e, f) (rw f at ends)
          | inr (q, f) ↦
              let (gone, kept) : FlowClears src p (proceeds q) = rw f at ends in
              rw (e, f)
                (AllClears-step src srcs p q
                  (λ n out here. elim (Bool-cases (str_eq src n)) [
                    | inl s ↦ inr (ap (users q.members) (sym ((eq_iff src n).0 s)) ∙ gone)
                    | inr s ↦ elim here [ inl c ↦ inl (rw s at c) | inr c ↦ inr (kept n out s ∙ c) ]
                  ])
                  (evacuate_all order cap srcs q) (evacuate_all-clears srcs q))
        ]
  ]

  level-Cleared : LevelMove order cap (Cleared order)
  level-Cleared p user rest src tgt clear room s t ne us = λ n out.
      let s' = apart order n src out s in
      let t' = apart order n tgt out t in
      users-move_other user (reverse rest) src tgt n p (ground (arith, eq_iff n src, eq_iff src n))
        (ground (arith, eq_iff n tgt, eq_iff tgt n))
      ∙ clear n out

-- With an eligible node at all, and each in the order once, a plan comes to an end: at the cap of the moves, or with nobody left
-- on a node that is not eligible and with loads of the eligible ones that differ by at most 1.
pub plan_state-IsDone :
    (m : Members) (eligible : List String) (n : String) (ns : List String) (cap : Option ℕ)
    → Distinct (n ∷ ns)
    → (q : Plan) × (plan_state m eligible (n ∷ ns) cap ≡ returns q) × IsDone (n ∷ ns) cap q
unfolding plan_state
plan_state-IsDone m eligible n ns cap d =
    let start = set_defaults eligible m in
    let p : Plan = record { members = start; moves = [] } in
    let one : contains n (n ∷ ns) ≡ true = ground (arith, eq_iff n n) in
    let ends = evacuate_all-clears (n ∷ ns) cap n one (keys start) p in
    elim (flow-cases (evacuate_all (n ∷ ns) cap (keys start) p)) [
      | inl (r, f) ↦ (r, rw (plan_state, f) refl, inl (rw f at ends))
      | inr (r, f) ↦
          let clears : AllClears (n ∷ ns) cap n one (keys start) p (proceeds r) = rw f at ends in
          let clear : Cleared (n ∷ ns) r = λ k out. clears k out (contains-keys k start) in
          let (q, e, settled) =
            level-Settled n ns cap (sum_squares r.members (n ∷ ns) + 1) r d (omega arith) in
          (
            q,
            rw (plan_state, f) e,
            elim settled [
              | inl full ↦ inl full
              | inr flat ↦ inr (
                level-keeps (n ∷ ns) cap (Cleared (n ∷ ns)) (level-Cleared (n ∷ ns) cap n one) _ r q
                    clear e,
                flat,
              )
            ],
          )
    ]
