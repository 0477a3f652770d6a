-- ===== src/Autoscale/Plan/Laws.antt =====
-- What a plan does for a deficit, and what without one.
use mathlib.Core.Path.{subst}
use code_server_spawner.Common.{
  ℕ, String, Bool, true, false, Option, List, [], ◌∷◌, ◌≡◌, refl, ◌⊎◌, inl, inr, returns,
  >>=-eq-returns, returns-injective, sym, ap, ◌∙◌, Bool-cases,
}
use code_server_spawner.Common.Int.{
  ℤ, pos, ◌≤ℤ◌, ◌<ℤ◌, ◌-ℤ◌, ltb_ℤ, int_laws, ltb_ℤ→lt, ltb_ℤ→ge, lt→ltb_ℤ,
}
use code_server_spawner.Common.Dict.{Dict}
use code_server_spawner.Common.Time.{Datetime}
use code_server_spawner.Config.{Config}
use code_server_spawner.Tiers.{Json}
use code_server_spawner.Autoscale.State.{NodeView, ClusterState, total_capacity}
use code_server_spawner.Autoscale.Demand.{compute_deficit}
use code_server_spawner.Autoscale.ScaleUp.{plan_scale_up}
use code_server_spawner.Autoscale.ScaleDown.{plan_scale_down}
use code_server_spawner.Autoscale.Plan.{ScalePlan, fqdns, down_or_hold, up, build_plan}

-- The deficit is what the demand lacks, and 0 where it lacks nothing.
pub compute_deficit-cases :
    (state : ClusterState) (demand : ℤ)
    → ((demand ≤ℤ total_capacity state) × (compute_deficit state demand ≡ pos 0))
      ⊎ ((total_capacity state <ℤ demand)
          × (compute_deficit state demand ≡ demand -ℤ total_capacity state))
unfolding compute_deficit
compute_deficit-cases state demand = elim (Bool-cases (ltb_ℤ (total_capacity state) demand)) [
  | inl e ↦ let short = ltb_ℤ→lt (total_capacity state) demand e in inr (short, omega int_laws)
  | inr e ↦ let enough = ltb_ℤ→ge (total_capacity state) demand e in inl (enough, omega int_laws)
]

-- `purge_first` is set exactly where there is a node to remove.
abbrev pub purges : List String → Bool
purges [] = false
purges (_ ∷ _) = true

down_or_hold_lem :
    (ns : List NodeView)
    → ((down_or_hold ns).add_large ≡ pos 0)
      × ((down_or_hold ns).add_small ≡ pos 0)
      × ((down_or_hold ns).remove_nodes ≡ fqdns ns)
      × ((down_or_hold ns).purge_first ≡ purges (fqdns ns))
down_or_hold_lem [] = (refl, refl, refl, refl)
down_or_hold_lem (n ∷ ns) = (refl, refl, refl, refl)

module _ (str : Json → String) (loads : String → Option Json) (state : ClusterState) (demand : ℤ)
    (cfg : Config) where
  -- A plan that adds nodes for the demand that the workers do not hold.
  abbrev pub GoesUp : ScalePlan → Type 0
  GoesUp plan =
      (total_capacity state <ℤ demand)
      × (plan.remove_nodes ≡ [])
      × (plan.purge_first ≡ false)
      × (plan_scale_up str loads (demand -ℤ total_capacity state) cfg
          ≡ returns (plan.add_large, plan.add_small))

  -- A plan that removes the nodes of `plan_scale_down`, or holds where there is none.
  abbrev pub GoesDown : ℕ → Dict Datetime → List String → ScalePlan → Type 0
  GoesDown now empty_since protect plan =
      (demand ≤ℤ total_capacity state)
      × (plan.add_large ≡ pos 0)
      × (plan.add_small ≡ pos 0)
      × (plan.remove_nodes ≡ fqdns (plan_scale_down state cfg now empty_since protect))
      × (plan.purge_first ≡ purges plan.remove_nodes)

  -- With more demand than worker capacity a plan removes nothing and adds what `plan_scale_up` gives
  -- for the difference; otherwise it adds nothing and removes the nodes of `plan_scale_down`, with a
  -- purge first exactly where there is one to remove.
  pub build_plan_one_way :
      (now : ℕ) (empty_since : Dict Datetime) (protect : List String) (plan : ScalePlan)
      → build_plan str loads state demand cfg now empty_since protect ≡ returns plan
      → GoesUp plan ⊎ GoesDown now empty_since protect plan
  unfolding build_plan
  build_plan_one_way now empty_since protect plan h = elim (compute_deficit-cases state demand) [
    | inl (enough, e) ↦
        let ns = plan_scale_down state cfg now empty_since protect in
        let q : down_or_hold ns ≡ plan = returns-injective (rw e at h) in
        let (a, b, c, d) = down_or_hold_lem ns in
        inr (subst (GoesDown now empty_since protect) q (enough, a, b, c, d ∙ ap purges (sym c)))
    | inr (short, e) ↦
        let positive : ltb_ℤ (pos 0) (demand -ℤ total_capacity state) ≡ true =
          lt→ltb_ℤ (pos 0) (demand -ℤ total_capacity state) (omega int_laws) in
        let (adds, found, q) =
          >>=-eq-returns (plan_scale_up str loads (demand -ℤ total_capacity state) cfg)
            (λ adds. returns (up (demand -ℤ total_capacity state) adds)) (rw (e, positive) at h) in
        inl (subst GoesUp (returns-injective q) (short, refl, refl, found))
  ]
