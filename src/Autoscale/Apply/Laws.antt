-- ===== src/Autoscale/Apply/Laws.antt =====
-- What carrying out a plan does, whatever fails on the way.
use mathlib.Core.Path.{subst}
use Prim.Native.Nat.{suc}
use code_server_spawner.Common.{
  ℕ, String, Bool, true, false, Option, List, [], ◌∷◌, ◌≡◌, ◌⊎◌, refl, inl, inr, arith, eq_iff, ltb,
  Bool-cases, List-cases, not_ltb→le, returns, >>=-eq-returns, returns-injective,
}
use code_server_spawner.Common.Int.{pos, ltb_ℤ, ◌+ℤ◌}
use code_server_spawner.Common.Dict.{Dict, get_or, contains}
use code_server_spawner.Common.Text.{before_dot}
use code_server_spawner.Config.{Config}
use code_server_spawner.Tiers.{Tier, Json}
use code_server_spawner.Autoscale.Plan.{ScalePlan}
use code_server_spawner.Autoscale.Apply.{
  ApplyError, ApplyResult, Attempt, fails, gives, Infra, Progress, add_nodes, remove_one,
  remove_nodes, purge_hosts, scale_down_path, scale_up_path, nodes_to_add, end_tiers, after_up,
  apply_plan,
}

pub Attempt-cases {ℓ κ} :
    {S : Type ℓ} {A : Type κ} (a : Attempt S A)
    → ((text : String) × (s : S) × (a ≡ fails text s)) ⊎ ((x : A) × (s : S) × (a ≡ gives x s))
Attempt-cases (fails text s) = inl (text, s, refl)
Attempt-cases (gives x s) = inr (x, s, refl)

-- The state after an attempt.
abbrev pub state_of {ℓ κ} : {S : Type ℓ} {A : Type κ} → Attempt S A → S
state_of (fails text s) = s
state_of (gives x s) = s

-- What every operation keeps, the removal of a node only where it is asked for and where the count
-- just taken shows no host on it.
pub record Keeps {S : Type 0} (infra : Infra S) (asked : List String) (P : S → Type 0)
    : Type 0 where
  pub by_join : (tier : Tier) (s : S) → P s → P (state_of (infra.join_node tier s))
  pub by_drain : (fqdn : String) (s : S) → P s → P (infra.drain_node fqdn s)
  pub by_verify : (fqdn : String) (s : S) → P s → P (state_of (infra.verify_node fqdn s))
  pub by_activate : (fqdn : String) (s : S) → P s → P (state_of (infra.activate_node fqdn s))
  pub by_sync : (s : S) → P s → P (infra.sync_hosts s).1
  pub by_failed_count :
      (s s' : S) (text : String) → infra.live_counts s ≡ fails text s' → P s → P s'
  pub by_removal :
      (fqdn : String) (s s' : S) (counts : Dict ℕ)
      → contains fqdn asked ≡ true
      → infra.live_counts s ≡ gives counts s'
      → P s
      → (get_or (before_dot fqdn) counts 0 ≡ 0 → P (state_of (infra.remove_node fqdn s'))) × P s'

module _ {S : Type 0} (infra : Infra S) (asked : List String) (P : S → Type 0)
    (k : Keeps infra asked P) where
  add_nodes-keeps :
      (tiers : List Tier) (added : ℕ) (errors : List ApplyError) (s : S)
      → P s
      → P (add_nodes infra tiers (added, errors, s)).2
  unfolding add_nodes
  add_nodes-keeps [] added errors s h = h
  add_nodes-keeps (tier ∷ tiers) added errors s h =
      let joined = k.by_join tier s h in
      elim (Attempt-cases (infra.join_node tier s)) [
        | inl (text, s₁, e) ↦ rw (add_nodes, e) (rw e at joined)
        | inr (fqdn, s₁, e) ↦
            let drained = k.by_drain fqdn s₁ (rw e at joined) in
            let verified = k.by_verify fqdn (infra.drain_node fqdn s₁) drained in
            elim (Attempt-cases (infra.verify_node fqdn (infra.drain_node fqdn s₁))) [
              | inl (text, s₂, f) ↦ rw (add_nodes, e, f) (rw f at verified)
              | inr (found, s₂, f) ↦ elim (List-cases found) [
                | inr (failure, failures, g) ↦
                    rw (add_nodes, e, f, g)
                      (add_nodes-keeps tiers added _ (infra.drain_node fqdn s₂)
                        (k.by_drain fqdn s₂ (rw f at verified)))
                | inl g ↦
                    let active = k.by_activate fqdn s₂ (rw f at verified) in
                    elim (Attempt-cases (infra.activate_node fqdn s₂)) [
                      | inl (text, s₃, a) ↦ rw (add_nodes, e, f, g, a) (rw a at active)
                      | inr (_, s₃, a) ↦
                          rw (add_nodes, e, f, g, a)
                            (add_nodes-keeps tiers (suc added) errors s₃ (rw a at active))
                    ]
              ]
            ]
      ]

  remove_one-keeps :
      (fqdn : String) (counts : Dict ℕ) (removed : ℕ) (errors : List ApplyError) (s : S)
      → (get_or (before_dot fqdn) counts 0 ≡ 0 → P (state_of (infra.remove_node fqdn s)))
      → P s
      → P (remove_one infra fqdn counts (removed, errors, s)).2
  unfolding remove_one
  remove_one-keeps fqdn counts removed errors s may h =
      elim (Bool-cases (ltb 0 (get_or (before_dot fqdn) counts 0))) [
        | inl busy ↦ rw busy h
        | inr idle ↦
            let zero_hosts = not_ltb→le 0 (get_or (before_dot fqdn) counts 0) idle in
            let gone = may (omega arith) in
            elim (Attempt-cases (infra.remove_node fqdn s)) [
              | inl (text, s₁, e) ↦ rw (idle, e) (rw e at gone)
              | inr (_, s₁, e) ↦ rw (idle, e) (rw e at gone)
            ]
      ]

  remove_nodes-keeps :
      (fqdns : List String) (removed : ℕ) (errors : List ApplyError) (s : S)
      → ((f : String) → contains f fqdns ≡ true → contains f asked ≡ true)
      → P s
      → P (remove_nodes infra fqdns (removed, errors, s)).2
  unfolding remove_nodes
  remove_nodes-keeps [] removed errors s sub h = h
  remove_nodes-keeps (fqdn ∷ rest) removed errors s sub h =
      let later = λ (f : String) (c : contains f rest ≡ true). sub f (ground (arith, c)) in
      elim (Attempt-cases (infra.live_counts s)) [
        | inl (text, s₁, e) ↦
            rw (remove_nodes, e)
              (remove_nodes-keeps rest removed _ s₁ later (k.by_failed_count s s₁ text e h))
        | inr (counts, s₁, e) ↦
            let (may, h₁) =
              k.by_removal fqdn s s₁ counts (sub fqdn (ground (arith, eq_iff fqdn fqdn))) e h in
            let r = remove_one infra fqdn counts (removed, errors, s₁) in
            rw (remove_nodes, e)
              (remove_nodes-keeps rest r.0 r.1 r.2 later
                (remove_one-keeps fqdn counts removed errors s₁ may h₁))
      ]

  scale_down_path-keeps :
      (plan : ScalePlan) (errors : List ApplyError) (s : S)
      → ((f : String) → contains f plan.remove_nodes ≡ true → contains f asked ≡ true)
      → P s
      → P (scale_down_path infra plan (0, errors, s)).1.2
  unfolding scale_down_path purge_hosts
  scale_down_path-keeps plan errors s sub h = elim (List-cases plan.remove_nodes) [
    | inl e ↦ rw e h
    | inr (fqdn, rest, e) ↦
        let fewer : (f : String) → contains f (fqdn ∷ rest) ≡ true → contains f asked ≡ true =
          subst (λ ns. (f : String) → contains f ns ≡ true → contains f asked ≡ true) e sub in
        elim (Bool-cases plan.purge_first) [
          | inl p ↦ rw (e, p) (remove_nodes-keeps (fqdn ∷ rest) 0 errors _ fewer (k.by_sync s h))
          | inr p ↦ rw (e, p) (remove_nodes-keeps (fqdn ∷ rest) 0 errors s fewer h)
        ]
  ]

module _ {S : Type 0} (infra : Infra S) (str : Json → String) (loads : String → Option Json)
    (cfg : Config) where
  scale_up_path-keeps :
      (plan : ScalePlan) (asked : List String) (P : S → Type 0) (s : S) (p : Progress infra)
      → Keeps infra asked P
      → P s
      → scale_up_path infra str loads cfg plan s ≡ returns p
      → P p.2
  unfolding scale_up_path
  scale_up_path-keeps plan asked P s p k h e =
      elim (Bool-cases (ltb_ℤ (pos 0) (plan.add_large +ℤ plan.add_small))) [
        | inr none_asked ↦
            subst (λ (q : Progress infra). P q.2)
              (returns-injective (rw (scale_up_path, none_asked) at e)) h
        | inl asked_for ↦
            let (ends, _, last_step) =
              >>=-eq-returns (end_tiers infra str loads cfg)
                (λ ends.
                  returns (add_nodes infra (nodes_to_add infra ends.1 ends.0 plan) (0, [], s)))
                (rw (scale_up_path, asked_for) at e) in
            subst (λ (q : Progress infra). P q.2) (returns-injective last_step)
              (add_nodes-keeps infra asked P k (nodes_to_add infra ends.1 ends.0 plan) 0 [] s h)
      ]

  -- What every operation on the nodes keeps, holds after the whole plan: a node is removed only where
  -- the plan asks for it, and where the count taken just before shows no host on it. A dry run
  -- keeps everything.
  pub apply_plan-keeps :
      (dry_run : Bool) (plan : ScalePlan) (P : S → Type 0) (s s' : S) (r : ApplyResult)
      → Keeps infra plan.remove_nodes P
      → P s
      → apply_plan infra str loads cfg dry_run plan s ≡ returns (r, s')
      → P s'
  unfolding apply_plan after_up
  apply_plan-keeps true plan P s s' r k h e =
      subst (λ (q : ApplyResult × S). P q.1) (returns-injective e) h
  apply_plan-keeps false plan P s s' r k h e =
      let (p, up, after) =
        >>=-eq-returns (scale_up_path infra str loads cfg plan s)
          (λ p. returns (after_up infra plan p)) e in
      let kept = scale_up_path-keeps plan plan.remove_nodes P s p k h up in
      subst (λ (q : ApplyResult × S). P q.1) (returns-injective after)
        (scale_down_path-keeps infra plan.remove_nodes P k plan p.1 p.2 (λ f c. c) kept)
