-- ===== src/Autoscale/Apply.antt =====
-- Carrying out a plan: `ApplyResult` and `apply_plan` of cspawn/cs_docker/autoscale.py. The
-- operations of cspawn/cli/node.py on droplets and swarm nodes are fields of an interface, over any
-- type of states.
pub mod Laws
pub mod Counts
use Prim.Native.Nat.{suc}
use code_server_spawner.Common.{
  ℕ, zero, ◌+◌, String, Bool, true, false, ◌&&◌, Option, none, some, List, [], ◌∷◌, ◌++◌, replicate,
  length, ltb, if◌then◌else◌, Outcome, returns, ◌>>=◌,
}
use code_server_spawner.Common.Int.{ℤ, pos, ltb_ℤ, ◌+ℤ◌, pos_part}
use code_server_spawner.Common.Dict.{Dict, get_or}
use code_server_spawner.Common.Text.{before_dot}
use code_server_spawner.Config.{Config}
use code_server_spawner.Tiers.{Tier, Json, first, load_tiers}
use code_server_spawner.Autoscale.Plan.{ScalePlan}
use code_server_spawner.Autoscale.ScaleUp.{sorted_tiers, last}

-- The texts of `ApplyResult.errors`, by the values that they show.
pub data ApplyError : Type 0 where
  scale_up_error : String → String → ApplyError
  unverified : String → String → List String → ApplyError
  has_hosts recheck_failed scale_down_error : String → String → ApplyError

-- `ApplyResult`
pub record ApplyResult : Type 0 where
  pub added : ℤ
  pub removed : ℕ
  pub purged : Bool
  pub dry_run : Bool
  pub errors : List ApplyError
  pub would_remove : List String

abbrev pub no_result : ApplyResult
no_result = record {
  added = pos 0;
  removed = 0;
  purged = false;
  dry_run = false;
  errors = [];
  would_remove = [];
}

-- An operation that ends with a value, or in an exception with this text; and the state after it.
pub data Attempt {ℓ κ} (S : Type ℓ) (A : Type κ) : Type (ℓ ⊔ κ) where
  fails : String → S → Attempt S A
  gives : A → S → Attempt S A

-- What `apply_plan` calls, over states `S`.
pub record Infra (S : Type 0) : Type 0 where
  -- `_create_droplet`, `_configure_node` and `_join_swarm`: the name of the new node
  pub join_node : Tier → S → Attempt S String
  -- `_find_swarm_node` and `_drain_swarm_node`, whose exceptions are caught
  pub drain_node : String → S → S
  -- `_verify_node_provisioning`, with the keys and the version that it is called with: what it finds
  -- wrong
  pub verify_node : String → S → Attempt S (List String)
  -- `_check_docker_staleness`, `_prepull_images` and `_activate_swarm_node`
  pub activate_node : String → S → Attempt S (Unit {0})
  -- `app.csm.sync(check_ready=True)`: whether it succeeds
  pub sync_hosts : S → Bool × S
  -- `count_hosts_per_node`
  pub live_counts : S → Attempt S (Dict ℕ)
  -- `graceful_remove_node`
  pub remove_node : String → S → Attempt S (Unit {0})

module _ {S : Type 0} (infra : Infra S) where
  -- What a loop has done: the number of nodes, the errors, and the state.
  abbrev pub Progress : Type 0
  Progress = ℕ × List ApplyError × S

  -- The loop over the nodes to add. A node that does not pass the verification is drained and the
  -- loop goes on; an exception ends it.
  pub add_nodes : List Tier → Progress → Progress
  add_nodes [] p = p
  add_nodes (tier ∷ tiers) (added, errors, s) = elim (infra.join_node tier s) [
    | fails text s₁ ↦ (added, errors ++ scale_up_error tier.name text ∷ [], s₁)
    | gives fqdn s₁ ↦ elim (infra.verify_node fqdn (infra.drain_node fqdn s₁)) [
      | fails text s₂ ↦ (added, errors ++ scale_up_error tier.name text ∷ [], s₂)
      | gives (failure ∷ failures) s₂ ↦ add_nodes tiers (
        added,
        errors ++ unverified tier.name fqdn (failure ∷ failures) ∷ [],
        infra.drain_node fqdn s₂,
      )
      | gives [] s₂ ↦ elim (infra.activate_node fqdn s₂) [
        | fails text s₃ ↦ (added, errors ++ scale_up_error tier.name text ∷ [], s₃)
        | gives _ s₃ ↦ add_nodes tiers (suc added, errors, s₃)
      ]
    ]
  ]

  -- What the removal of one node comes to, after the count that is taken before it.
  pub remove_one : String → Dict ℕ → Progress → Progress
  remove_one fqdn live_counts (removed, errors, s) =
      if ltb 0 (get_or (before_dot fqdn) live_counts 0)
      then (removed, errors ++ has_hosts fqdn "skipped" ∷ [], s)
      else elim (infra.remove_node fqdn s) [
        | fails text s₁ ↦ (removed, errors ++ scale_down_error fqdn text ∷ [], s₁)
        | gives _ s₁ ↦ (suc removed, errors, s₁)
      ]

  -- The loop over the nodes to remove.
  pub remove_nodes : List String → Progress → Progress
  unfolding remove_one
  remove_nodes [] p = p
  remove_nodes (fqdn ∷ rest) (removed, errors, s) = elim (infra.live_counts s) [
    | fails text s₁ ↦ remove_nodes rest (removed, errors ++ recheck_failed fqdn text ∷ [], s₁)
    | gives counts s₁ ↦ remove_nodes rest (remove_one fqdn counts (removed, errors, s₁))
  ]

  -- The purge before the removals: whether it is reported, and the state.
  pub purge_hosts : Bool → S → Bool × S
  purge_hosts false s = (false, s)
  purge_hosts true s = infra.sync_hosts s

  -- The scale-down path.
  pub scale_down_path : ScalePlan → Progress → Bool × Progress
  unfolding remove_nodes purge_hosts
  scale_down_path plan (removed, errors, s) = elim plan.remove_nodes [
    | [] ↦ (false, (removed, errors, s))
    | fqdn ∷ rest ↦
        let (purged, s₁) = purge_hosts plan.purge_first s in
        (purged, remove_nodes (fqdn ∷ rest) (removed, errors, s₁))
  ]

  -- `[tier_large] * plan.add_large + [tier_small] * plan.add_small`
  abbrev pub nodes_to_add : Tier → Tier → ScalePlan → List Tier
  nodes_to_add large small plan =
      replicate (pos_part plan.add_large) large ++ replicate (pos_part plan.add_small) small

  -- `sorted_tiers[0]` and `sorted_tiers[-1]`
  pub end_tiers : (Json → String) → (String → Option Json) → Config → Outcome (Tier × Tier)
  end_tiers str loads cfg = do
    tiers ← load_tiers str loads cfg
    small ← first (sorted_tiers tiers)
    large ← last (sorted_tiers tiers)
    returns (small, large)

  -- The scale-up path.
  pub scale_up_path :
      (Json → String) → (String → Option Json) → Config → ScalePlan → S → Outcome Progress
  unfolding add_nodes end_tiers
  scale_up_path str loads cfg plan s =
      if ltb_ℤ (pos 0) (plan.add_large +ℤ plan.add_small)
      then (end_tiers str loads cfg >>= λ ends.
          returns (add_nodes (nodes_to_add ends.1 ends.0 plan) (0, [], s)))
      else returns (0, [], s)

  abbrev pub dry_result : ScalePlan → ApplyResult
  dry_result plan = record {
    added = plan.add_large +ℤ plan.add_small;
    removed = length plan.remove_nodes;
    purged = plan.purge_first;
    dry_run = true;
    errors = [];
    would_remove = plan.remove_nodes;
  }

  abbrev pub live_result : ℕ → Bool × Progress → ApplyResult × S
  live_result added (purged, (removed, errors, s)) = (
    record {
      added = pos added;
      removed = removed;
      purged = purged;
      dry_run = false;
      errors = errors;
      would_remove = [];
    },
    s,
  )

  -- The down path after the up path; the errors of the two are one list.
  pub after_up : ScalePlan → Progress → ApplyResult × S
  unfolding scale_down_path
  after_up plan (added, errors, s) = live_result added (scale_down_path plan (0, errors, s))

  -- `apply_plan(ctx, plan, cfg, dry_run=dry_run, app=app, ...)`, with an app
  unfoldable pub apply_plan :
      (Json → String)
      → (String → Option Json)
      → Config
      → Bool
      → ScalePlan
      → S
      → Outcome (ApplyResult × S)
  unfolding scale_up_path after_up
  apply_plan str loads cfg dry_run plan s =
      if dry_run
      then returns (dry_result plan, s)
      else (scale_up_path str loads cfg plan s >>= λ p. returns (after_up plan p))
