-- ===== src/Autoscale/ScaleUp.antt =====
-- How many nodes to add: `plan_scale_up` of cspawn/cs_docker/autoscale.py.
pub mod Bounds
use code_server_spawner.Common.{
  zero, String, Bool, true, false, Option, List, [], ◌∷◌, if◌then◌else◌, Outcome, returns, raises,
  ◌>>=◌, ◌>>◌, index_error,
}
use code_server_spawner.Common.Int.{
  ℤ, pos, ◌+ℤ◌, ◌-ℤ◌, leb_ℤ, ltb_ℤ, max_ℤ, min_ℤ, floor_div, floor_mod,
}
use code_server_spawner.Common.Sort.{sort_by}
use code_server_spawner.Config.{Config, cfg_int}
use code_server_spawner.Tiers.{Tier, Json, first, load_tiers}

-- `xs[-1]`
abbrev pub last {ℓ} : {A : Type ℓ} → List A → Outcome A
last [] = raises index_error
last (x ∷ []) = returns x
last (_ ∷ y ∷ ys) = last (y ∷ ys)

-- `sorted(tiers, key=lambda t: t.capacity)`
abbrev pub sorted_tiers : List Tier → List Tier
sorted_tiers = sort_by (λ a b. ltb_ℤ a.capacity b.capacity)

-- `rem == 0`
abbrev is_zero : ℤ → Bool
is_zero (pos zero) = true
is_zero _ = false

-- The greedy choice, before the cap: large nodes for the quotient, and for the remainder a small
-- node if it fits and one more large node otherwise.
abbrev pub choose : ℤ → ℤ → ℤ → ℤ × ℤ
choose add_large rem cap_small =
    if is_zero rem
    then (add_large, pos 0)
    else if leb_ℤ rem cap_small
    then (add_large, pos 1)
    else (add_large +ℤ pos 1, pos 0)

-- The cap of the additions of one cycle: small nodes give way first.
unfoldable pub clamp : ℤ → ℤ × ℤ → ℤ × ℤ
unfolding max_ℤ min_ℤ
clamp max_add (add_large, add_small) =
    let total = add_large +ℤ add_small in
    let reduce_small = min_ℤ add_small (total -ℤ max_add) in
    if ltb_ℤ max_add total
    then (
      max_ℤ (pos 0) (add_large -ℤ (total -ℤ max_add -ℤ reduce_small)),
      add_small -ℤ reduce_small,
    )
    else (add_large, add_small)

-- The plan for capacities that are known.
unfoldable pub pack : ℤ → ℤ → ℤ → Outcome (ℤ × ℤ)
pack deficit cap_large cap_small = do
  add_large ← floor_div deficit cap_large
  rem ← floor_mod deficit cap_large
  returns (choose add_large rem cap_small)

module _ (str : Json → String) (loads : String → Option Json) where
  -- `plan_scale_up(deficit, cfg)`
  unfoldable pub plan_scale_up : ℤ → Config → Outcome (ℤ × ℤ)
  plan_scale_up deficit cfg = if leb_ℤ deficit (pos 0) then returns (pos 0, pos 0) else (do
    tiers ← load_tiers str loads cfg
    large ← last (sorted_tiers tiers)
    small ← first (sorted_tiers tiers)
    adds ← pack deficit large.capacity small.capacity
    returns (clamp (cfg_int cfg "AUTOSCALE_MAX_ADD_PER_CYCLE" (pos 2)) adds))
