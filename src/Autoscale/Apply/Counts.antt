-- ===== src/Autoscale/Apply/Counts.antt =====
-- What the report of a plan says.
use code_server_spawner.Common.{ℕ, ◌+◌, ◌≤◌, List, ◌≡◌, length, if◌then◌else◌}
use code_server_spawner.Common.Int.{pos, ltb_ℤ, ◌+ℤ◌, pos_part}
use code_server_spawner.Common.Dict.{Dict}
use code_server_spawner.Config.{Config}
use code_server_spawner.Autoscale.Plan.{ScalePlan}
use code_server_spawner.Autoscale.Apply.{ApplyError, Infra, Progress}

-- The nodes that the up path sets out to add.
abbrev pub planned : ScalePlan → ℕ
planned plan =
    if ltb_ℤ (pos 0) (plan.add_large +ℤ plan.add_small)
    then pos_part plan.add_large + pos_part plan.add_small
    else 0

module _ {S : Type 0} (infra : Infra S) where
  -- With `added` nodes and some errors before, `n` more to add: nothing is counted twice, and with
  -- no new error all are added.
  abbrev AddsUp : ℕ → List ApplyError → ℕ → Progress infra → Type 0
  AddsUp added errors n p =
      (p.0 + length p.1 ≤ added + length errors + n)
      × (added ≤ p.0)
      × (length errors ≤ length p.1)
      × ((length p.1 ≡ length errors) → p.0 ≡ added + n)
