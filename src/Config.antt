-- ===== src/Config.antt =====
-- The configuration as the control loop reads it: cspawn/cs_docker/autoscale.py (`_cfg_int`,
-- `_cfg_bool`) and the `get` of cspawn/util/config.py. Every value is text, as an env file gives it.
mod Tests
use Prim.Native.Char.{Char, code}
use Prim.Native.String
use code_server_spawner.Common.{
  String, Bool, true, ◌||◌, none, some, ◌-◌, ◌+◌, ℕ, leb, ◌&&◌, ◌==◌, str_eq, if◌then◌else◌,
}
use code_server_spawner.Common.Int.{ℤ}
use code_server_spawner.Common.Dict.{Dict, lookup}
use code_server_spawner.Common.Text.{parse_int, strip, spells}

abbrev pub Config : Type 0
Config = Dict String

-- `_cfg_int(cfg, key, default)`
unfoldable pub cfg_int : Config → String → ℤ → ℤ
unfolding parse_int
cfg_int cfg key default = elim (lookup key cfg) [
  | none ↦ default
  | some raw ↦ elim (parse_int raw) [ none ↦ default | some n ↦ n ]
]

-- `_cfg_bool(cfg, key, default)`
unfoldable pub cfg_bool : Config → String → Bool → Bool
unfolding strip spells
cfg_bool cfg key default = elim (lookup key cfg) [
  | none ↦ default
  | some raw ↦ spells (strip raw) "true" || spells (strip raw) "1" || spells (strip raw) "yes"
]
