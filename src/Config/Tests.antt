-- ===== src/Config/Tests.antt =====
-- Values of the configuration readers at concrete inputs.
use code_server_spawner.Common.{◌≡◌, refl, true, false, [], ◌∷◌}
use code_server_spawner.Common.Int.{pos, negsuc}
use code_server_spawner.Config.{Config, cfg_int, cfg_bool}

abbrev sample : Config
sample = ("A", " 1_2 ") ∷ ("B", "-3") ∷ ("C", "x") ∷ ("D", " YES ") ∷ ("E", "0") ∷ []

cfg_int-sample :
    (cfg_int sample "A" (pos 5) ≡ pos 12)
    × (cfg_int sample "B" (pos 5) ≡ negsuc 2)
    × (cfg_int sample "C" (pos 5) ≡ pos 5)
    × (cfg_int sample "Z" (pos 5) ≡ pos 5)
unfolding cfg_int
cfg_int-sample = (refl, refl, refl, refl)

cfg_bool-sample :
    (cfg_bool sample "D" false ≡ true)
    × (cfg_bool sample "E" true ≡ false)
    × (cfg_bool sample "Z" true ≡ true)
unfolding cfg_bool
cfg_bool-sample = (refl, refl, refl)
