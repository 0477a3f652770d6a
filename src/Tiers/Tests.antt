-- ===== src/Tiers/Tests.antt =====
-- The tiers at concrete configurations.
use code_server_spawner.Common.{
  String, ◌≡◌, refl, Option, some, List, [], ◌∷◌, returns, raises, bad_capacity,
}
use code_server_spawner.Common.Int.{pos}
use code_server_spawner.Config.{Config}
use code_server_spawner.Tiers.{
  Tier, Json, text, int, null, array, object, cons, nil, field, end, load_tiers,
}

abbrev str : Json → String
str (text s) = s
str _ = "?"

abbrev small : Json
small =
    object
      (field "name" (text "S") (field "slug" (text "s-1") (field "capacity" (int (pos 4)) end)))

abbrev large : Json
large =
    object (field "name" (text "L") (field "slug" (text "s-4") (field "capacity" (text "12") end)))

abbrev loads : String → Option Json
loads _ = some (array (cons small (cons large nil)))

abbrev cfg : Config
cfg = ("NODE_TIERS", "[...]") ∷ ("DEFAULT_TIER", "L") ∷ []

abbrev tiers : List Tier
tiers =
    record { name = "S"; slug = "s-1"; capacity = pos 4 }
    ∷ record { name = "L"; slug = "s-4"; capacity = pos 12 }
    ∷ []

load_tiers-cfg : load_tiers str loads cfg ≡ returns tiers
unfolding load_tiers
load_tiers-cfg = refl

load_tiers-bad :
    load_tiers str
      (λ _. some (
        array (
          cons small (
            cons
              (object
                (field "name" (text "x") (field "slug" (text "y") (field "capacity" null end))))
              nil))))
      cfg
    ≡ raises (bad_capacity 1)
unfolding load_tiers
load_tiers-bad = refl
