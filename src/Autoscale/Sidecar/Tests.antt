-- ===== src/Autoscale/Sidecar/Tests.antt =====
-- A record that is saved and loaded.
use code_server_spawner.Common.{false, none, some, [], ◌∷◌, ◌≡◌, refl, str_eq, if◌then◌else◌}
use code_server_spawner.Common.Dict.{Dict, lookup}
use code_server_spawner.Common.Time.{Datetime, aware, naive}
use code_server_spawner.Tiers.{Json, object, text, end, field}
use code_server_spawner.Autoscale.Sidecar.{
  Codec, load_empty_since_sidecar, save_empty_since_sidecar, write_entries, load-save,
}

abbrev stored : Json
stored =
    object
      (field "empty_since" (object (field "a.x" (text "t1") (field "b.x" (text "t2") end))) end)

abbrev codec : Codec
codec = record {
  loads = λ s. if str_eq s "json" then some stored else none;
  dumps = λ _. "json";
  fromisoformat =
      λ s. if str_eq s "t1" then some (aware 1) else if str_eq s "t2" then some (naive 2) else none;
  isoformat = λ d. elim d [ aware _ ↦ "t1" | naive _ ↦ "t2" ];
}

abbrev empty_since : Dict Datetime
empty_since = ("a.x", aware 1) ∷ ("b.x", naive 2) ∷ []

-- A file that is no JSON gives an empty record.
load_empty_since_sidecar-malformed :
    (load_empty_since_sidecar codec none ≡ []) × (load_empty_since_sidecar codec (some "?") ≡ [])
unfolding load_empty_since_sidecar
load_empty_since_sidecar-malformed = (refl, refl)

load-save_example :
    lookup "b.x"
      (load_empty_since_sidecar codec (save_empty_since_sidecar codec false empty_since none))
    ≡ some (aware 2)
unfolding write_entries
load-save_example =
    load-save codec empty_since none "b.x" ((refl, tt), (tt, tt)) (refl, (refl, tt)) refl
