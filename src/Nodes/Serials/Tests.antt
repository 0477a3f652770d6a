-- ===== src/Nodes/Serials/Tests.antt =====
-- The number for a new node of a concrete swarm.
use code_server_spawner.Common.{
  String, false, true, Option, none, some, List, [], ◌∷◌, ◌≡◌, refl, ◌≤◌, ◌+◌, ◌⊎◌, ℕ, str_eq,
  if◌then◌else◌,
}
use code_server_spawner.Common.Text.{before_dot, drop_prefix, is_number, number_from}
use code_server_spawner.Nodes.Serials.{
  get_next_serial, get_next_serial-IsNext, has_serial, max_serial, serial_of,
}

abbrev format : String → String → String
format pattern serial = if str_eq pattern "swarm{serial}" then "swarm" else pattern

abbrev hostnames : List (Option String)
hostnames = some "swarm2.example.org" ∷ none ∷ some "swarm11" ∷ some "swarmx" ∷ some "other20" ∷ []

get_next_serial-hostnames :
    get_next_serial format (some hostnames) "swarm{serial}.example.org"
    ≡ (12, "swarm{serial}.example.org", "swarm")
unfolding get_next_serial max_serial serial_of before_dot drop_prefix is_number number_from
get_next_serial-hostnames = refl

-- Where the nodes cannot be listed the number is 1.
get_next_serial-unlisted :
    get_next_serial format none "swarm{serial}.example.org"
    ≡ (1, "swarm{serial}.example.org", "swarm")
unfolding get_next_serial before_dot
get_next_serial-unlisted = refl

get_next_serial-IsNext_example :
    (let (next, _, prefix) = get_next_serial format (some hostnames) "swarm{serial}.example.org" in
      ((k : ℕ) → next ≤ k → has_serial prefix k hostnames ≡ false)
      × ((next ≡ 1) ⊎ ((last : ℕ) × (next ≡ last + 1) × (has_serial prefix last hostnames ≡ true))))
get_next_serial-IsNext_example = get_next_serial-IsNext format hostnames "swarm{serial}.example.org"
