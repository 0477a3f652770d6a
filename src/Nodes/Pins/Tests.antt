-- ===== src/Nodes/Pins/Tests.antt =====
-- Pins at concrete services.
use code_server_spawner.Common.{
  String, Bool, true, false, none, List, returns, [], ◌∷◌, ◌≡◌, refl, str_eq,
}
use code_server_spawner.Common.Text.{before_dot, drop_prefix, without_spaces}
use code_server_spawner.Nodes.Pins.{
  PlacedService, is_pin, pinned, is_target, unpin_services_from_node,
}
use code_server_spawner.Nodes.Pins.Laws.{
  unpin-pin, unpin_services_from_node-clears, unpin_services_from_node-dry,
}

abbrev service : String → List String → PlacedService
service id constraints = record { id = id; constraints = constraints }

-- A pin by the short name, with spaces, beside another constraint.
abbrev services : List PlacedService
services =
    service "a" ("node.role != manager" ∷ "node.hostname == swarm3" ∷ [])
    ∷ service "b" ("node.hostname==swarm4.x.org" ∷ [])
    ∷ service "c" ("node.hostname==swarm3.x.org" ∷ [])
    ∷ []

-- The update of the third service fails.
abbrev third_fails : PlacedService → Bool
third_fails svc = str_eq svc.id "c"

unpin_services_from_node-clears_example :
    unpin_services_from_node third_fails "swarm3.x.org" false none services ≡ (
      returns 1,
      service "a" ("node.role != manager" ∷ [])
          ∷ service "b" ("node.hostname==swarm4.x.org" ∷ [])
          ∷ service "c" ("node.hostname==swarm3.x.org" ∷ [])
          ∷ [],
    )
unfolding is_target before_dot without_spaces
unpin_services_from_node-clears_example =
    unpin_services_from_node-clears third_fails "swarm3.x.org" services

unpin_services_from_node-dry_services :
    unpin_services_from_node third_fails "swarm3.x.org" true none services ≡ (returns 2, services)
unfolding is_target before_dot without_spaces
unpin_services_from_node-dry_services =
    unpin_services_from_node-dry third_fails "swarm3.x.org" services

abbrev free : PlacedService
free = service "d" ("node.role != manager" ∷ [])

unpin-pin_example :
    unpin_services_from_node third_fails "swarm3.x.org" false none
      (service "d" ("node.role != manager" ∷ "node.hostname==swarm3.x.org" ∷ []) ∷ [])
    ≡ (returns 1, free ∷ [])
unfolding pinned is_pin drop_prefix without_spaces
unpin-pin_example =
    unpin-pin third_fails "swarm3.x.org" "swarm4.x.org" free
      (service "d" ("node.role != manager" ∷ "node.hostname==swarm4.x.org" ∷ []))
      (service "d" ("node.role != manager" ∷ "node.hostname==swarm3.x.org" ∷ [])) (refl, tt) refl
      refl refl
