-- ===== src/Nodes/Removal/Tests.antt =====
-- Removals of a concrete node.
use code_server_spawner.Common.{
  String, true, false, none, some, [], ◌∷◌, ◌≡◌, refl, map, Outcome, raises, returns, outside,
}
use code_server_spawner.Common.Text.{before_dot, spells, without_spaces}
use code_server_spawner.Nodes.Pins.{is_target, unpin_services_from_node}
use code_server_spawner.Nodes.Droplets.{Droplet}
use code_server_spawner.Nodes.Removal.{
  Member, Fleet, find_swarm_node, drain_swarm_node, leave_swarm, fails, RemovalAnswers,
  graceful_remove_node, wait_node_tasks_drained,
}

abbrev droplet : Droplet
droplet = record { id = 3; name = "swarm3.x.org"; tags = [] }

abbrev fleet : Fleet
fleet = record {
  services =
      record { id = "a"; constraints = "node.hostname==swarm3.x.org" ∷ [] }
      ∷ record { id = "b"; constraints = "node.role != manager" ∷ [] }
      ∷ [];
  members =
      record { id = "m"; hostname = "swarm1"; availability = "active" }
      ∷ record { id = "n"; hostname = "swarm3"; availability = "active" }
      ∷ [];
  droplets = droplet ∷ record { id = 1; name = "swarm1.x.org"; tags = [] } ∷ [];
}

abbrev resolve : String → Outcome (Droplet × String)
resolve _ = returns (droplet, "swarm3.x.org")

-- The drain fails, and the node goes by the low-level removal.
abbrev answers : RemovalAnswers
answers = record {
  services_error = none;
  update_fails = λ _. false;
  lists_nodes = true;
  channel = record { high_level = fails; capitalized = true; low_level = true };
  looks = [];
  removes = false;
  removes_low_level = true;
  destroy_error = none;
}

graceful_remove_node-fleet :
    let (ends, after) = graceful_remove_node resolve answers false "swarm3" fleet in
    (ends ≡ returns [])
    × (map (λ m. Member.id m) after.members ≡ "m" ∷ [])
    × (map (λ d. Droplet.id d) after.droplets ≡ 1 ∷ [])
unfolding graceful_remove_node find_swarm_node leave_swarm drain_swarm_node unpin_services_from_node
    before_dot spells is_target without_spaces
graceful_remove_node-fleet = (refl, refl, refl)

-- A listing of the services that fails ends the removal before the node is drained.
graceful_remove_node-unlisted :
    graceful_remove_node resolve
      (record answers { services_error = some "timeout" })
      false
      "swarm3"
      fleet
    ≡ (raises (outside "timeout"), fleet)
unfolding graceful_remove_node unpin_services_from_node
graceful_remove_node-unlisted = refl

-- Tasks that cannot be listed count as drained.
wait_node_tasks_drained-unlisted :
    (wait_node_tasks_drained (none ∷ some ("running" ∷ []) ∷ []) ≡ returns tt)
    × (wait_node_tasks_drained (some ("running" ∷ []) ∷ some ("shutdown" ∷ []) ∷ []) ≡ returns tt)
    × (wait_node_tasks_drained (some ("running" ∷ []) ∷ [])
        ≡ raises (outside "Timed out waiting for node tasks to drain"))
unfolding wait_node_tasks_drained
wait_node_tasks_drained-unlisted = (refl, refl, refl)
