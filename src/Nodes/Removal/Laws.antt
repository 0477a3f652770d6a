-- ===== src/Nodes/Removal/Laws.antt =====
-- What a removal of a node leaves behind.
use code_server_spawner.Common.{
  String, Bool, true, false, not, ◌||◌, Option, none, some, List, ◌≡◌, refl, ap, ◌∙◌, str_eq, keep,
  All, if◌then◌else◌, Outcome, returns, count_if,
}
use code_server_spawner.Common.Text.{before_dot}
use code_server_spawner.Nodes.Pins.Laws.{has_pin, unpin_services_from_node-dry}
use code_server_spawner.Nodes.Pins.{PlacedService, unpin_services_from_node}
use code_server_spawner.Nodes.Droplets.{Droplet}
use code_server_spawner.Nodes.Removal.{
  Member, Fleet, find_swarm_node, RemovalAnswers, actions, graceful_remove_node,
}

-- The nodes other than those of an id.
abbrev pub other_members : String → List Member → List Member
other_members id = keep (λ m. not (str_eq m.id id))

module _ (resolve : String → Outcome (Droplet × String)) (answers : RemovalAnswers) where
  -- The node that a removal finds.
  abbrev pub found_node : String → Fleet → Option Member
  found_node fqdn fleet =
      if answers.lists_nodes then find_swarm_node fqdn (before_dot fqdn) fleet.members else none

  -- What leaving the swarm does: the other nodes are as they were, and the node itself is gone where
  -- one of the two removals went through.
  abbrev pub HasLeft : Option Member → List Member → List Member → Type 0
  HasLeft none before after = after ≡ before
  HasLeft (some n) before after =
      (other_members n.id after ≡ other_members n.id before)
      × (answers.removes || answers.removes_low_level ≡ true
          → All (λ m. str_eq m.id n.id ≡ false) after)

  -- The removal of the pins, by what the listing of the services gives.
  listing :
      (resolved : String) (dry_run : Bool) (svcs : List PlacedService) (e : Option String)
      → answers.services_error ≡ e
      → unpin_services_from_node answers.update_fails resolved dry_run answers.services_error svcs
        ≡ unpin_services_from_node answers.update_fails resolved dry_run e svcs
  listing resolved dry_run svcs e l =
      ap (λ x. unpin_services_from_node answers.update_fails resolved dry_run x svcs) l

  -- A dry run changes nothing, and where the services can be listed it says what a run would do whose
  -- updates go through: how many services lose a pin, if any, and whether there is a node to drain,
  -- to wait for and to remove.
  pub graceful_remove_node-dry :
      (fqdn resolved : String) (droplet : Droplet) (fleet : Fleet)
      → resolve fqdn ≡ returns (droplet, resolved)
      → answers.services_error ≡ none
      → graceful_remove_node resolve answers true fqdn fleet ≡ (
        returns (
            actions
              (count_if (has_pin answers.update_fails resolved) fleet.services)
              (found_node resolved fleet)),
        fleet,
      )
  unfolding graceful_remove_node
  graceful_remove_node-dry fqdn resolved droplet fleet h l =
      rw
        (
          graceful_remove_node,
          h,
          listing resolved true fleet.services none l
              ∙ unpin_services_from_node-dry answers.update_fails resolved fleet.services,
        )
        refl
