-- ===== src/Nodes/Removal.antt =====
-- The removal of a node: how cspawn/cli/node.py drains a node of the swarm, waits for its tasks,
-- removes it and destroys its droplet (`graceful_remove_node`, `stop_node` and the helpers that they
-- call). What Docker and DigitalOcean answer is an argument.
mod Tests
pub mod Laws
use Prim.Native.String.{◌++◌ as append}
use code_server_spawner.Common.{
  ℕ, ◌+◌, String, Bool, true, false, not, ◌&&◌, ◌||◌, ◌==◌, Option, none, some, List, [], ◌∷◌, ◌++◌,
  str_eq, is_some, keep, if◌then◌else◌, Outcome, raises, returns, ◌>>=◌, ◌>>◌, outside,
}
use code_server_spawner.Common.Dict.{contains}
use code_server_spawner.Common.Text.{before_dot, spells}
use code_server_spawner.Nodes.Pins.{PlacedService, unpin_services_from_node}
use code_server_spawner.Nodes.Droplets.{Droplet}

-- A node that the swarm lists.
pub record Member : Type 0 where
  pub id : String
  pub hostname : String
  pub availability : String

-- The services with their constraints, the nodes of the swarm and the droplets.
pub record Fleet : Type 0 where
  pub services : List PlacedService
  pub members : List Member
  pub droplets : List Droplet

-- `_find_swarm_node(manager_client, fqdn, short)`, over the nodes that are listed
unfoldable pub find_swarm_node : String → String → List Member → Option Member
unfolding before_dot
find_swarm_node fqdn short [] = none
find_swarm_node fqdn short (m ∷ ms) =
    let rest = find_swarm_node fqdn short ms in
    if str_eq m.hostname fqdn
    then some m
    else if not (str_eq short "") && str_eq (before_dot m.hostname) short
    then some m
    else rest

-- How a high-level update ends: it goes through, or by a `TypeError`, or by another exception.
pub data Update : Type 0 where
  applies type_error fails : Update

-- The answers to the three ways of an update, each tried where the one before did not end it.
pub record Channel : Type 0 where
  pub high_level : Update
  pub capitalized : Bool
  pub low_level : Bool

-- Whether the chain of `node_obj.update(...)` and its fallbacks sets the availability, or raises.
abbrev pub chain_applies : Channel → Bool
chain_applies c = elim c.high_level [
  | applies ↦ true
  | type_error ↦ c.capitalized || c.low_level
  | fails ↦ false
]

-- The availability of a node, set for all that bear its id.
abbrev pub set_availability : String → String → List Member → List Member
set_availability id value [] = []
set_availability id value (m ∷ ms) =
    (if str_eq m.id id then record m { availability = value } else m) ∷ set_availability id value ms

-- `_drain_swarm_node(manager_client, node_obj)`; a failure is logged only
unfoldable pub drain_swarm_node : Channel → Member → List Member → List Member
unfolding spells
drain_swarm_node channel node_obj members =
    if spells node_obj.availability "drain"
    then members
    else if chain_applies channel
    then set_availability node_obj.id "drain" members
    else members

abbrev pub is_active_state : String → Bool
is_active_state st =
    contains st ("running" ∷ "accepted" ∷ "assigned" ∷ "preparing" ∷ "starting" ∷ "pending" ∷ [])

abbrev pub has_active : List String → Bool
has_active [] = false
has_active (st ∷ sts) = is_active_state st || has_active sts

-- `_wait_node_tasks_drained(client, node_id)`, over the states of the tasks at each look before the
-- time is out, or `none` where the tasks cannot be listed: then no task counts as active.
unfoldable pub wait_node_tasks_drained : List (Option (List String)) → Outcome (Unit {0})
wait_node_tasks_drained [] = raises (outside "Timed out waiting for node tasks to drain")
wait_node_tasks_drained (none ∷ looks) = returns tt
wait_node_tasks_drained (some states ∷ looks) =
    if has_active states then wait_node_tasks_drained looks else returns tt

-- What the systems outside answer to a removal; `services_error` is the exception, if any, of the
-- listing of the services.
pub record RemovalAnswers : Type 0 where
  pub services_error : Option String
  pub update_fails : PlacedService → Bool
  pub lists_nodes : Bool
  pub channel : Channel
  pub looks : List (Option (List String))
  pub removes : Bool
  pub removes_low_level : Bool
  pub destroy_error : Option String

-- What a dry run says that a removal would do, in order.
pub data Action : Type 0 where
  unpin : ℕ → Action
  drain wait remove skip_swarm destroy_droplet : Action

abbrev pub actions : ℕ → Option Member → List Action
actions n node_obj =
    (if n == 0 then [] else Action.unpin n ∷ [])
    ++ elim node_obj [
      | some _ ↦ Action.drain ∷ Action.wait ∷ Action.remove ∷ []
      | none ↦ Action.skip_swarm ∷ []
    ]
    ++ Action.destroy_droplet ∷ []

module _ (resolve : String → Outcome (Droplet × String)) (answers : RemovalAnswers) where
  -- The node of the swarm, drained, waited for and removed: whatever fails, the code goes on. The
  -- wait changes nothing, since its exception is caught.
  pub leave_swarm : Option Member → List Member → List Member
  unfolding drain_swarm_node
  leave_swarm none members = members
  leave_swarm (some node_obj) members =
      let drained_members = drain_swarm_node answers.channel node_obj members in
      if answers.removes || answers.removes_low_level
      then keep (λ m. not (str_eq m.id node_obj.id)) drained_members
      else drained_members

  abbrev pub destroy : Droplet → List Droplet → Outcome (Unit {0}) × List Droplet
  destroy droplet droplets = elim answers.destroy_error [
    | none ↦ (returns tt, keep (λ d. not (d.id == droplet.id)) droplets)
    | some text ↦ (raises (outside (append "Failed to destroy droplet: " text)), droplets)
  ]

  -- `graceful_remove_node(..., fqdn, dry_run=dry_run)`: how it ends, what it announces, and the fleet.
  unfoldable pub graceful_remove_node : Bool → String → Fleet → Outcome (List Action) × Fleet
  unfolding find_swarm_node leave_swarm unpin_services_from_node
  graceful_remove_node dry_run fqdn fleet = elim (resolve fqdn) [
    | raises exc ↦ (raises exc, fleet)
    | returns (droplet, resolved_fqdn) ↦
        let node_obj =
          (if answers.lists_nodes
            then find_swarm_node resolved_fqdn (before_dot resolved_fqdn) fleet.members
            else none) in
        let (unpins, services) =
          unpin_services_from_node answers.update_fails resolved_fqdn dry_run answers.services_error
            fleet.services in
        let members = leave_swarm node_obj fleet.members in
        let (ends, droplets) = destroy droplet fleet.droplets in
        elim unpins [
          | raises exc ↦ (raises exc, fleet)
          | returns n ↦ if dry_run then (returns (actions n node_obj), fleet) else (
            (ends >> returns []),
            record { services = services; members = members; droplets = droplets },
          )
        ]
  ]

  -- `stop_node(ctx, force, dry_run, node_spec)`, with the settings present; `connects` says whether
  -- there is a Docker URI and the client connects.
  unfoldable pub stop_node : Bool → Bool → Bool → String → Fleet → Outcome (List Action) × Fleet
  unfolding graceful_remove_node unpin_services_from_node
  stop_node connects force dry_run node_spec fleet = elim (resolve node_spec) [
    | raises exc ↦ (raises exc, fleet)
    | returns (droplet, fqdn) ↦
        let (_, unpinned) =
          unpin_services_from_node answers.update_fails fqdn false answers.services_error
            fleet.services in
        let (ends, droplets) = destroy droplet fleet.droplets in
        if force && dry_run
        then (returns (Action.destroy_droplet ∷ []), fleet)
        else if force
        then (
          (ends >> returns []),
          record fleet {
            services = if connects then unpinned else fleet.services;
            droplets = droplets;
          },
        )
        else if connects
        then graceful_remove_node dry_run fqdn fleet
        else (raises (outside "Failed to connect to docker manager"), fleet)
  ]
