-- ===== src/Nodes/Pins.antt =====
-- The placement pins of services: `_pin_service_to_node` and `_unpin_services_from_node` of
-- cspawn/cli/node.py, over the constraints of the services. Whether the listing of the services and
-- the update of each fail are arguments.
pub mod Laws
mod Tests
use Prim.Native.String.{◌++◌ as append}
use code_server_spawner.Common.{
  ℕ, ◌+◌, String, Bool, true, false, not, ◌||◌, Option, none, some, List, [], ◌∷◌, ◌++◌, str_eq,
  is_some, keep, if◌then◌else◌, Outcome, raises, returns, raise_if, ◌>>◌, outside,
}
use code_server_spawner.Common.Dict.{contains}
use code_server_spawner.Common.Text.{before_dot, drop_prefix, without_spaces}

-- A service of the swarm with its placement constraints.
pub record PlacedService : Type 0 where
  pub id : String
  pub constraints : List String

-- `c.replace(" ", "").startswith("node.hostname==")`
unfoldable pub is_pin : String → Bool
unfolding drop_prefix without_spaces
is_pin c = is_some (drop_prefix "node.hostname==" (without_spaces c))

-- The constraints that `_pin_service_to_node` sets.
unfoldable pub pinned : String → List String → List String
pinned node_fqdn constraints =
    keep (λ c. not (is_pin c)) constraints ++ append "node.hostname==" node_fqdn ∷ []

-- `_pin_service_to_node(svc, node_fqdn)`, where the update fails with a text, or goes through.
abbrev pub pin_service_to_node : Option String → String → PlacedService → Outcome PlacedService
pin_service_to_node fault node_fqdn svc = elim fault [
  | some text ↦ raises (outside text)
  | none ↦ returns (record svc { constraints = pinned node_fqdn svc.constraints })
]

-- `c.replace(" ", "") in targets`
unfoldable pub is_target : String → String → Bool
unfolding before_dot without_spaces
is_target node_fqdn c =
    str_eq (without_spaces c) (without_spaces (append "node.hostname==" node_fqdn))
    || str_eq (without_spaces c) (without_spaces (append "node.hostname==" (before_dot node_fqdn)))

-- `matching`
abbrev pub matching : String → List String → List String
matching node_fqdn constraints = keep (is_target node_fqdn) constraints

-- `[c for c in constraints if c not in matching]`
abbrev pub kept : String → List String → List String
kept node_fqdn constraints =
    keep (λ c. not (contains c (matching node_fqdn constraints))) constraints

abbrev pub is_nil : List String → Bool
is_nil [] = true
is_nil (_ ∷ _) = false

module _ (fails : PlacedService → Bool) (node_fqdn : String) (dry_run : Bool) where
  -- The body of the loop: how much it adds to `unpinned`, and the service afterwards.
  pub unpin_one : PlacedService → ℕ × PlacedService
  unpin_one svc =
      if is_nil (matching node_fqdn svc.constraints)
      then (0, svc)
      else if dry_run
      then (1, svc)
      else if fails svc
      then (0, svc)
      else (1, record svc { constraints = kept node_fqdn svc.constraints })

  -- The loop over the services.
  pub unpin_all : List PlacedService → ℕ × List PlacedService
  unfolding unpin_one
  unpin_all [] = (0, [])
  unpin_all (svc ∷ svcs) =
      let (k, svc') = unpin_one svc in let (n, svcs') = unpin_all svcs in (k + n, svc' ∷ svcs')

  -- `_unpin_services_from_node(client, node_fqdn, dry_run=dry_run)`, given the text of the exception
  -- of `client.services.list`, if it raises one
  unfoldable pub unpin_services_from_node :
      Option String → List PlacedService → Outcome ℕ × List PlacedService
  unfolding unpin_all
  unpin_services_from_node (some text) svcs = (raises (outside text), svcs)
  unpin_services_from_node none svcs = let (n, svcs') = unpin_all svcs in (returns n, svcs')
