-- ===== src/Nodes/Contract/Tests.antt =====
-- Contractions of a concrete swarm.
use code_server_spawner.Common.{
  String, true, false, none, some, List, [], ◌∷◌, ◌≡◌, refl, ◌⊎◌, returns,
}
use code_server_spawner.Common.Text.{before_dot, drop_prefix, strip, lstrip, rstrip, spells}
use code_server_spawner.Config.{Config}
use code_server_spawner.Tiers.{node_capacity, default_capacity}
use code_server_spawner.Nodes.Contract.{
  WorkerNode, split_template, match_serial, match_digits, candidate, workers, empty_workers,
  text_before, Answer, select_contract_candidate, select_drain_candidate, contract_node,
}
use code_server_spawner.Nodes.Contract.Laws.{drain-contract}
use code_server_spawner.Nodes.Contract.Safety.{IsEmptyChoice, IsChoice, contract_node-spares}

abbrev cfg : Config
cfg = ("DOCKER_URI", "ssh://manager") ∷ ("DO_NAMES", "swarm{serial}.x.org") ∷ []

abbrev node : String → String → WorkerNode
node hostname role = record { hostname = hostname; role = role; is_leader = false; labels = [] }

-- A manager, a loaded worker, an empty one by its short name, and a machine of another kind.
abbrev nodes : List WorkerNode
nodes =
    node "swarm1.x.org" "Manager"
    ∷ node "swarm2.x.org" "worker"
    ∷ node "swarm3" "worker"
    ∷ node "db1.x.org" "worker"
    ∷ []

abbrev answer : Answer
answer = returns (("swarm2", 4) ∷ [], nodes)

-- Both workers are loaded.
abbrev all_loaded : Answer
all_loaded = returns (("swarm2", 4) ∷ ("swarm3", 5) ∷ [], nodes)

-- The suffix may be missing where it starts with a dot, and is required otherwise.
match_serial-suffix :
    (match_serial ("swarm", ".x.org") "swarm12.x.org" ≡ some 12)
    × (match_serial ("swarm", ".x.org") "swarm12" ≡ some 12)
    × (match_serial ("swarm", ".x.org") "swarm12.y.org" ≡ none)
    × (match_serial ("swarm", "-x") "swarm12" ≡ none)
    × (match_serial ("swarm", "0") "swarm100" ≡ some 10)
unfolding match_serial match_digits drop_prefix
match_serial-suffix = (refl, refl, refl, refl, refl)

drain-contract_example : select_drain_candidate cfg answer ≡ returns (some (3, "swarm3"))
unfolding select_contract_candidate select_drain_candidate split_template match_serial match_digits
    drop_prefix candidate workers empty_workers before_dot strip lstrip rstrip spells node_capacity
    default_capacity text_before
drain-contract_example = drain-contract cfg answer (3, "swarm3") refl

contract_node-spares_example :
    (false ≡ false)
    × (IsEmptyChoice all_loaded "swarm2.x.org"
        ⊎ (true ≡ true)
          × (select_contract_candidate cfg all_loaded ≡ returns none)
          × IsChoice all_loaded "swarm2.x.org")
unfolding contract_node select_contract_candidate select_drain_candidate split_template match_serial
    match_digits drop_prefix candidate workers empty_workers before_dot strip lstrip rstrip spells
    node_capacity default_capacity text_before
contract_node-spares_example =
    contract_node-spares cfg (returns tt) all_loaded all_loaded false true "swarm2.x.org" refl
