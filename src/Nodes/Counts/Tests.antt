-- ===== src/Nodes/Counts/Tests.antt =====
-- Counting the hosts of two nodes.
use code_server_spawner.Common.{String, Option, none, some, List, [], ◌∷◌, ◌≡◌, refl}
use code_server_spawner.Nodes.Counts.{Task, SwarmNode, count_hosts_per_node}

abbrev task : String → Option String → Task
task state node_id = record { state = some state; node_id = node_id }

abbrev nodes : List SwarmNode
nodes = record { id = "i1"; hostname = "n1.example" } ∷ record { id = "i2"; hostname = "n2" } ∷ []

abbrev services : List (Option (List Task))
services =
    some (task "running" (some "i1") ∷ task "starting" (some "i2") ∷ [])
    ∷ none
    ∷ some (task "running" (some "i2") ∷ task "running" (some "i9") ∷ [])
    ∷ []

count_hosts_per_node-nodes :
    count_hosts_per_node nodes services ≡ ("n1", 1) ∷ ("n2", 1) ∷ ("i9", 1) ∷ []
unfolding count_hosts_per_node
count_hosts_per_node-nodes = refl
