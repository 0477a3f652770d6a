-- ===== src/Nodes/Counts.antt =====
-- The running hosts of each node: `count_hosts_per_node` of cspawn/cli/node.py, over what Docker
-- answers.
mod Tests
use Prim.Native.Nat.{suc}
use code_server_spawner.Common.{
  ℕ, ◌+◌, String, Bool, true, false, not, Option, none, some, List, [], ◌∷◌, ◌≡◌, refl, arith,
  str_eq, eq_iff, count_if, if◌then◌else◌, Bool-cases, inl, inr,
}
use code_server_spawner.Common.Dict.{Dict, lookup, insert, get_or}
use code_server_spawner.Common.Text.{before_dot}

-- A task of a service whose desired state is running, with its actual state and its node.
pub record Task : Type 0 where
  pub state : Option String
  pub node_id : Option String

-- A node: its id and its hostname, which may be empty.
pub record SwarmNode : Type 0 where
  pub id : String
  pub hostname : String

-- `node_name_map`
unfoldable pub node_name_map : Dict String → List SwarmNode → Dict String
unfolding before_dot
node_name_map names [] = names
node_name_map names (n ∷ ns) =
    node_name_map
      (insert n.id (before_dot (if str_eq n.hostname "" then n.id else n.hostname)) names) ns

-- `(t.get("Status", {}) or {}).get("State") != "running"`, the other way around
abbrev pub is_up : Task → Bool
is_up t = elim t.state [ none ↦ false | some s ↦ str_eq s "running" ]

-- `node_name_map.get(nid, nid or "?")`; no node has the id None.
abbrev pub node_of : Dict String → Option String → String
node_of names none = "?"
node_of names (some nid) = get_or nid names (if str_eq nid "" then "?" else nid)

-- `per_node[short] += 1`
abbrev pub bump : String → Dict ℕ → Dict ℕ
bump short per_node = insert short (get_or short per_node 0 + 1) per_node

-- The loop over the tasks of a service.
pub count_tasks : Dict String → List Task → Dict ℕ → Dict ℕ
count_tasks names [] per_node = per_node
count_tasks names (t ∷ ts) per_node =
    count_tasks names ts (if is_up t then bump (node_of names t.node_id) per_node else per_node)

-- The loop over the services; one whose tasks cannot be read is passed over.
pub count_services : Dict String → List (Option (List Task)) → Dict ℕ → Dict ℕ
unfolding count_tasks
count_services names [] per_node = per_node
count_services names (none ∷ svcs) per_node = count_services names svcs per_node
count_services names (some tasks ∷ svcs) per_node =
    count_services names svcs (count_tasks names tasks per_node)

-- `count_hosts_per_node(client)`
unfoldable pub count_hosts_per_node : List SwarmNode → List (Option (List Task)) → Dict ℕ
unfolding node_name_map count_services
count_hosts_per_node nodes services = count_services (node_name_map [] nodes) services []

-- The sum of the counts.
abbrev pub sum_counts : Dict ℕ → ℕ
sum_counts [] = 0
sum_counts ((_, n) ∷ d) = n + sum_counts d

-- The running tasks of the services that answer.
abbrev pub running_tasks : List (Option (List Task)) → ℕ
running_tasks [] = 0
running_tasks (none ∷ svcs) = running_tasks svcs
running_tasks (some tasks ∷ svcs) = count_if is_up tasks + running_tasks svcs

sum_counts-insert :
    (k : String) (n : ℕ) (d : Dict ℕ) → sum_counts (insert k n d) + get_or k d 0 ≡ sum_counts d + n
sum_counts-insert k n [] = omega arith
sum_counts-insert k n ((j, m) ∷ d) = ground (arith, sum_counts-insert k n d)

sum_counts-bump : (k : String) (d : Dict ℕ) → sum_counts (bump k d) ≡ sum_counts d + 1
sum_counts-bump k d = omega (arith, sum_counts-insert k (get_or k d 0 + 1) d)

sum_counts-count_tasks :
    (names : Dict String) (ts : List Task) (d : Dict ℕ)
    → sum_counts (count_tasks names ts d) ≡ sum_counts d + count_if is_up ts
unfolding count_tasks
sum_counts-count_tasks names [] d = omega arith
sum_counts-count_tasks names (t ∷ ts) d = elim (Bool-cases (is_up t)) [
  | inl e ↦
      let later = sum_counts-count_tasks names ts (bump (node_of names t.node_id) d) in
      let here = sum_counts-bump (node_of names t.node_id) d in rw e (omega arith)
  | inr e ↦ let later = sum_counts-count_tasks names ts d in rw e (omega arith)
]

sum_counts-count_services :
    (names : Dict String) (svcs : List (Option (List Task))) (d : Dict ℕ)
    → sum_counts (count_services names svcs d) ≡ sum_counts d + running_tasks svcs
unfolding count_services
sum_counts-count_services names [] d = omega arith
sum_counts-count_services names (none ∷ svcs) d = sum_counts-count_services names svcs d
sum_counts-count_services names (some ts ∷ svcs) d =
    let later = sum_counts-count_services names svcs (count_tasks names ts d) in
    let here = sum_counts-count_tasks names ts d in omega arith

-- Every running task of a service that answers is counted, once: the counts add up to the number of
-- these tasks, also for tasks on nodes that the swarm does not list.
pub sum_counts-count_hosts_per_node :
    (nodes : List SwarmNode) (services : List (Option (List Task)))
    → sum_counts (count_hosts_per_node nodes services) ≡ running_tasks services
unfolding count_hosts_per_node
sum_counts-count_hosts_per_node nodes services =
    let all = sum_counts-count_services (node_name_map [] nodes) services [] in omega arith
