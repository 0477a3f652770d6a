-- ===== src/Lib.antt =====
-- The code-server spawner runs a code server for each student as a service of a Docker swarm, keeps
-- a row for each of them (a host) and for each class in a database, and grows and shrinks the swarm.
--
-- The parts, and the files that model them:
--
-- Config, Tiers: the readers of the configuration (cspawn/cs_docker/autoscale.py `_cfg_int`,
--   `_cfg_bool`) and the node sizes (cspawn/cs_docker/tiers.py). Values are texts, as in an env file.
-- Classes, Hosts: the rows `Class` and `CodeHost` (cspawn/models.py) with their dates and health
--   flags. Hosts/Stop is `CodeServerManager.stop_host` (cspawn/cs_docker/csmanager.py): a `World` holds
--   the rows, the live services and the pushed hosts, and `Faults` says which outside call fails.
--   Hosts/Sync is the same class's `sync`, `unsettled_hosts` and `sync_converge`, with `to_model` and
--   `sync_to_db` of a service. Hosts/Create is its `new_cs`, with the pin of a new host, the recovery
--   after a conflict and the reuse of rows. Classes/Start is the view `start_class` and Classes/Runs
--   the run of a class: `class_run_state` and `copy_class` (cspawn/main/routes/classes.py) and
--   `Class.update`.
-- Autoscale: the control loop (cspawn/cs_docker/autoscale.py). A cycle (`run_autoscale`, in Cycle)
--   takes a snapshot (`gather_cluster_state`, in Gather), stops the hosts of classes whose window is
--   over (`apply_reaper_zones`, in Reaper, by way of `stop_host`), assesses the nodes
--   (`assess_cluster`, in State), estimates the demand (`estimate_demand`, in Demand), makes a plan
--   (`build_plan`, in Plan, from `plan_scale_up` in ScaleUp and `plan_scale_down` in ScaleDown) and
--   carries it out (`apply_plan`, in Apply). Sidecar is the file in which the record of the empty
--   nodes lasts from one cycle to the next.
-- Nodes: the commands of cspawn/cli/node.py. Counts is `count_hosts_per_node`, Rebalance is
--   `plan_rebalance`, Pins sets and removes the hostname pins of services, Contract is `contract_node`
--   with its choice of a node, Droplets is `_resolve_droplet_by_spec`, Removal is
--   `graceful_remove_node` and `stop_node` with the drain, the wait and the removal that they call,
--   Activation is `_activate_swarm_node`, Labels is `_ensure_node_labels` and `_ensure_label_on_node`,
--   Purge is `expand_purge` and Serials is `_get_next_serial`.
-- NodeOps: the operations that the admin pages launch: the rows `NodeOp`, the sweep at boot
--   (cspawn/models.py) and `op_run` (cspawn/cli/node.py). NodeOps/Processes has the steps of `op_run` as
--   a relation, for processes side by side that may die and of which several may run one operation,
--   and Refines what they promise.
-- Users: Teardown is the full deletion of a user (cspawn/admin/teardown.py), by way of `stop_host` and
--   of `GithubOrg.remove` (cspawn/cs_github/repo.py). Names is `find_username` (cspawn/util/auth.py),
--   with the slugs and the random token as arguments.
-- Common holds what these share. In each part the child modules after the definitions hold the proofs
-- and are named for what they prove; Tests modules hold runs at concrete inputs.
--
-- How the code is rendered. Numbers are natural numbers, and integers that may be negative are pairs
-- of constructors `pos` and `negsuc` over them (Common/Int). An exception is a value of `Outcome`, or of
-- `Attempt` where the state after it matters. Points in time are microseconds of UTC; a datetime
-- without a zone counts as UTC where the code reads it so. The texts of error messages, reasons and
-- states are constructors that carry the values shown in them. Texts are ASCII where the code looks at
-- characters. Loops over lists are structural recursions.
--
-- Fuel: only phase 2 of `plan_rebalance` is a loop without a bound. Its fuel is the sum of the squares
-- of the loads plus 1, which every round lowers, so it is never used up before the loop ends by itself.
-- The retries of Nodes/Activation and the looks of Nodes/Removal are as many as the code makes.
--
-- Parameters of the model: the JSON decoder and `str` of a decoded value (Tiers), Python's floats
-- (Demand), the order in which Python iterates over a set (Nodes/Rebalance), how `repr` and f-strings
-- show a value (NodeOps, Users/Teardown), the number of students of a class (Gather), the JSON codec and the
-- ISO format of datetimes (Sidecar), `str.format` (Nodes/Droplets, Nodes/Serials) and the membership of a
-- droplet in the project (Nodes/Droplets), the slugs of names (Hosts/Create), and the calls of Docker, SSH, DigitalOcean and
-- Git: `Faults` in Hosts/Stop, `Service` and `Tables` in Hosts/Sync, `Outside` in Hosts/Create, `Infra`
-- in Autoscale/Apply, `Site` in Autoscale/Cycle, `Commands` in NodeOps, `Replies` in Users/Teardown, and
-- the answers that Nodes/Contract, Removal, Activation and Purge name.
--
-- Not modelled: the other web views, the login, the provisioning of a node, the definition of a host's
-- container, the printed output of the commands, the GitHub and S3 calls, the text of log lines, and
-- the contents of files but for the sidecar; the cooldown's quotient of floats is taken as exact, and a
-- datetime before the epoch as the epoch. A look of `_wait_node_tasks_drained` stands for one round of
-- its polling, and the semaphore around the calls of Docker is left out. That the database writes the
-- default of `updated_at` again when a row changes is left out too: the column is set for new rows.
pub mod Common
pub mod Config
pub mod Tiers
pub mod Classes
pub mod Hosts
pub mod Autoscale
pub mod Nodes
pub mod NodeOps
pub mod Users
