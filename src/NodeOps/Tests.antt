-- ===== src/NodeOps/Tests.antt =====
-- Node operations on a small table.
use code_server_spawner.Common.{
  ℕ, String, true, false, Option, none, some, List, [], ◌∷◌, ◌≡◌, ◌≢◌, refl, ◌+◌, length, count_if,
  All,
}
use code_server_spawner.NodeOps.{
  NodeOp, Status, pending, running, failed, get, write, Commands, op_run,
  sweep_interrupted_node_ops,
}
use code_server_spawner.NodeOps.Laws.{sweep_interrupted_node_ops-settles, settled, WasInterrupted}

abbrev op_of : String → String → Status → NodeOp
op_of id kind status = record {
  id = id;
  kind = kind;
  tier = none;
  target_fqdn = some "n2.example";
  droplet_id = none;
  status = status;
  exit_code = none;
  log_path = none;
  message = none;
  started_at = none;
  finished_at = none;
}

abbrev table : List NodeOp
table = op_of "a" "expand" pending ∷ op_of "b" "remove" running ∷ []

-- An expansion that records its droplet and then fails, and a removal that succeeds.
abbrev commands : Commands
commands = record {
  expand = λ tier op_id rows.
      (some "no quota", write op_id (λ op. record op { droplet_id = some 7 }) rows);
  stop_node = λ fqdn rows. (none, rows);
  rebalance = λ rows. (none, rows);
  repr = λ kind. "'?'";
}

-- The row of a failed expansion.
abbrev expanded : NodeOp
expanded = record (op_of "a" "expand" failed) {
  droplet_id = some 7;
  exit_code = some 1;
  log_path = some "/data/node-ops/a.log";
  message = some "no quota";
  started_at = some 5;
  finished_at = some 9;
}

op_run-expand :
    op_run commands "/data" false 5 9 "a" table ≡ some (expanded ∷ op_of "b" "remove" running ∷ [])
unfolding op_run
op_run-expand = refl

abbrev refused : NodeOp
refused = record (op_of "a" "expand" failed) {
  exit_code = some 1;
  log_path = some "/data/node-ops/a.log";
  message = some "another node operation is in progress";
  started_at = some 5;
  finished_at = some 9;
}

op_run-refused :
    op_run commands "/data" true 5 9 "a" table ≡ some (refused ∷ op_of "b" "remove" running ∷ [])
unfolding op_run
op_run-refused = refl

abbrev show_fqdn : Option String → String
show_fqdn none = "None"
show_fqdn (some s) = s

abbrev show_id : Option ℕ → String
show_id _ = "None"

sweep_interrupted_node_ops-settles_example :
    let (n, rows') = sweep_interrupted_node_ops show_fqdn show_id 9 table in
    All (λ op. op.status ≢ running) rows'
    × (length rows' ≡ 2)
    × (n + count_if settled table ≡ 2)
    × ((k : String) (op : NodeOp)
        → get k table ≡ some op
        → (o : NodeOp) × (get k rows' ≡ some o)
          × (op.status ≢ running → o ≡ op)
          × (op.status ≡ running → WasInterrupted 9 op o))
sweep_interrupted_node_ops-settles_example =
    sweep_interrupted_node_ops-settles show_fqdn show_id 9 table
