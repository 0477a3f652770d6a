-- ===== src/NodeOps.antt =====
-- The node operations that the admin pages launch: the `NodeOp` rows and the boot-time sweep of
-- cspawn/models.py, and `op_run` of cspawn/cli/node.py. The commands that `op_run` invokes and what
-- they leave of the table are parameters, and so is Python's `repr`.
pub mod Laws
pub mod Processes
mod Tests
use Prim.Native.String.{◌++◌ as append}
use code_server_spawner.Common.{
  ℕ, ◌+◌, String, Bool, true, false, not, Option, none, some, List, [], ◌∷◌, str_eq, ◌||◌, is_some,
  ◌==◌, count_if, if◌then◌else◌,
}

-- The texts of `NodeOp.status`, with the one that the sweep writes.
pub data Status : Type 0 where
  pending running done failed interrupted : Status

-- `NodeOp`, the columns that the modelled code reads or writes
pub record NodeOp : Type 0 where
  pub id : String
  pub kind : String
  pub tier : Option String
  pub target_fqdn : Option String
  pub droplet_id : Option ℕ
  pub status : Status
  pub exit_code : Option ℕ
  pub log_path : Option String
  pub message : Option String
  pub started_at : Option ℕ
  pub finished_at : Option ℕ

-- `db.session.get(NodeOp, op_id)`
abbrev pub get : String → List NodeOp → Option NodeOp
get op_id [] = none
get op_id (op ∷ ops) = if str_eq op.id op_id then some op else get op_id ops

-- A change of the row of an operation, if there is one, and its commit.
abbrev pub write : String → (NodeOp → NodeOp) → List NodeOp → List NodeOp
write op_id f [] = []
write op_id f (op ∷ ops) = if str_eq op.id op_id then f op ∷ ops else op ∷ write op_id f ops

-- What `op_run` invokes: each command with its arguments, on the table, gives the text of the
-- exception that ends it, if one does, and the table afterwards.
pub record Commands : Type 0 where
  pub expand : Option String → String → List NodeOp → Option String × List NodeOp
  pub stop_node : Option String → List NodeOp → Option String × List NodeOp
  pub rebalance : List NodeOp → Option String × List NodeOp
  pub repr : Option String → String

-- Step 1: the row is set running.
abbrev pub start : String → String → ℕ → NodeOp → NodeOp
start data_dir op_id now op = record op {
  log_path = some (append data_dir (append "/node-ops/" (append op_id ".log")));
  status = running;
  started_at = some now;
}

-- Step 3: the lock is held by another process.
abbrev pub refuse : ℕ → NodeOp → NodeOp
refuse now op = record op {
  status = failed;
  exit_code = some 1;
  message = some "another node operation is in progress";
  finished_at = some now;
}

-- The end of step 4, after the exception with this text, or after none.
abbrev pub finish : Option String → ℕ → NodeOp → NodeOp
finish none now op = record op { status = done; exit_code = some 0; finished_at = some now }
finish (some text) now op = record op {
  status = failed;
  exit_code = some 1;
  message = some text;
  finished_at = some now;
}

module _ (commands : Commands) (data_dir : String) where
  -- Step 4: the command of a row's kind.
  pub dispatch : String → Option NodeOp → List NodeOp → Option String × List NodeOp
  dispatch op_id none rows = (some (append "Unknown NodeOp kind: " (commands.repr none)), rows)
  dispatch op_id (some op) rows =
      if str_eq op.kind "expand"
      then commands.expand op.tier op_id rows
      else if str_eq op.kind "remove"
      then commands.stop_node op.target_fqdn rows
      else if str_eq op.kind "rebalance"
      then commands.rebalance rows
      else (some (append "Unknown NodeOp kind: " (commands.repr (some op.kind))), rows)

  -- Steps 2 to 4, on the table that has the row as running; `locked` says whether another process
  -- holds the lock.
  pub perform : Bool → ℕ → String → List NodeOp → List NodeOp
  unfolding dispatch
  perform locked ended op_id rows =
      let (exc_message, rows') = dispatch op_id (get op_id rows) rows in
      if locked
      then write op_id (refuse ended) rows
      else write op_id (finish exc_message ended) rows'

  -- `op_run(ctx, op_id)`; `none` is the exception for an operation that is not in the table.
  unfoldable pub op_run : Bool → ℕ → ℕ → String → List NodeOp → Option (List NodeOp)
  unfolding perform
  op_run locked now ended op_id rows =
      let rest = perform locked ended op_id (write op_id (start data_dir op_id now) rows) in
      elim (get op_id rows) [ none ↦ none | some _ ↦ some rest ]

-- The truth value of an optional text and of an optional number, in Python.
abbrev has_text : Option String → Bool
has_text none = false
has_text (some s) = not (str_eq s "")

abbrev has_id : Option ℕ → Bool
has_id none = false
has_id (some n) = not (n == 0)

abbrev is_running : Status → Bool
is_running running = true
is_running _ = false

-- How an f-string shows the two columns.
module _ (show_fqdn : Option String → String) (show_id : Option ℕ → String) where
  abbrev sweep_message : NodeOp → String
  sweep_message op =
      if has_text op.target_fqdn || has_id op.droplet_id
      then append "spawner restarted while op was in flight" (
          append "; droplet " (
            append (show_fqdn op.target_fqdn) (
              append " (id="
                (append (show_id op.droplet_id) ") may be orphaned — verify it joined the swarm"))))
      else "spawner restarted while op was in flight"

  -- The body of the sweep's loop.
  abbrev pub interrupt : ℕ → NodeOp → NodeOp
  interrupt now op = record op {
    status = interrupted;
    exit_code = some 1;
    message = some (sweep_message op);
    finished_at = some now;
  }

  pub sweep_rows : ℕ → List NodeOp → List NodeOp
  sweep_rows now [] = []
  sweep_rows now (op ∷ ops) =
      (if is_running op.status then interrupt now op else op) ∷ sweep_rows now ops

  -- `sweep_interrupted_node_ops(app)`: the number of rows, and the table.
  unfoldable pub sweep_interrupted_node_ops : ℕ → List NodeOp → ℕ × List NodeOp
  unfolding sweep_rows
  sweep_interrupted_node_ops now rows =
      (count_if (λ op. is_running op.status) rows, sweep_rows now rows)
