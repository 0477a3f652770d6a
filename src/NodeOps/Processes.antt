-- ===== src/NodeOps/Processes.antt =====
-- The processes that run node operations side by side: the steps of `op_run` of
-- cspawn/cli/node.py, which any number of detached processes take in any order, several of one
-- operation included, their deaths, and the restart of the container with the sweep of
-- cspawn/models.py. A process is known by its number. The lock on the file is the one that the
-- operating system frees when its holder ends.
pub mod Laws
pub mod Refines
mod Tests
use code_server_spawner.Common.{
  ℕ, String, Bool, true, false, Option, none, some, List, [], ◌∷◌, ◌≡◌, ◌==◌, if◌then◌else◌,
}
use code_server_spawner.NodeOps.{
  NodeOp, get, write, Commands, start, refuse, finish, dispatch, sweep_rows,
}

-- Where a process is: there is none; it has set the row of an operation running; it holds the lock
-- for it; or its command is over, with the text of the exception that ended it, and the lock released.
pub data Phase : Type 0 where
  idle : Phase
  started working : String → Phase
  ended : String → Option String → Phase

-- The process that holds the lock, if one does, and where each process is.
pub record OpSystem : Type 0 where
  pub rows : List NodeOp
  pub lock : Option ℕ
  pub phase : ℕ → Phase

-- The process `pid` moves on.
abbrev pub set_phase : ℕ → Phase → (ℕ → Phase) → ℕ → Phase
set_phase pid p phase k = if k == pid then p else phase k

-- The lock after the end of a process.
abbrev pub released : ℕ → Option ℕ → Option ℕ
released pid none = none
released pid (some holder) = if holder == pid then none else some holder

-- The commands, the directory of the logs, and how an f-string shows two columns.
pub record OpSite : Type 0 where
  pub commands : Commands
  pub data_dir : String
  pub show_fqdn : Option String → String
  pub show_id : Option ℕ → String

-- One step of one process, or a restart. Step 1 of `op_run` begins, step 3 locks or refuses, step 4
-- executes and then concludes.
pub data Step (site : OpSite) : OpSystem → OpSystem → Type 0 where
  begins :
      (s : OpSystem) (pid : ℕ) (op_id : String) (op : NodeOp) (now : ℕ)
      → s.phase pid ≡ idle
      → get op_id s.rows ≡ some op
      → Step site s (record s {
        rows = write op_id (start site.data_dir op_id now) s.rows;
        phase = set_phase pid (started op_id) s.phase;
      })
  locks :
      (s : OpSystem) (pid : ℕ) (op_id : String)
      → s.phase pid ≡ started op_id
      → s.lock ≡ none
      → Step site s (record s { lock = some pid; phase = set_phase pid (working op_id) s.phase })
  refuses :
      (s : OpSystem) (pid : ℕ) (op_id : String) (holder now : ℕ)
      → s.phase pid ≡ started op_id
      → s.lock ≡ some holder
      → Step site s
          (record s { rows = write op_id (refuse now) s.rows; phase = set_phase pid idle s.phase })
  executes :
      (s : OpSystem) (pid : ℕ) (op_id : String)
      → s.phase pid ≡ working op_id
      → Step site s (record {
        rows = (dispatch site.commands site.data_dir op_id (get op_id s.rows) s.rows).1;
        lock = released pid s.lock;
        phase =
            set_phase pid
              (ended op_id (dispatch site.commands site.data_dir op_id (get op_id s.rows) s.rows).0)
              s.phase;
      })
  concludes :
      (s : OpSystem) (pid : ℕ) (op_id : String) (exc_message : Option String) (now : ℕ)
      → s.phase pid ≡ ended op_id exc_message
      → Step site s (record s {
        rows = write op_id (finish exc_message now) s.rows;
        phase = set_phase pid idle s.phase;
      })
  dies :
      (s : OpSystem) (pid : ℕ)
      → Step site s (record s { lock = released pid s.lock; phase = set_phase pid idle s.phase })
  restarts :
      (s : OpSystem) (now : ℕ)
      → Step site s (record {
        rows = sweep_rows site.show_fqdn site.show_id now s.rows;
        lock = none;
        phase = λ _. idle;
      })

-- What the system can come to.
pub data Reach (site : OpSite) (s : OpSystem) : OpSystem → Type 0 where
  here : Reach site s s
  next : {t u : OpSystem} → Reach site s t → Step site t u → Reach site s u
