-- ===== src/NodeOps/Processes/Refines.antt =====
-- What the node operations promise, and that the processes keep the promise: a board with the status
-- of each operation and the one operation that is at work, on which the logs, the columns and the
-- processes are forgotten.
use code_server_spawner.Common.{
  ℕ, String, true, false, Option, none, some, ◌≡◌, ◌⊎◌, str_eq, if◌then◌else◌,
}
use code_server_spawner.NodeOps.{Status, running, done, failed, interrupted, is_running}
use code_server_spawner.NodeOps.Processes.{Phase, OpSystem}
use code_server_spawner.NodeOps.Processes.Laws.{status_of, operation, has_begun}

pub record Board : Type 0 where
  pub at_work : Option String
  pub status : String → Option Status

-- Nothing but the status of one operation changes.
abbrev pub Elsewhere : String → Board → Board → Type 0
Elsewhere op_id b c = (k : String) → str_eq k op_id ≡ false → c.status k ≡ b.status k

abbrev pub Unchanged : Board → Board → Type 0
Unchanged b c = (k : String) → c.status k ≡ b.status k

-- What a restart makes of a status.
abbrev pub settle : Option Status → Option Status
settle none = none
settle (some st) = if is_running st then some interrupted else some st

-- A known operation is announced; one that has begun is taken when nothing is at work, or turned down
-- when something is; the one at work is over; one that has begun is recorded; work is broken off; and
-- a restart interrupts what runs. An operation that has begun is running, done or failed: it may
-- have been announced more than once.
pub data Move (b c : Board) : Type 0 where
  announced :
      (op_id : String) (st : Status)
      → b.status op_id ≡ some st
      → c.status op_id ≡ some running
      → Elsewhere op_id b c
      → c.at_work ≡ b.at_work
      → Move b c
  taken :
      (op_id : String)
      → has_begun (b.status op_id) ≡ true
      → b.at_work ≡ none
      → c.at_work ≡ some op_id
      → Unchanged b c
      → Move b c
  turned_down :
      (op_id holder : String)
      → has_begun (b.status op_id) ≡ true
      → b.at_work ≡ some holder
      → c.at_work ≡ b.at_work
      → c.status op_id ≡ some failed
      → Elsewhere op_id b c
      → Move b c
  over : (op_id : String) → b.at_work ≡ some op_id → c.at_work ≡ none → Unchanged b c → Move b c
  recorded :
      (op_id : String)
      → has_begun (b.status op_id) ≡ true
      → (c.status op_id ≡ some done) ⊎ (c.status op_id ≡ some failed)
      → Elsewhere op_id b c
      → c.at_work ≡ b.at_work
      → Move b c
  broken_off : (c.at_work ≡ b.at_work) ⊎ (c.at_work ≡ none) → Unchanged b c → Move b c
  restarted : c.at_work ≡ none → ((k : String) → c.status k ≡ settle (b.status k)) → Move b c

pub data Moves (b : Board) : Board → Type 0 where
  still : Moves b b
  then_move : {c d : Board} → Moves b c → Move c d → Moves b d

-- The operation of the process that holds the lock.
abbrev pub work_of : Option ℕ → (ℕ → Phase) → Option String
work_of none phase = none
work_of (some holder) phase = operation (phase holder)

abbrev pub board_of : OpSystem → Board
board_of s = record { at_work = work_of s.lock s.phase; status = λ k. status_of k s.rows }
