-- ===== src/NodeOps/Processes/Tests.antt =====
-- Two processes at one table.
use code_server_spawner.Common.{ℕ, String, true, none, some, [], ◌∷◌, ◌≡◌, refl}
use code_server_spawner.NodeOps.{NodeOp, pending, running, failed, write, start, refuse}
use code_server_spawner.NodeOps.Processes.{
  idle, started, working, OpSystem, OpSite, begins, locks, refuses, Reach, here, next, set_phase,
}
use code_server_spawner.NodeOps.Processes.Laws.{
  status_of, is_working, IsExclusive, IsShown, Reach-IsExclusive,
}

abbrev op_of : String → NodeOp
op_of id = record {
  id = id;
  kind = "rebalance";
  tier = none;
  target_fqdn = none;
  droplet_id = none;
  status = pending;
  exit_code = none;
  log_path = none;
  message = none;
  started_at = none;
  finished_at = none;
}

-- Every command goes through and leaves the table as it is.
abbrev site : OpSite
site = record {
  commands = record {
    expand = λ _ _ rows. (none, rows);
    stop_node = λ _ rows. (none, rows);
    rebalance = λ rows. (none, rows);
    repr = λ _. "None";
  };
  data_dir = "/tmp";
  show_fqdn = λ _. "";
  show_id = λ _. "";
}

abbrev quiet : OpSystem
quiet = record { rows = op_of "a" ∷ op_of "b" ∷ []; lock = none; phase = λ _. idle }

-- Process 1 runs "a" and works. Process 2, which came later, is to run an operation and is refused.
abbrev begun_1 : OpSystem
begun_1 = record quiet {
  rows = write "a" (start "/tmp" "a" 1) quiet.rows;
  phase = set_phase 1 (started "a") quiet.phase;
}

abbrev begun_2 : String → OpSystem
begun_2 other = record begun_1 {
  rows = write other (start "/tmp" other 2) begun_1.rows;
  phase = set_phase 2 (started other) begun_1.phase;
}

abbrev locked_1 : String → OpSystem
locked_1 other = record (begun_2 other) {
  lock = some 1;
  phase = set_phase 1 (working "a") (begun_2 other).phase;
}

abbrev refused_2 : String → OpSystem
refused_2 other = record (locked_1 other) {
  rows = write other (refuse 3) (locked_1 other).rows;
  phase = set_phase 2 idle (locked_1 other).phase;
}

-- With two operations each row tells its own. With one, the refusal of the second process is written
-- over the row of the operation that runs.
refused-statuses :
    (status_of "a" (refused_2 "b").rows ≡ some running)
    × (status_of "b" (refused_2 "b").rows ≡ some failed)
    × (status_of "a" (refused_2 "a").rows ≡ some failed)
    × ((refused_2 "a").phase 1 ≡ working "a")
refused-statuses = (refl, refl, refl, refl)

abbrev twice : Reach site quiet (refused_2 "a")
twice =
    next
      (next
        (next (next here (begins quiet 1 "a" (op_of "a") 1 refl refl))
          (begins begun_1 2 "a" (start "/tmp" "a" 1 (op_of "a")) 2 refl refl))
        (locks (begun_2 "a") 1 "a" refl refl))
      (refuses (locked_1 "a") 2 "a" 1 3 refl refl)

Reach-IsExclusive_example :
    ((a b : ℕ)
      → is_working ((refused_2 "a").phase a) ≡ true
      → is_working ((refused_2 "a").phase b) ≡ true
      → a ≡ b)
    × IsExclusive (refused_2 "a")
    × IsShown (refused_2 "a")
Reach-IsExclusive_example =
    Reach-IsExclusive site (λ k rows. ((λ _ _. refl), (λ _. refl), refl)) (λ _. refl) refl twice
