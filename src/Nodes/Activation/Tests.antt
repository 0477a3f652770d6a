-- ===== src/Nodes/Activation/Tests.antt =====
-- Activations of a concrete node.
use code_server_spawner.Common.{ℕ, ◌==◌, true, false, ◌≡◌, refl, if◌then◌else◌, arith}
use code_server_spawner.Common.Text.{spells}
use code_server_spawner.Nodes.Removal.{type_error, fails}
use code_server_spawner.Nodes.Activation.{
  NodeState, AttemptAnswers, attempt_once, activate_from, activate_swarm_node,
  activate_swarm_node-IsTrue,
}

-- The node was drained after the caller's object was read.
abbrev drained_since : NodeState
drained_since = record { availability = "drain"; cached = "active" }

-- The first attempt fails, and the second goes through by the low-level call.
abbrev second_time : ℕ → AttemptAnswers
second_time k = record {
  reloads = false;
  refetches = true;
  channel = record {
    high_level = if k == 1 then fails else type_error;
    capitalized = false;
    low_level = true;
  };
}

-- Nothing can be read again.
abbrev stale : ℕ → AttemptAnswers
stale _ = record {
  reloads = false;
  refetches = false;
  channel = record { high_level = fails; capitalized = false; low_level = false };
}

-- With an object that cannot be read again the answer can be wrong.
activate_swarm_node-stale : activate_swarm_node stale 3 drained_since ≡ (true, drained_since)
unfolding activate_from attempt_once spells
activate_swarm_node-stale = refl

activate_swarm_node-IsTrue_example : true ≡ spells "active" "active"
unfolding activate_from attempt_once spells
activate_swarm_node-IsTrue_example =
    activate_swarm_node-IsTrue second_time (λ _. refl) 3 drained_since (omega arith)
