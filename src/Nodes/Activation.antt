-- ===== src/Nodes/Activation.antt =====
-- The activation of a node with its retries: `_activate_swarm_node` of cspawn/cli/node.py. What
-- Docker answers to each attempt is an argument; the waits between them are left out.
mod Tests
use mathlib.Core.Path.{subst}
use native.Mathlib.Numerals.{unary_clauses}
use code_server_spawner.Common.{
  ℕ, zero, suc, ◌+◌, ◌<◌, String, Bool, true, false, ◌||◌, ◌≡◌, refl, sym, ◌∙◌, if-elim, inl, inr,
  ◌⊎◌, arith, if◌then◌else◌, Bool-cases,
}
use code_server_spawner.Common.Text.{spells}
use code_server_spawner.Nodes.Removal.{Channel, chain_applies}

-- The availability that the swarm has for the node, and the one of the object that the caller holds.
pub record NodeState : Type 0 where
  pub availability : String
  pub cached : String

-- Whether the object can be reloaded, or else fetched again, and the answers to the update.
pub record AttemptAnswers : Type 0 where
  pub reloads : Bool
  pub refetches : Bool
  pub channel : Channel

-- The object is up to date.
abbrev pub is_fresh : AttemptAnswers → Bool
is_fresh a = a.reloads || a.refetches

abbrev pub refresh : AttemptAnswers → NodeState → NodeState
refresh a s = if is_fresh a then record s { cached = s.availability } else s

-- `_attempt_once()`: false stands for an exception
pub attempt_once : AttemptAnswers → NodeState → Bool × NodeState
unfolding spells
attempt_once a s =
    let r = refresh a s in
    if spells r.cached "active"
    then (true, r)
    else if chain_applies a.channel
    then (true, record r { availability = "active" })
    else (false, r)

-- `_activate_swarm_node(manager_client, node_obj, retries=retries)`, from the attempt with this
-- number
unfoldable pub activate_from : (ℕ → AttemptAnswers) → ℕ → ℕ → NodeState → Bool × NodeState
unfolding attempt_once
activate_from answers attempt zero s = (false, s)
activate_from answers attempt (suc retries) s =
    let (ok, s') = attempt_once (answers attempt) s in
    let later = activate_from answers (attempt + 1) retries s' in if ok then (true, s') else later

abbrev pub activate_swarm_node : (ℕ → AttemptAnswers) → ℕ → NodeState → Bool × NodeState
activate_swarm_node answers retries s = activate_from answers 1 retries s

attempt_once-IsTrue :
    (a : AttemptAnswers) (s : NodeState)
    → is_fresh a ≡ true
    → let (ok, s') = attempt_once a s in ok ≡ spells s'.availability "active"
unfolding attempt_once spells
attempt_once-IsTrue a s fresh = elim (Bool-cases (spells s.availability "active")) [
  | inl e ↦ rw (fresh, e) (sym e)
  | inr e ↦ elim (Bool-cases (chain_applies a.channel)) [
    | inl f ↦ rw (fresh, e, f) refl
    | inr f ↦ rw (fresh, e, f) (sym e)
  ]
]

attempt_once-succeeds :
    (a : AttemptAnswers) (s : NodeState)
    → chain_applies a.channel ≡ true
    → (attempt_once a s).0 ≡ true
unfolding attempt_once
attempt_once-succeeds a s f =
    rw f (if-elim (λ (r : Bool × NodeState). r.0 ≡ true) _ (λ _. refl) (λ _. refl))

module _ (answers : ℕ → AttemptAnswers) (fresh : (k : ℕ) → is_fresh (answers k) ≡ true) where
  -- The answer of some attempts is the truth, where it is for the one before them.
  more_attempts :
      (attempt retries : ℕ) (s : NodeState)
      → spells s.availability "active" ≡ false
      → let (ok, s') = activate_from answers attempt retries s in
        ok ≡ spells s'.availability "active"
  unfolding activate_from
  more_attempts attempt zero s h = sym h
  more_attempts attempt (suc retries) s h =
      let (ok, s') = attempt_once (answers attempt) s in
      let once = attempt_once-IsTrue (answers attempt) s (fresh attempt) in
      elim (Bool-cases (attempt_once (answers attempt) s).0) [
        | inl e ↦ rw e (sym e ∙ once)
        | inr e ↦ rw e (more_attempts (attempt + 1) retries s' (sym once ∙ e))
      ]

  -- With at least one attempt, and with the object up to date in each, the answer is the truth: the
  -- swarm has the node as active when it is true, and not when it is false.
  pub activate_swarm_node-IsTrue :
      (retries : ℕ) (s : NodeState)
      → 0 < retries
      → let (ok, s') = activate_swarm_node answers retries s in ok ≡ spells s'.availability "active"
  unfolding activate_from
  activate_swarm_node-IsTrue zero s h = absurd (omega (arith, h))
  activate_swarm_node-IsTrue (suc retries) s h =
      let (ok, s') = attempt_once (answers 1) s in
      let once = attempt_once-IsTrue (answers 1) s (fresh 1) in
      elim (Bool-cases (attempt_once (answers 1) s).0) [
        | inl e ↦ rw e (sym e ∙ once)
        | inr e ↦ rw e (more_attempts 2 retries s' (sym once ∙ e))
      ]

module _ (answers : ℕ → AttemptAnswers) where
  activate_from-succeeds :
      (attempt retries k : ℕ) (s : NodeState)
      → k < retries
      → chain_applies (answers (attempt + k)).channel ≡ true
      → (activate_from answers attempt retries s).0 ≡ true
  unfolding activate_from
  activate_from-succeeds attempt zero k s h c = absurd (omega (arith, h))
  activate_from-succeeds attempt (suc retries) zero s h c =
      let now : (attempt_once (answers attempt) s).0 ≡ true =
        attempt_once-succeeds (answers attempt) s (simp unary_clauses at c) in
      rw now refl
  activate_from-succeeds attempt (suc retries) (suc k) s h c =
      let (ok, s') = attempt_once (answers attempt) s in
      let later =
        activate_from-succeeds (attempt + 1) retries k s' (omega (arith, h))
          (subst (λ (n : ℕ). chain_applies (answers n).channel ≡ true) (omega arith) c) in
      elim (Bool-cases (attempt_once (answers attempt) s).0) [
        | inl e ↦ rw e refl
        | inr e ↦ rw e later
      ]

  -- One attempt whose update goes through is enough, whatever happens in those before it.
  pub activate_swarm_node-succeeds :
      (retries k : ℕ) (s : NodeState)
      → k < retries
      → chain_applies (answers (1 + k)).channel ≡ true
      → (activate_swarm_node answers retries s).0 ≡ true
  activate_swarm_node-succeeds retries k s h c = activate_from-succeeds 1 retries k s h c
