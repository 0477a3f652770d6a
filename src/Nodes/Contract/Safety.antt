-- ===== src/Nodes/Contract/Safety.antt =====
-- Which nodes a contraction can stop.
use mathlib.Core.Path.{subst}
use code_server_spawner.Common.{
  ℕ, String, Bool, true, false, ◌&&◌, Option, none, some, List, [], ◌∷◌, ◌≡◌, refl, sym, ap, ◌≢◌,
  ◌∙◌, ◌⊎◌, inl, inr, arith, is_some, All, Bool-cases, Option-cases, List-cases, Outcome, returns,
  returns-injective, Outcome-cases,
}
use code_server_spawner.Common.Dict.{Dict, get_or}
use code_server_spawner.Common.Sort.{sort_by}
use code_server_spawner.Common.Sort.Laws.{All-map}
use code_server_spawner.Common.Text.{before_dot, strip, spells}
use code_server_spawner.Config.{Config}
use code_server_spawner.Nodes.Contract.{
  WorkerNode, Candidate, smaller, less_loaded, candidate, workers, empty_workers, first_of, setting,
  regex_from_template, Answer, select_contract_candidate, select_drain_candidate, Decision,
  would_stop, would_drain, stops, chosen, contract_node,
}
use code_server_spawner.Nodes.Contract.Laws.{first_is_one, All-empty_workers}

-- Some element satisfies `P`.
abbrev pub Any : (WorkerNode → Type 0) → List WorkerNode → Type 0
Any P [] = ⊥
Any P (n ∷ ns) = P n ⊎ Any P ns

-- A node of this name that is no leader and no manager.
abbrev pub IsWorker : String → WorkerNode → Type 0
IsWorker fqdn n =
    (strip n.hostname ≡ fqdn) × (n.is_leader ≡ false) × (spells n.role "manager" ≡ false)

module _ (cfg : Config) (pat : String → Option ℕ) (running : Dict ℕ) where
  -- A candidate stands for a worker of the list, with the running hosts of its short name.
  abbrev StandsFor : List WorkerNode → Candidate → Type 0
  StandsFor ns c = Any (IsWorker c.fqdn) ns × (c.hosts ≡ get_or (before_dot c.fqdn) running 0)

  candidate-IsWorker :
      (n : WorkerNode) (c : Candidate)
      → candidate cfg pat running n ≡ some c
      → IsWorker c.fqdn n × (c.hosts ≡ get_or (before_dot c.fqdn) running 0)
  unfolding candidate
  candidate-IsWorker n c h = ground (arith, h)

  workers-StandsFor : (ns : List WorkerNode) → All (StandsFor ns) (workers cfg pat running ns)
  unfolding workers
  workers-StandsFor [] = tt
  workers-StandsFor (n ∷ ns) =
      let rest =
        All-map (workers cfg pat running ns) (λ c (a, e). (inr a, e)) (workers-StandsFor ns) in
      elim (Option-cases (candidate cfg pat running n)) [
        | inl e ↦ rw (workers, e) rest
        | inr (c, e) ↦
            let (is_worker, hosts) = candidate-IsWorker n c e in
            rw (workers, e) ((inl is_worker, hosts), rest)
      ]

  first_of-holds :
      (before : Candidate → Candidate → Bool) (P : String → Type 0) (cs : List Candidate)
      (serial : ℕ) (fqdn : String)
      → All (λ c. P c.fqdn) cs
      → first_of (sort_by before cs) ≡ some (serial, fqdn)
      → P fqdn
  first_of-holds before P cs serial fqdn all h = elim (List-cases (sort_by before cs)) [
    | inl e ↦ absurd (cc (rw e at h))
    | inr (c, rest, e) ↦
        let (same, _) : (c.fqdn ≡ fqdn) × (c.serial ≡ serial) = ground (arith, rw e at h) in
        subst P same (first_is_one before (λ c. P c.fqdn) cs c rest e all)
  ]

-- A node of the answer that can be stopped by default: a worker with no running host.
abbrev pub IsEmptyChoice : Answer → String → Type 0
IsEmptyChoice answer fqdn =
    (running : Dict ℕ) × (nodes : List WorkerNode) × (answer ≡ returns (running, nodes))
    × Any (IsWorker fqdn) nodes
    × (get_or (before_dot fqdn) running 0 ≡ 0)

-- One that can be stopped by a drain: a worker.
abbrev pub IsChoice : Answer → String → Type 0
IsChoice answer fqdn =
    (running : Dict ℕ) × (nodes : List WorkerNode) × (answer ≡ returns (running, nodes))
    × Any (IsWorker fqdn) nodes

select_contract_candidate-IsEmptyChoice :
    (cfg : Config) (answer : Answer) (serial : ℕ) (fqdn : String)
    → select_contract_candidate cfg answer ≡ returns (some (serial, fqdn))
    → IsEmptyChoice answer fqdn
unfolding select_contract_candidate
select_contract_candidate-IsEmptyChoice cfg answer serial fqdn h =
    elim (Option-cases (setting "DO_NAMES" cfg)) [
      | inl e ↦ absurd (cc (rw (select_contract_candidate, e) at h))
      | inr (template, e) ↦ elim (Outcome-cases (regex_from_template template)) [
        | inl (exc, f) ↦ absurd (cc (rw (select_contract_candidate, e, f) at h))
        | inr (pat, f) ↦ elim (Outcome-cases answer) [
          | inl (exc, g) ↦ absurd (cc (rw (select_contract_candidate, e, f, g) at h))
          | inr ((running, nodes), g) ↦
              let same = returns-injective (rw (select_contract_candidate, e, f, g) at h) in
              let all =
                All-map (empty_workers cfg pat running nodes) (λ c ((a, k), z). (a, sym k ∙ z))
                  (All-empty_workers cfg pat running (StandsFor cfg pat running nodes) nodes
                    (workers-StandsFor cfg pat running nodes)) in
              let (a, z) =
                first_of-holds cfg pat running smaller
                  (λ fq. Any (IsWorker fq) nodes × (get_or (before_dot fq) running 0 ≡ 0))
                  (empty_workers cfg pat running nodes) serial fqdn all same in
              (running, nodes, g, a, z)
        ]
      ]
    ]

select_drain_candidate-IsChoice :
    (cfg : Config) (answer : Answer) (serial : ℕ) (fqdn : String)
    → select_drain_candidate cfg answer ≡ returns (some (serial, fqdn))
    → IsChoice answer fqdn
unfolding select_drain_candidate
select_drain_candidate-IsChoice cfg answer serial fqdn h =
    elim (Option-cases (setting "DO_NAMES" cfg)) [
      | inl e ↦ absurd (cc (rw (select_drain_candidate, e) at h))
      | inr (template, e) ↦ elim (Outcome-cases (regex_from_template template)) [
        | inl (exc, f) ↦ absurd (cc (rw (select_drain_candidate, e, f) at h))
        | inr (pat, f) ↦ elim (Outcome-cases answer) [
          | inl (exc, g) ↦ absurd (cc (rw (select_drain_candidate, e, f, g) at h))
          | inr ((running, nodes), g) ↦
              let same = returns-injective (rw (select_drain_candidate, e, f, g) at h) in
              let all =
                All-map (workers cfg pat running nodes) (λ c (a, k). a)
                  (workers-StandsFor cfg pat running nodes) in
              (
                running,
                nodes,
                g,
                first_of-holds cfg pat running less_loaded (λ fq. Any (IsWorker fq) nodes)
                    (workers cfg pat running nodes) serial fqdn all same,
              )
        ]
      ]
    ]

stops_chosen :
    (would : ℕ → String → Decision)
    → ((serial : ℕ) (fqdn other : String) → would serial fqdn ≢ stops other)
    → (dry_run : Bool) (x : Option (ℕ × String)) (fqdn : String)
    → returns (chosen would dry_run x) ≡ returns (stops fqdn)
    → (dry_run ≡ false) × ((serial : ℕ) × (x ≡ some (serial, fqdn)))
stops_chosen would ne dry_run none fqdn h = absurd (cc h)
stops_chosen would ne true (some (serial, name)) fqdn h =
    absurd (ne serial name fqdn (returns-injective h))
stops_chosen would ne false (some (serial, name)) fqdn h =
    let same : stops name ≡ stops fqdn = returns-injective h in
    (refl, (serial, ground (arith, same)))

-- A contraction stops at most one node, a worker and no leader, and none in a dry run. By default the
-- node has no running host; only with the drain forced can it have one, and only when no empty
-- worker was found.
pub contract_node-spares :
    (cfg : Config) (connection : Outcome (Unit {0})) (first second : Answer)
    (dry_run force_drain : Bool) (fqdn : String)
    → contract_node cfg connection first second dry_run force_drain ≡ returns (stops fqdn)
    → (dry_run ≡ false)
      × (IsEmptyChoice first fqdn
          ⊎ (force_drain ≡ true)
            × (select_contract_candidate cfg first ≡ returns none)
            × IsChoice second fqdn)
unfolding contract_node
contract_node-spares cfg connection first second dry_run force_drain fqdn h =
    let E = select_contract_candidate cfg first in
    let D = select_drain_candidate cfg second in
    let known = is_some (setting "DOCKER_URI" cfg) && is_some (setting "DO_NAMES" cfg) in
    elim (Bool-cases known) [
      | inr e ↦ absurd (cc (rw (contract_node, e) at h))
      | inl e ↦ elim (Outcome-cases connection) [
        | inl (exc, f) ↦ absurd (cc (rw (contract_node, e, f) at h))
        | inr (u, f) ↦ elim (Outcome-cases E) [
          | inl (exc, g) ↦ absurd (cc (rw (contract_node, e, f, g) at h))
          | inr (none, g) ↦ elim (Bool-cases force_drain) [
            | inr k ↦ absurd (cc (rw (contract_node, e, f, g, k) at h))
            | inl k ↦ elim (Outcome-cases D) [
              | inl (exc, d) ↦ absurd (cc (rw (contract_node, e, f, g, k, d) at h))
              | inr (x, d) ↦
                  let (no_dry, (serial, same)) =
                    stops_chosen would_drain (λ _ _ _ e. cc e) dry_run x fqdn
                      (rw (contract_node, e, f, g, k, d) at h) in
                  (
                    no_dry,
                    inr (
                      k,
                      g,
                      select_drain_candidate-IsChoice cfg second serial fqdn
                          (d ∙ ap (λ x. returns x) same),
                    ),
                  )
            ]
          ]
          | inr (some x, g) ↦
              let (no_dry, (serial, same)) =
                stops_chosen would_stop (λ _ _ _ e. cc e) dry_run (some x) fqdn
                  (rw (contract_node, e, f, g) at h) in
              (
                no_dry,
                inl (
                    select_contract_candidate-IsEmptyChoice cfg first serial fqdn
                      (g ∙ ap (λ x. returns x) same)),
              )
        ]
      ]
    ]
