-- ===== src/Nodes/Contract.antt =====
-- Shrinking the swarm by one node: `contract_node`, its choice of a node and the pattern of the
-- node names, in cspawn/cli/node.py. The connection to Docker and what Docker answers are
-- arguments.
pub mod Order
pub mod Laws
pub mod Safety
mod Tests
use Prim.Native.Char.{code}
use code_server_spawner.Common.{
  ℕ, ◌+◌, ◌-◌, ◌*◌, String, Bool, true, false, not, ◌&&◌, ◌||◌, Option, none, some, List, [], ◌∷◌,
  ◌==◌, ltb, str_eq, is_some, if◌then◌else◌, Outcome, raises, returns, ◌>>=◌, ◌>>◌, outside,
}
use code_server_spawner.Common.Int.{ℤ, ltb_ℤ}
use code_server_spawner.Common.Dict.{Dict, lookup, get_or}
use code_server_spawner.Common.Sort.{sort_by}
use code_server_spawner.Common.Text.{before_dot, drop_prefix, strip, spells, is_digit}
use code_server_spawner.Config.{Config}
use code_server_spawner.Tiers.{node_capacity}

-- A node as Docker lists it.
pub record WorkerNode : Type 0 where
  pub hostname : String
  pub role : String
  pub is_leader : Bool
  pub labels : Dict String

-- `name_template.split("{serial}", 1)`, where it has two parts
unfoldable pub split_template : String → Option (String × String)
unfolding drop_prefix
split_template String.[] = none
split_template (String.◌∷◌ c s) =
    let rest = split_template s in
    elim (drop_prefix "{serial}" (String.◌∷◌ c s)) [
      | some suffix ↦ some ("", suffix)
      | none ↦ elim rest [
        | none ↦ none
        | some (prefix, suffix) ↦ some (String.◌∷◌ c prefix, suffix)
      ]
    ]

-- What stands behind the digits matches: the suffix, or nothing where the suffix starts with a dot.
abbrev pub ends_name : String → String → Bool
ends_name suffix s = str_eq s suffix || (is_some (drop_prefix "." suffix) && str_eq s "")

-- The digits as a number: as many of them as leave a match, one at least.
unfoldable pub match_digits : String → ℕ → String → Option ℕ
match_digits suffix n String.[] = none
match_digits suffix n (String.◌∷◌ c s) =
    let longer = match_digits suffix (n * 10 + (code c - b'0')) s in
    if is_digit (code c)
    then elim longer [
      | some k ↦ some k
      | none ↦ if ends_name suffix s then some (n * 10 + (code c - b'0')) else none
    ]
    else none

-- `int(pat.match(hostname).group(1))`, where the pattern matches
unfoldable pub match_serial : String × String → String → Option ℕ
unfolding match_digits drop_prefix
match_serial (prefix, suffix) hostname = elim (drop_prefix prefix hostname) [
  | none ↦ none
  | some rest ↦ match_digits suffix 0 rest
]

-- `_regex_from_template(name_template)`: what the pattern gives of a name
abbrev pub regex_from_template : String → Outcome (String → Option ℕ)
regex_from_template name_template = elim (split_template name_template) [
  | none ↦ raises (outside "name_template must contain '{serial}' placeholder")
  | some parts ↦ returns (match_serial parts)
]

-- The tuples that are sorted: the running hosts, the capacity, the serial and the hostname.
pub record Candidate : Type 0 where
  pub hosts : ℕ
  pub capacity : ℤ
  pub serial : ℕ
  pub fqdn : String

-- The order of texts, by their code points.
unfoldable pub text_before : String → String → Bool
text_before s String.[] = false
text_before String.[] (String.◌∷◌ d t) = true
text_before (String.◌∷◌ c s) (String.◌∷◌ d t) =
    let rest = text_before s t in
    if ltb (code c) (code d) then true else if ltb (code d) (code c) then false else rest

-- `(cap, -serial, serial, hostname)`: the third place is settled by the second
abbrev pub smaller : Candidate → Candidate → Bool
smaller a b =
    if ltb_ℤ a.capacity b.capacity
    then true
    else if ltb_ℤ b.capacity a.capacity
    then false
    else if ltb b.serial a.serial
    then true
    else if ltb a.serial b.serial
    then false
    else text_before a.fqdn b.fqdn

-- `(host_count, cap, -serial, serial, hostname)`
abbrev pub less_loaded : Candidate → Candidate → Bool
less_loaded a b =
    if ltb a.hosts b.hosts then true else if ltb b.hosts a.hosts then false else smaller a b

module _ (cfg : Config) (pat : String → Option ℕ) (running : Dict ℕ) where
  -- `is_leader or role == "manager"`
  abbrev pub is_ruler : WorkerNode → Bool
  is_ruler n = n.is_leader || spells n.role "manager"

  -- The body of the loops, without the test for the running hosts.
  pub candidate : WorkerNode → Option Candidate
  unfolding strip before_dot
  candidate n =
      let hostname = strip n.hostname in
      elim (pat hostname) [
        | none ↦ none
        | some serial ↦
            if str_eq hostname "" || is_ruler n
            then none
            else some (record {
              hosts = get_or (before_dot hostname) running 0;
              capacity = node_capacity n.labels cfg;
              serial = serial;
              fqdn = hostname;
            })
      ]

  -- The loop of `_select_drain_candidate`.
  pub workers : List WorkerNode → List Candidate
  unfolding candidate
  workers [] = []
  workers (n ∷ ns) = elim (candidate n) [ none ↦ workers ns | some c ↦ c ∷ workers ns ]

  -- The loop of `_select_contract_candidate`: no node with a running host.
  pub empty_workers : List WorkerNode → List Candidate
  unfolding candidate
  empty_workers [] = []
  empty_workers (n ∷ ns) =
      let rest = empty_workers ns in
      elim (candidate n) [ none ↦ rest | some c ↦ if ltb 0 c.hosts then rest else c ∷ rest ]

-- `candidates[0]`, after the sort
abbrev pub first_of : List Candidate → Option (ℕ × String)
first_of [] = none
first_of (c ∷ cs) = some (c.serial, c.fqdn)

-- `cfg.get("DO_NAMES")`, where it is truthy
abbrev pub setting : String → Config → Option String
setting key cfg = elim (lookup key cfg) [
  | none ↦ none
  | some s ↦ if str_eq s "" then none else some s
]

-- What Docker answers when it is asked for the running hosts and the nodes, or its exception.
abbrev pub Answer : Type 0
Answer = Outcome (Dict ℕ × List WorkerNode)

-- `_select_contract_candidate(client, cfg)`
unfoldable pub select_contract_candidate : Config → Answer → Outcome (Option (ℕ × String))
unfolding split_template match_serial empty_workers
select_contract_candidate cfg answer = elim (setting "DO_NAMES" cfg) [
  | none ↦ returns none
  | some name_template ↦ do
    pat ← regex_from_template name_template
    (running, nodes) ← answer
    returns (first_of (sort_by smaller (empty_workers cfg pat running nodes)))
]

-- `_select_drain_candidate(client, cfg)`
unfoldable pub select_drain_candidate : Config → Answer → Outcome (Option (ℕ × String))
unfolding split_template match_serial workers
select_drain_candidate cfg answer = elim (setting "DO_NAMES" cfg) [
  | none ↦ returns none
  | some name_template ↦ do
    pat ← regex_from_template name_template
    (running, nodes) ← answer
    returns (first_of (sort_by less_loaded (workers cfg pat running nodes)))
]

-- How `contract_node` ends: it says that there is no node, it says what it would do, with or without
-- a drain, or it stops a node.
pub data Decision : Type 0 where
  no_node : Decision
  would_stop would_drain : ℕ → String → Decision
  stops : String → Decision

-- A node that is stopped, or what is said of it in a dry run.
abbrev pub chosen : (ℕ → String → Decision) → Bool → Option (ℕ × String) → Decision
chosen would dry_run none = no_node
chosen would dry_run (some (serial, fqdn)) = if dry_run then would serial fqdn else stops fqdn

-- A `ClickException` around another exception, by the head of its text.
abbrev pub wrap {ℓ} : {A : Type ℓ} → String → Outcome A → Outcome A
wrap said (raises _) = raises (outside said)
wrap said (returns a) = returns a

-- `contract_node(ctx, dry_run, force_drain)`, with what the connection answers, and what Docker does
-- when it is asked for the first and for the second time.
unfoldable pub contract_node :
    Config → Outcome (Unit {0}) → Answer → Answer → Bool → Bool → Outcome Decision
unfolding select_contract_candidate select_drain_candidate
contract_node cfg connection first second dry_run force_drain =
    if is_some (setting "DOCKER_URI" cfg) && is_some (setting "DO_NAMES" cfg)
    then (do
      wrap "Failed to connect to docker manager" connection
      result ← wrap "Failed to select contract candidate" (select_contract_candidate cfg first)
      (if not (is_some result) && force_drain
          then (do
            loaded ← wrap "Failed to select drain candidate" (select_drain_candidate cfg second)
            returns (chosen would_drain dry_run loaded))
          else returns (chosen would_stop dry_run result)))
    else raises (outside "Missing DOCKER_URI or DO_NAMES in configuration")
