-- ===== src/Nodes/Purge.antt =====
-- Bringing droplets and swarm nodes in line: `expand_purge` of cspawn/cli/node.py, with the branch of
-- `_list_droplets_by_tag_or_project` that it takes, over the nodes of the swarm and the droplets.
-- What the listings, the destructions and the removals answer is an argument.
pub mod Laws
mod Tests
use code_server_spawner.Common.{
  ℕ, ◌+◌, String, Bool, true, false, not, ◌&&◌, ◌||◌, ◌==◌, Option, none, some, List, [], ◌∷◌, ◌≡◌,
  refl, ◌∙◌, ◌⊎◌, inl, inr, arith, str_eq, eq_iff, is_some, keep, if◌then◌else◌, All, Outcome,
  raises, returns, outside, Bool-cases,
}
use code_server_spawner.Common.Dict.{Dict, lookup, insert, lookup-insert}
use code_server_spawner.Common.Text.{before_dot, strip}
use code_server_spawner.Nodes.Droplets.{Droplet}
use code_server_spawner.Nodes.Removal.{Member}

-- The two listings, each of which may fail, and the answers to the actions.
pub record PurgeAnswers : Type 0 where
  pub lists_nodes : Bool
  pub lists_droplets : Bool
  pub destroy_fails : Droplet → Bool
  pub remove_fails : Member → Bool

-- The nodes of the swarm and the droplets with the tag.
pub record Sides : Type 0 where
  pub members : List Member
  pub droplets : List Droplet

-- `swarm_nodes`, by short names; a later node takes the place of an earlier one
unfoldable pub swarm_nodes : List Member → Dict Member → Dict Member
unfolding before_dot
swarm_nodes [] d = d
swarm_nodes (m ∷ ms) d =
    swarm_nodes ms (if str_eq m.hostname "" then d else insert (before_dot m.hostname) m d)

-- `droplet_map`
unfoldable pub droplet_map : List Droplet → Dict Droplet → Dict Droplet
unfolding before_dot strip
droplet_map [] d = d
droplet_map (x ∷ xs) d =
    droplet_map xs (if str_eq (strip x.name) "" then d else insert (before_dot (strip x.name)) x d)

module _ {A B : Type 0} where
  -- The entries whose keys the other dict lacks.
  abbrev pub unmatched : Dict A → Dict B → List A
  unmatched [] other = []
  unmatched ((k, a) ∷ d) other =
      let rest = unmatched d other in if is_some (lookup k other) then rest else a ∷ rest

module _ (answers : PurgeAnswers) where
  -- The loop over the droplets to destroy: the errors, and the droplets.
  pub destroy_all : List Droplet → ℕ → List Droplet → ℕ × List Droplet
  destroy_all [] errors droplets = (errors, droplets)
  destroy_all (x ∷ xs) errors droplets =
      if answers.destroy_fails x
      then destroy_all xs (errors + 1) droplets
      else destroy_all xs errors (keep (λ d. not (d.id == x.id)) droplets)

  -- The loop over the nodes to remove.
  pub remove_all : List Member → ℕ → List Member → ℕ × List Member
  remove_all [] errors members = (errors, members)
  remove_all (m ∷ ms) errors members =
      if answers.remove_fails m
      then remove_all ms (errors + 1) members
      else remove_all ms errors (keep (λ x. not (str_eq x.id m.id)) members)

  -- `expand_purge(ctx, dry_run)`, with the settings present and the client connected
  unfoldable pub expand_purge : Bool → Sides → Outcome (Unit {0}) × Sides
  unfolding swarm_nodes droplet_map destroy_all remove_all
  expand_purge dry_run s =
      let nodes = swarm_nodes (if answers.lists_nodes then s.members else []) [] in
      let named = droplet_map (if answers.lists_droplets then s.droplets else []) [] in
      let (errors, droplets) = destroy_all (unmatched named nodes) 0 s.droplets in
      let (all_errors, members) = remove_all (unmatched nodes named) errors s.members in
      if dry_run then (returns tt, s) else (
        if all_errors == 0 then returns tt else raises (outside "Purge completed with errors"),
        record { members = members; droplets = droplets },
      )
