-- ===== src/Nodes/Purge/Tests.antt =====
-- Purges of concrete sides.
use code_server_spawner.Common.{
  ℕ, String, Bool, true, false, List, [], ◌∷◌, ◌≡◌, refl, map, keep, returns, arith,
}
use code_server_spawner.Common.Text.{before_dot, strip, lstrip, rstrip}
use code_server_spawner.Nodes.Droplets.{Droplet}
use code_server_spawner.Nodes.Removal.{Member}
use code_server_spawner.Nodes.Purge.{
  PurgeAnswers, Sides, swarm_nodes, droplet_map, destroy_all, remove_all, expand_purge,
}
use code_server_spawner.Nodes.Purge.Laws.{is_matched, expand_purge-spares}

abbrev droplet : ℕ → String → Droplet
droplet id name = record { id = id; name = name; tags = [] }

abbrev member : String → String → Member
member id hostname = record { id = id; hostname = hostname; availability = "active" }

-- A node with its droplet, a node without one, and a droplet without a node.
abbrev sides : Sides
sides = record {
  members = member "a" "swarm1" ∷ member "b" "swarm2" ∷ [];
  droplets = droplet 1 "swarm1.x.org" ∷ droplet 3 "swarm3.x.org" ∷ [];
}

abbrev answers : Bool → Bool → PurgeAnswers
answers nodes droplets = record {
  lists_nodes = nodes;
  lists_droplets = droplets;
  destroy_fails = λ _. false;
  remove_fails = λ _. false;
}

abbrev left : PurgeAnswers → List String × List ℕ
left a =
    let (_, s) = expand_purge a false sides in
    (map (λ m. Member.id m) s.members, map (λ d. Droplet.id d) s.droplets)

both_listed : left (answers true true) ≡ ("a" ∷ [], 1 ∷ [])
unfolding expand_purge swarm_nodes droplet_map destroy_all remove_all before_dot strip lstrip rstrip
both_listed = refl

-- When the nodes of the swarm cannot be listed, every droplet is destroyed, and the purge ends well.
nodes_unlisted :
    (left (answers false true) ≡ ("a" ∷ "b" ∷ [], []))
    × ((expand_purge (answers false true) false sides).0 ≡ returns tt)
unfolding expand_purge swarm_nodes droplet_map destroy_all remove_all before_dot strip lstrip rstrip
nodes_unlisted = (refl, refl)

-- When the droplets cannot be listed, every node is removed from the swarm.
droplets_unlisted : left (answers true false) ≡ ([], 1 ∷ 3 ∷ [])
unfolding expand_purge swarm_nodes droplet_map destroy_all remove_all before_dot strip lstrip rstrip
droplets_unlisted = refl

expand_purge-spares_example :
    keep (is_matched sides.members) (expand_purge (answers true true) false sides).1.droplets
    ≡ droplet 1 "swarm1.x.org" ∷ []
unfolding before_dot strip lstrip rstrip
expand_purge-spares_example =
    expand_purge-spares (answers true true) false sides
      (((λ e. absurd (omega (arith, e))), tt), (tt, tt)) refl
