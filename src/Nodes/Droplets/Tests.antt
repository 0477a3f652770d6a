-- ===== src/Nodes/Droplets/Tests.antt =====
-- Specs of concrete droplets.
use Prim.Native.String.{◌++◌ as append}
use code_server_spawner.Common.{
  ℕ, ◌==◌, String, true, some, List, [], ◌∷◌, ◌≡◌, refl, Outcome, returns, if◌then◌else◌,
}
use code_server_spawner.Common.Text.{
  before_dot, after_dot, has_dot, strip, lstrip, rstrip, is_number, number_from, drop_prefix,
}
use code_server_spawner.Nodes.Contract.{split_template}
use code_server_spawner.Nodes.Droplets.{
  Droplet, Naming, find_by_name, domain_suffix, resolve_serial, resolve_fqdn, resolve_short,
  resolve_droplet_by_spec,
}

abbrev naming : Naming
naming = record { do_names = "swarm{serial}.x.org"; do_tag = some "cs"; do_project = some "p" }

abbrev droplet : ℕ → String → Droplet
droplet id name = record { id = id; name = name; tags = "cs" ∷ [] }

-- Two droplets with one short name.
abbrev droplets : Outcome (List Droplet)
droplets = returns (droplet 1 "swarm3" ∷ droplet 2 "swarm3.x.org" ∷ droplet 3 "swarm4.x.org" ∷ [])

abbrev show : ℕ → String
show n = if n == 3 then "3" else "4"

abbrev format_serial : String → ℕ → String
format_serial template n = append "swarm" (append (show n) ".x.org")

abbrev resolve : String → Outcome (Droplet × String)
resolve = resolve_droplet_by_spec format_serial show (λ _. true) naming droplets

by_serial : resolve "4" ≡ returns (droplet 3 "swarm4.x.org", "swarm4.x.org")
unfolding resolve_droplet_by_spec resolve_serial find_by_name is_number number_from before_dot
    split_template drop_prefix
by_serial = refl

by_short_name : resolve "swarm4" ≡ returns (droplet 3 "swarm4.x.org", "swarm4.x.org")
unfolding resolve_droplet_by_spec resolve_short find_by_name is_number has_dot domain_suffix
    after_dot strip lstrip rstrip
by_short_name = refl

-- A short name is resolved to a droplet with the full name of another one: to resolve this name, as
-- the graceful removal does again, gives the other droplet.
resolved_twice :
    (resolve "swarm3" ≡ returns (droplet 1 "swarm3", "swarm3.x.org"))
    × (resolve "swarm3.x.org" ≡ returns (droplet 2 "swarm3.x.org", "swarm3.x.org"))
unfolding resolve_droplet_by_spec resolve_short resolve_fqdn find_by_name is_number has_dot
    domain_suffix after_dot strip lstrip rstrip
resolved_twice = (refl, refl)
