-- ===== src/Autoscale/Gather.antt =====
-- The snapshot at the start of a cycle: `gather_cluster_state` of cspawn/cs_docker/autoscale.py,
-- and the record of the nodes that are empty.
pub mod Nodes
pub mod Laws
use code_server_spawner.Common.{
  ℕ, String, Bool, true, false, not, ◌&&◌, Option, none, some, List, [], ◌∷◌, str_eq, ◌==◌, keep,
  count_if, map, is_some, if◌then◌else◌,
}
use code_server_spawner.Common.Dict.{Dict, contains, lookup, insert, get_or}
use code_server_spawner.Common.Text.{before_dot}
use code_server_spawner.Common.Time.{Datetime, aware}
use code_server_spawner.Hosts.{CodeHost, is_mia, is_purgeable}
use code_server_spawner.Classes.{Class}
use code_server_spawner.Autoscale.State.{NodeAttrs}
use code_server_spawner.Autoscale.Demand.{ClassRow, HostRow, is_pending}

-- A row of `host_rows` for a row of the table, at the time `now`.
abbrev pub host_row : ℕ → CodeHost → HostRow
host_row now h = record {
  is_mia = is_mia h;
  is_purgeable = is_purgeable now h;
  app_state = h.app_state;
  node_name = h.node_name;
  class_id = h.class_id;
}

-- A row of `class_rows`; `students` gives the number of students of a class.
abbrev pub class_row : (ℕ → ℕ) → Class → ClassRow
class_row students c = record {
  id = some c.id;
  purge_after = c.purge_after;
  purge_by = c.purge_by;
  students = students c.id;
}

-- The filter of the query for the classes.
abbrev pub has_window : Class → Bool
has_window c = is_some c.purge_after && is_some c.purge_by

-- `pending_count`
abbrev pub pending_count : List HostRow → ℕ
pending_count rows = count_if is_pending rows

-- `short_to_fqdn`, from the nodes that have a hostname
unfoldable pub short_to_fqdn : Dict String → List NodeAttrs → Dict String
unfolding before_dot
short_to_fqdn d [] = d
short_to_fqdn d (attrs ∷ rest) =
    short_to_fqdn
      (if str_eq attrs.hostname "" then d else insert (before_dot attrs.hostname) attrs.hostname d)
      rest

-- `short_to_fqdn.values()`
abbrev pub values : Dict String → List String
values [] = []
values ((_, v) ∷ d) = v ∷ values d

-- `d.pop(k, None)`
abbrev pub pop : String → Dict Datetime → Dict Datetime
pop k [] = []
pop k ((j, v) ∷ d) = let rest = pop k d in if str_eq j k then rest else (j, v) ∷ rest

-- What the loop does for a node with this count.
abbrev pub track_node : ℕ → ℕ → String → Dict Datetime → Dict Datetime
track_node now count fqdn empty_since =
    if count == 0
    then (elim (lookup fqdn empty_since) [
      | none ↦ insert fqdn (aware now) empty_since
      | some _ ↦ empty_since
    ])
    else pop fqdn empty_since

-- The loop over the nodes.
pub track : Dict ℕ → ℕ → Dict String → Dict Datetime → Dict Datetime
track host_counts now [] empty_since = empty_since
track host_counts now ((short, fqdn) ∷ nodes) empty_since =
    track host_counts now nodes (track_node now (get_or short host_counts 0) fqdn empty_since)

-- The entries of the nodes that are still there.
abbrev pub keep_known : List String → Dict Datetime → Dict Datetime
keep_known known [] = []
keep_known known ((k, v) ∷ d) =
    let rest = keep_known known d in if contains k known then (k, v) ∷ rest else rest

-- `empty_since` after the update, from what the sidecar file held
unfoldable pub update_empty_since : List NodeAttrs → Dict ℕ → ℕ → Dict Datetime → Dict Datetime
unfolding short_to_fqdn track
update_empty_since node_dicts host_counts now saved =
    let nodes = short_to_fqdn [] node_dicts in
    keep_known (values nodes) (track host_counts now nodes saved)

-- What `gather_cluster_state` returns.
pub record Snapshot : Type 0 where
  pub node_dicts : List NodeAttrs
  pub host_counts : Dict ℕ
  pub pending : ℕ
  pub class_rows : List ClassRow
  pub host_rows : List HostRow
  pub empty_since : Dict Datetime

-- `gather_cluster_state(app, manager_client, cfg)`, from the answers of Docker, the rows of the two
-- tables and the contents of the sidecar file
unfoldable pub gather_cluster_state :
    (ℕ → ℕ) → List NodeAttrs → Dict ℕ → List CodeHost → List Class → ℕ → Dict Datetime → Snapshot
unfolding update_empty_since
gather_cluster_state students node_dicts host_counts hosts classes now saved =
    let host_rows = map (host_row now) hosts in
    record {
      node_dicts = node_dicts;
      host_counts = host_counts;
      pending = pending_count host_rows;
      class_rows = map (class_row students) (keep has_window classes);
      host_rows = host_rows;
      empty_since = update_empty_since node_dicts host_counts now saved;
    }
