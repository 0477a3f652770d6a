-- ===== src/Autoscale/Reaper.antt =====
-- The time-windowed reaper: `apply_reaper_zones` of cspawn/cs_docker/autoscale.py.
pub mod Laws
pub mod DryRun
pub mod Dormant
use code_server_spawner.Common.{
  ℕ, Bool, true, false, not, Option, none, some, List, [], ◌∷◌, ◌==◌, leb, ltb, keep, if◌then◌else◌,
}
use code_server_spawner.Common.Int.{ℤ, pos, sub_ℕ, ltb_ℤ, minutes}
use code_server_spawner.Common.Time.{Datetime, as_utc}
use code_server_spawner.Hosts.{CodeHost}
use code_server_spawner.Hosts.Stop.{World, Faults, stop_host}
use code_server_spawner.Classes.{Class}
use code_server_spawner.Autoscale.Demand.{ClassRow}

pub data Zone : Type 0 where
  protected active_purge dormant : Zone

-- The zone of a window at the time `now`.
abbrev pub classify : ℕ → Datetime → Datetime → Zone
classify now purge_after purge_by =
    if ltb now (as_utc purge_after)
    then protected
    else if leb (as_utc purge_by) now
    then dormant
    else active_purge

-- `zone_summary`, a dict from class ids to zones
abbrev pub Summary : Type 0
Summary = List (ℕ × Zone)

abbrev put : ℕ → Zone → Summary → Summary
put k z [] = (k, z) ∷ []
put k z ((j, y) ∷ s) = if j == k then (j, z) ∷ s else (j, y) ∷ put k z s

-- `CodeHost.query.filter_by(class_id=cls_id).all()`
abbrev pub of_class : ℕ → CodeHost → Bool
of_class cls_id h = elim h.class_id [ none ↦ false | some c ↦ c == cls_id ]

-- Idle for 15 minutes at least, by `updated_at`; a row with no such time is not.
abbrev pub is_idle : ℕ → CodeHost → Bool
is_idle now h = elim h.updated_at [
  | none ↦ false
  | some d ↦ not (ltb_ℤ (sub_ℕ now (as_utc d)) (minutes (pos 15)))
]

-- The class row once its window has passed.
abbrev pub clear_window : ℕ → List Class → List Class
clear_window cls_id [] = []
clear_window cls_id (c ∷ cs) =
    (if c.id == cls_id
      then record c { purge_after = none; purge_by = none; target_nodes = none }
      else c)
    ∷ clear_window cls_id cs

module _ (faults : Faults) (dry_run : Bool) (now : ℕ) where
  -- The loop of the dormant zone over the hosts.
  pub stop_all : List CodeHost → World → World
  stop_all [] w = w
  stop_all (ch ∷ hosts) w = stop_all hosts (if dry_run then w else (stop_host faults ch true w).1)

  -- The loop of the active-purge zone over the hosts.
  pub stop_idle : List CodeHost → World → World
  stop_idle [] w = w
  stop_idle (ch ∷ hosts) w =
      stop_idle hosts
        (if is_idle now ch then (if dry_run then w else (stop_host faults ch true w).1) else w)

  -- The class row is cleared and committed; a failed commit is rolled back.
  pub clear_class : ℕ → World → World
  clear_class cls_id w =
      if dry_run
      then w
      else if faults.class_commit_fails cls_id
      then w
      else record w { classes = clear_window cls_id w.classes }

  -- What is done for a class in a zone, on the hosts that the database has at that moment.
  pub reap_zone : Zone → ℕ → World → World
  unfolding stop_all stop_idle clear_class
  reap_zone protected cls_id w = w
  reap_zone dormant cls_id w = clear_class cls_id (stop_all (keep (of_class cls_id) w.hosts) w)
  reap_zone active_purge cls_id w = stop_idle (keep (of_class cls_id) w.hosts) w

  -- A class without an id or without both ends of its window is passed over.
  pub reap_window : Option ℕ → Option Datetime → Option Datetime → Summary × World → Summary × World
  unfolding reap_zone
  reap_window none after by s = s
  reap_window (some cls_id) none by s = s
  reap_window (some cls_id) (some after) none s = s
  reap_window (some cls_id) (some after) (some by) (summary, w) =
      let zone = classify now after by in (put cls_id zone summary, reap_zone zone cls_id w)

  -- The body of the loop over the classes.
  pub reap_class : ClassRow → Summary × World → Summary × World
  unfolding reap_window
  reap_class row s = reap_window row.id row.purge_after row.purge_by s

  pub reap_from : List ClassRow → Summary × World → Summary × World
  unfolding reap_class
  reap_from [] s = s
  reap_from (row ∷ rows) s = reap_from rows (reap_class row s)

  -- `apply_reaper_zones(app, class_rows, host_rows, now, dry_run=dry_run)`; the code does not read
  -- `host_rows`.
  unfoldable pub apply_reaper_zones : List ClassRow → World → Summary × World
  unfolding reap_from
  apply_reaper_zones class_rows w = reap_from class_rows ([], w)
