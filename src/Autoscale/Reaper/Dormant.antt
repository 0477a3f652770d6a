-- ===== src/Autoscale/Reaper/Dormant.antt =====
-- What the reaper leaves of a class whose window is over.
use mathlib.Core.Path.{subst⁻¹}
use code_server_spawner.Common.Sort.Laws.{All-map}
use code_server_spawner.Common.{
  ℕ, Bool, true, false, not, ◌||◌, Option, none, some, List, [], ◌∷◌, ◌++◌, ◌≡◌, refl, arith, ◌==◌,
  leb, ltb, keep, All, if◌then◌else◌, if-elim,
}
use code_server_spawner.Common.Time.{Datetime, as_utc}
use code_server_spawner.Hosts.{CodeHost}
use code_server_spawner.Hosts.Stop.{World, Faults, stop_host}
use code_server_spawner.Hosts.Stop.Laws.{others, stop_host-deletes}
use code_server_spawner.Hosts.Stop.Keys.{All-keep_of, hosts-stop_host}
use code_server_spawner.Autoscale.Demand.{ClassRow}
use code_server_spawner.Autoscale.Reaper.{
  Zone, protected, active_purge, dormant, classify, Summary, of_class, is_idle, stop_all, stop_idle,
  clear_class, reap_zone, reap_window, reap_class, reap_from, apply_reaper_zones,
}

-- The id of the row is among those of the list.
abbrev has_id_in : CodeHost → List CodeHost → Bool
has_id_in h [] = false
has_id_in h (ch ∷ chs) = h.id == ch.id || has_id_in h chs

keep-chosen :
    (p : CodeHost → Bool) (hs : List CodeHost)
    → All (λ h. not (p h) || has_id_in h (keep p hs) ≡ true) hs
keep-chosen p [] = tt
keep-chosen p (h ∷ hs) = (ground arith, All-map hs (λ x c. ground (arith, c)) (keep-chosen p hs))

module _ (faults : Faults) (now : ℕ) where
  -- The rows that are left are rows that were there.
  module _ (Q : CodeHost → Type 0) where
    step-All :
        (ch : CodeHost) (w : World) → All Q w.hosts → All Q (stop_host faults ch true w).1.hosts
    step-All ch w h =
        hosts-stop_host (λ _. true) faults true ch w (All Q) h (All-keep_of Q _ w.hosts h)

    stop_all-All :
        (chs : List CodeHost) (w : World)
        → All Q w.hosts
        → All Q (stop_all faults false now chs w).hosts
    unfolding stop_all
    stop_all-All [] w h = h
    stop_all-All (ch ∷ chs) w h = stop_all-All chs (stop_host faults ch true w).1 (step-All ch w h)

    stop_idle-All :
        (chs : List CodeHost) (w : World)
        → All Q w.hosts
        → All Q (stop_idle faults false now chs w).hosts
    unfolding stop_idle
    stop_idle-All [] w h = h
    stop_idle-All (ch ∷ chs) w h =
        stop_idle-All chs (if is_idle now ch then (stop_host faults ch true w).1 else w)
          (if-elim (λ (v : World). All Q v.hosts) (is_idle now ch) (λ _. step-All ch w h) (λ _. h))

    clear_class-All :
        (cls_id : ℕ) (w : World)
        → All Q w.hosts
        → All Q (clear_class faults false now cls_id w).hosts
    unfolding clear_class
    clear_class-All cls_id w h =
        if-elim (λ (v : World). All Q v.hosts) (faults.class_commit_fails cls_id) (λ _. h) (λ _. h)

    reap_zone-All :
        (zone : Zone) (cls_id : ℕ) (w : World)
        → All Q w.hosts
        → All Q (reap_zone faults false now zone cls_id w).hosts
    unfolding reap_zone
    reap_zone-All protected cls_id w h = h
    reap_zone-All dormant cls_id w h =
        clear_class-All cls_id _ (stop_all-All (keep (of_class cls_id) w.hosts) w h)
    reap_zone-All active_purge cls_id w h = stop_idle-All (keep (of_class cls_id) w.hosts) w h

    reap_window-All :
        (cls : Option ℕ) (after by : Option Datetime) (s : Summary) (w : World)
        → All Q w.hosts
        → All Q (reap_window faults false now cls after by (s, w)).1.hosts
    unfolding reap_window
    reap_window-All none after by s w h = h
    reap_window-All (some cls_id) none by s w h = h
    reap_window-All (some cls_id) (some after) none s w h = h
    reap_window-All (some cls_id) (some after) (some by) s w h =
        reap_zone-All (classify now after by) cls_id w h

    reap_from-All :
        (rows : List ClassRow) (s : Summary) (w : World)
        → All Q w.hosts
        → All Q (reap_from faults false now rows (s, w)).1.hosts
    unfolding reap_from reap_class
    reap_from-All [] s w h = h
    reap_from-All (row ∷ rows) s w h =
        let r = reap_window faults false now row.id row.purge_after row.purge_by (s, w) in
        reap_from-All rows r.0 r.1 (reap_window-All row.id row.purge_after row.purge_by s w h)

  module _ (sound : (h : CodeHost) → faults.delete_fails h ≡ false) where
    Gone : CodeHost → CodeHost → Type 0
    Gone ch h = h.id == ch.id ≡ false

    Gone-others : (ch : CodeHost) (hs : List CodeHost) → All (Gone ch) (others ch hs)
    unfolding Gone
    Gone-others ch [] = tt
    Gone-others ch (h ∷ hs) =
        if-elim (All (Gone ch)) (not (h.id == ch.id)) (λ e. (ground (arith, e), Gone-others ch hs))
          (λ _. Gone-others ch hs)

    All-and :
        (P Q : CodeHost → Type 0) (hs : List CodeHost)
        → All P hs
        → All Q hs
        → All (λ h. P h × Q h) hs
    All-and P Q [] p q = tt
    All-and P Q (h ∷ hs) (p, ps) (q, qs) = ((p, q), All-and P Q hs ps qs)

    -- Stopping a list of hosts leaves no row with an id of the list.
    stop_all-leaves :
        (chs : List CodeHost) (w : World)
        → All (λ h. has_id_in h chs ≡ false) (stop_all faults false now chs w).hosts
    unfolding stop_all Gone
    stop_all-leaves [] w = All-map w.hosts (λ h _. refl) (every w.hosts)
      where
        every : (hs : List CodeHost) → All (λ h. Unit {0}) hs
        every [] = tt
        every (h ∷ hs) = (tt, every hs)
    stop_all-leaves (ch ∷ chs) w =
        let w' = (stop_host faults ch true w).1 in
        let (report, left, _) = stop_host-deletes faults ch true w in
        let here : All (Gone ch) w'.hosts =
          subst⁻¹ (All (Gone ch)) left (rw (report, sound ch) (Gone-others ch w.hosts)) in
        let after = stop_all-All (Gone ch) chs w' here in
        All-map (stop_all faults false now chs w').hosts (λ h g. ground (arith, g.0, g.1))
          (All-and (Gone ch) (λ h. has_id_in h chs ≡ false) (stop_all faults false now chs w').hosts
            after (stop_all-leaves chs w'))

    dormant-leaves :
        (cls_id : ℕ) (w : World)
        → All (λ h. of_class cls_id h ≡ false) (reap_zone faults false now dormant cls_id w).hosts
    unfolding reap_zone
    dormant-leaves cls_id w =
        let chs = keep (of_class cls_id) w.hosts in
        let w' = stop_all faults false now chs w in
        let chosen =
          stop_all-All (λ h. not (of_class cls_id h) || has_id_in h chs ≡ true) chs w
            (keep-chosen (of_class cls_id) w.hosts) in
        clear_class-All (λ h. of_class cls_id h ≡ false) cls_id w'
          (All-map w'.hosts (λ h g. ground (arith, g.0, g.1))
            (All-and (λ h. not (of_class cls_id h) || has_id_in h chs ≡ true)
              (λ h. has_id_in h chs ≡ false) w'.hosts chosen (stop_all-leaves chs w)))

    row-leaves :
        (row : ClassRow) (cls_id : ℕ) (after by : Datetime) (s : Summary) (w : World)
        → row.id ≡ some cls_id
        → row.purge_after ≡ some after
        → row.purge_by ≡ some by
        → ltb now (as_utc after) ≡ false
        → leb (as_utc by) now ≡ true
        → All (λ h. of_class cls_id h ≡ false) (reap_class faults false now row (s, w)).1.hosts
    unfolding reap_class reap_window
    row-leaves row cls_id after by s w id starts ends ended passed =
        rw (id, starts, ends, ended, passed) (dormant-leaves cls_id w)

    rows-leaves :
        (before later : List ClassRow) (row : ClassRow) (cls_id : ℕ) (after by : Datetime)
        (s : Summary) (w : World)
        → row.id ≡ some cls_id
        → row.purge_after ≡ some after
        → row.purge_by ≡ some by
        → ltb now (as_utc after) ≡ false
        → leb (as_utc by) now ≡ true
        → All
            (λ h. of_class cls_id h ≡ false)
            (reap_from faults false now (before ++ row ∷ later) (s, w)).1.hosts
    unfolding reap_from
    rows-leaves [] later row cls_id after by s w id starts ends ended passed =
        let r = reap_class faults false now row (s, w) in
        reap_from-All (λ h. of_class cls_id h ≡ false) later r.0 r.1
          (row-leaves row cls_id after by s w id starts ends ended passed)
    rows-leaves (b ∷ before) later row cls_id after by s w id starts ends ended passed =
        let r = reap_class faults false now b (s, w) in
        rows-leaves before later row cls_id after by r.0 r.1 id starts ends ended passed

  -- A live run of the reaper takes every host of a class whose window is over, provided that the
  -- database deletes what it is asked to: none is left, whatever pushes and stops fail.
  pub apply_reaper_zones-takes :
      (before later : List ClassRow) (row : ClassRow) (cls_id : ℕ) (after by : Datetime) (w : World)
      → ((h : CodeHost) → faults.delete_fails h ≡ false)
      → row.id ≡ some cls_id
      → row.purge_after ≡ some after
      → row.purge_by ≡ some by
      → ltb now (as_utc after) ≡ false
      → leb (as_utc by) now ≡ true
      → All
          (λ h. of_class cls_id h ≡ false)
          (apply_reaper_zones faults false now (before ++ row ∷ later) w).1.hosts
  unfolding apply_reaper_zones
  apply_reaper_zones-takes before later row cls_id after by w sound id starts ends ended passed =
      rows-leaves sound before later row cls_id after by [] w id starts ends ended passed
