-- ===== src/Autoscale/Reaper/DryRun.antt =====
-- A dry run of the reaper.
use code_server_spawner.Common.{
  ℕ, true, Option, none, some, List, [], ◌∷◌, ◌≡◌, refl, ◌∙◌, inl, inr, Bool-cases, keep,
}
use code_server_spawner.Common.Time.{Datetime}
use code_server_spawner.Hosts.{CodeHost}
use code_server_spawner.Hosts.Stop.{World, Faults}
use code_server_spawner.Autoscale.Demand.{ClassRow}
use code_server_spawner.Autoscale.Reaper.{
  Zone, protected, active_purge, dormant, classify, Summary, is_idle, of_class, stop_all, stop_idle,
  clear_class, reap_zone, reap_window, reap_class, reap_from, apply_reaper_zones,
}

module _ (faults : Faults) (now : ℕ) where
  stop_all-dry : (chs : List CodeHost) (w : World) → stop_all faults true now chs w ≡ w
  unfolding stop_all
  stop_all-dry [] w = refl
  stop_all-dry (ch ∷ chs) w = stop_all-dry chs w

  stop_idle-dry : (chs : List CodeHost) (w : World) → stop_idle faults true now chs w ≡ w
  unfolding stop_idle
  stop_idle-dry [] w = refl
  stop_idle-dry (ch ∷ chs) w = elim (Bool-cases (is_idle now ch)) [
    | inl e ↦ rw e (stop_idle-dry chs w)
    | inr e ↦ rw e (stop_idle-dry chs w)
  ]

  reap_zone-dry :
      (zone : Zone) (cls_id : ℕ) (w : World) → reap_zone faults true now zone cls_id w ≡ w
  unfolding reap_zone clear_class
  reap_zone-dry protected cls_id w = refl
  reap_zone-dry dormant cls_id w = stop_all-dry (keep (of_class cls_id) w.hosts) w
  reap_zone-dry active_purge cls_id w = stop_idle-dry (keep (of_class cls_id) w.hosts) w

  reap_window-dry :
      (cls : Option ℕ) (after by : Option Datetime) (s : Summary) (w : World)
      → (reap_window faults true now cls after by (s, w)).1 ≡ w
  unfolding reap_window
  reap_window-dry none after by s w = refl
  reap_window-dry (some cls_id) none by s w = refl
  reap_window-dry (some cls_id) (some after) none s w = refl
  reap_window-dry (some cls_id) (some after) (some by) s w =
      reap_zone-dry (classify now after by) cls_id w

  reap_from-dry :
      (rows : List ClassRow) (s : Summary) (w : World)
      → (reap_from faults true now rows (s, w)).1 ≡ w
  unfolding reap_from reap_class
  reap_from-dry [] s w = refl
  reap_from-dry (row ∷ rows) s w =
      let r = reap_window faults true now row.id row.purge_after row.purge_by (s, w) in
      reap_from-dry rows r.0 r.1 ∙ reap_window-dry row.id row.purge_after row.purge_by s w

  pub apply_reaper_zones-dry :
      (rows : List ClassRow) (w : World) → (apply_reaper_zones faults true now rows w).1 ≡ w
  unfolding apply_reaper_zones
  apply_reaper_zones-dry rows w = reap_from-dry rows [] w
