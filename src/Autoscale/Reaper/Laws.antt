-- ===== src/Autoscale/Reaper/Laws.antt =====
-- What the reaper takes and what it spares.
use code_server_spawner.Common.{
  ℕ, ◌+◌, Bool, true, false, not, ◌&&◌, ◌||◌, Option, none, some, List, [], ◌∷◌, ◌≡◌, refl, ◌∙◌,
  inl, inr, arith, leb, ltb, keep, All, if◌then◌else◌, if-elim, Bool-cases,
}
use code_server_spawner.Common.Sort.Laws.{All-map}
use code_server_spawner.Common.Time.{Datetime, as_utc}
use code_server_spawner.Hosts.{CodeHost}
use code_server_spawner.Hosts.Stop.{World, Faults, stop_host}
use code_server_spawner.Hosts.Stop.Keys.{
  HasKeys, HasKeys-keep, All-keep_of, Outside, Outside-keep, keep-stop_host, hosts-stop_host,
}
use code_server_spawner.Autoscale.Demand.{ClassRow}
use code_server_spawner.Autoscale.Reaper.{
  active_purge, dormant, classify, Summary, of_class, is_idle, stop_all, stop_idle, clear_class,
  reap_zone, reap_window, reap_class, reap_from, apply_reaper_zones,
}

-- Quarter of an hour has passed since the row's last update, in microseconds.
abbrev pub quarter_past : ℕ → CodeHost → Bool
quarter_past now h = elim h.updated_at [ none ↦ false | some d ↦ leb (as_utc d + 900_000_000) now ]

-- A class with this id and window puts a host at risk: the host is of the class, the protection of
-- the class has ended, and either the whole window has or the host has not been updated for a
-- quarter of an hour.
abbrev pub window_risk : ℕ → CodeHost → Option ℕ → Option Datetime → Option Datetime → Bool
window_risk now h none after by = false
window_risk now h (some cls_id) none by = false
window_risk now h (some cls_id) (some after) none = false
window_risk now h (some cls_id) (some after) (some by) =
    of_class cls_id h && (leb (as_utc after) now && (leb (as_utc by) now || quarter_past now h))

abbrev pub risk_by : ℕ → CodeHost → ClassRow → Bool
risk_by now h row = window_risk now h row.id row.purge_after row.purge_by

abbrev pub at_risk : ℕ → List ClassRow → CodeHost → Bool
at_risk now [] h = false
at_risk now (row ∷ rows) h = risk_by now h row || at_risk now rows h

keep-keep :
    (q r : CodeHost → Bool) (hs : List CodeHost) → keep r (keep q hs) ≡ keep (λ h. q h && r h) hs
keep-keep q r [] = refl
keep-keep q r (h ∷ hs) = ground (arith, keep-keep q r hs)

is_idle→quarter_past : (now : ℕ) (h : CodeHost) → is_idle now h ≡ true → quarter_past now h ≡ true
is_idle→quarter_past now h e = ground arith

module _ (p : CodeHost → Bool) (faults : Faults) (dry_run : Bool) (now : ℕ) where
  -- The chosen rows are all there, and the keys are still distinct.
  abbrev Keeps : World → World → Type 0
  Keeps w w' = (keep p w'.hosts ≡ keep p w.hosts) × HasKeys w'.hosts

  step-Keeps :
      (ch : CodeHost) (w : World)
      → Outside p ch w.hosts
      → HasKeys w.hosts
      → Keeps w (if dry_run then w else (stop_host faults ch true w).1)
  step-Keeps ch w o u =
      if-elim (Keeps w) dry_run (λ _. (refl, u))
        λ _. (
          keep-stop_host p faults true ch w o,
          hosts-stop_host p faults true ch w HasKeys u (HasKeys-keep _ w.hosts u),
        )

  Outside-step :
      (ch c : CodeHost) (w : World)
      → Outside p c w.hosts
      → Outside p c (if dry_run then w else (stop_host faults ch true w).1).hosts
  Outside-step ch c w o =
      if-elim (λ (w' : World). Outside p c w'.hosts) dry_run (λ _. o)
        λ _. hosts-stop_host p faults true ch w (Outside p c) o (All-keep_of _ _ w.hosts o)

  stop_all-Keeps :
      (chs : List CodeHost) (w : World)
      → All (λ ch. Outside p ch w.hosts) chs
      → HasKeys w.hosts
      → Keeps w (stop_all faults dry_run now chs w)
  unfolding stop_all
  stop_all-Keeps [] w os u = (refl, u)
  stop_all-Keeps (ch ∷ chs) w (o, os) u =
      let w' = if dry_run then w else (stop_host faults ch true w).1 in
      let (same, u') = step-Keeps ch w o u in
      let (later, u″) =
        stop_all-Keeps chs w' (All-map chs (λ c oc. Outside-step ch c w oc) os) u' in
      (later ∙ same, u″)

  -- The idle loop is the other one on the idle hosts.
  stop_idle-stop_all :
      (chs : List CodeHost) (w : World)
      → stop_idle faults dry_run now chs w ≡ stop_all faults dry_run now (keep (is_idle now) chs) w
  unfolding stop_all stop_idle
  stop_idle-stop_all [] w = refl
  stop_idle-stop_all (ch ∷ chs) w = elim (Bool-cases (is_idle now ch)) [
    | inl e ↦ rw e (stop_idle-stop_all chs (if dry_run then w else (stop_host faults ch true w).1))
    | inr e ↦ rw e (stop_idle-stop_all chs w)
  ]

  clear_class-Keeps :
      (cls_id : ℕ) (w w' : World) → Keeps w w' → Keeps w (clear_class faults dry_run now cls_id w')
  unfolding clear_class
  clear_class-Keeps cls_id w w' k =
      if-elim (Keeps w) dry_run (λ _. k)
        λ _. if-elim (Keeps w) (faults.class_commit_fails cls_id) (λ _. k) (λ _. k)

  module _ (cls_id : ℕ) (after by : Datetime) (w : World)
      (spares : (h : CodeHost)
        → window_risk now h (some cls_id) (some after) (some by) ≡ true
        → p h ≡ false)
      (u : HasKeys w.hosts) where
    dormant-Keeps :
        ltb now (as_utc after) ≡ false
        → leb (as_utc by) now ≡ true
        → Keeps w (reap_zone faults dry_run now dormant cls_id w)
    unfolding reap_zone
    dormant-Keeps ended passed = clear_class-Keeps cls_id w _ (
        stop_all-Keeps (keep (of_class cls_id) w.hosts) w
          (Outside-keep p (of_class cls_id) w.hosts u (λ h e. spares h (ground arith))) u)

    active-Keeps :
        ltb now (as_utc after) ≡ false
        → Keeps w (reap_zone faults dry_run now active_purge cls_id w)
    unfolding reap_zone
    active-Keeps ended =
        rw (stop_idle-stop_all, keep-keep)
          (stop_all-Keeps (keep (λ h. of_class cls_id h && is_idle now h) w.hosts) w
            (Outside-keep p (λ h. of_class cls_id h && is_idle now h) w.hosts u
              (λ h e. spares h (ground (arith, is_idle→quarter_past now h))))
            u)

    zone-Keeps : Keeps w (reap_zone faults dry_run now (classify now after by) cls_id w)
    zone-Keeps =
        if-elim (λ z. Keeps w (reap_zone faults dry_run now z cls_id w)) (ltb now (as_utc after))
          (λ _. unfold reap_zone in (refl, u))
          λ ended.
            if-elim (λ z. Keeps w (reap_zone faults dry_run now z cls_id w)) (leb (as_utc by) now)
              (λ passed. dormant-Keeps ended passed) (λ _. active-Keeps ended)

  window-Keeps :
      (cls : Option ℕ) (after by : Option Datetime) (s : Summary) (w : World)
      → ((h : CodeHost) → window_risk now h cls after by ≡ true → p h ≡ false)
      → HasKeys w.hosts
      → Keeps w (reap_window faults dry_run now cls after by (s, w)).1
  unfolding reap_window
  window-Keeps none after by s w f u = (refl, u)
  window-Keeps (some cls_id) none by s w f u = (refl, u)
  window-Keeps (some cls_id) (some after) none s w f u = (refl, u)
  window-Keeps (some cls_id) (some after) (some by) s w f u = zone-Keeps cls_id after by w f u

  reap_from-Keeps :
      (rows : List ClassRow) (s : Summary) (w : World)
      → All (λ row. (h : CodeHost) → risk_by now h row ≡ true → p h ≡ false) rows
      → HasKeys w.hosts
      → Keeps w (reap_from faults dry_run now rows (s, w)).1
  unfolding reap_from reap_class
  reap_from-Keeps [] s w f u = (refl, u)
  reap_from-Keeps (row ∷ rows) s w (f, fs) u =
      let (s', w') = reap_class faults dry_run now row (s, w) in
      let (same, u') = window-Keeps row.id row.purge_after row.purge_by s w f u in
      let (later, u″) = reap_from-Keeps rows s' w' fs u' in (later ∙ same, u″)

risk-covers :
    (now : ℕ) (rows rest : List ClassRow)
    → ((h : CodeHost) → at_risk now rest h ≡ true → at_risk now rows h ≡ true)
    → All (λ row. (h : CodeHost) → risk_by now h row ≡ true → not (at_risk now rows h) ≡ false) rest
risk-covers now rows [] f = tt
risk-covers now rows (row ∷ rest) f =
    (λ h e. ground (arith, f h, e), risk-covers now rows rest (λ h e. f h (ground (arith, e))))

-- Given distinct row ids, the reaper touches no host that no class puts at risk (by a window that is
-- over, or by an ended protection and 15 minutes without an update): whatever fails on the way, the
-- rows that are not at risk are all there afterwards, unchanged and in their order, and the ids are
-- distinct.
pub apply_reaper_zones-spares :
    (faults : Faults) (dry_run : Bool) (now : ℕ) (rows : List ClassRow) (w : World)
    → HasKeys w.hosts
    → let w' = (apply_reaper_zones faults dry_run now rows w).1 in
      (keep (λ h. not (at_risk now rows h)) w'.hosts ≡ keep (λ h. not (at_risk now rows h)) w.hosts)
      × HasKeys w'.hosts
unfolding apply_reaper_zones
apply_reaper_zones-spares faults dry_run now rows w u =
    reap_from-Keeps (λ h. not (at_risk now rows h)) faults dry_run now rows [] w
      (risk-covers now rows rows (λ h e. e)) u
