-- ===== src/Autoscale/Cycle/Inert.antt =====
-- When a cycle acts at all.
use mathlib.Core.Path.{subst}
use code_server_spawner.Common.{
  String, Bool, true, false, not, ◌&&◌, ◌||◌, Option, ◌≡◌, sym, ap, ◌∙◌, inl, inr, arith,
  Bool-cases, Outcome, returns, raises,
}
use code_server_spawner.Common.Dict.{Dict}
use code_server_spawner.Common.Time.{Datetime}
use code_server_spawner.Config.{Config, cfg_bool}
use code_server_spawner.Tiers.{Json}
use code_server_spawner.Autoscale.Demand.{Floats}
use code_server_spawner.Autoscale.Gather.{Snapshot, gather_cluster_state}
use code_server_spawner.Autoscale.Plan.{ScalePlan}
use code_server_spawner.Autoscale.Reaper.DryRun.{apply_reaper_zones-dry}
use code_server_spawner.Autoscale.Apply.{apply_plan}
use code_server_spawner.Autoscale.Apply.Laws.{Attempt-cases, state_of}
use code_server_spawner.Autoscale.Cycle.{
  Clock, Site, System, reap, carry_out, act, cycle, locked_cycle, run_autoscale,
}

-- A cycle acts on anything only if it is enabled or forced, the lock is free, and neither the call
-- nor the configuration asks for a dry run.
abbrev pub acts : Config → Bool → Bool → Bool → Bool
acts cfg force dry_run locked =
    (cfg_bool cfg "AUTOSCALE_ENABLED" false || force)
    && not locked
    && not (cfg_bool cfg "AUTOSCALE_DRY_RUN" true || dry_run)

module _ {S : Type 0} (site : Site S) (str : Json → String) (loads : String → Option Json)
    (floats : Floats) (cfg : Config) (clock : Clock) (force : Bool) (up_only : Option Bool)
    (P : S → Type 0) (by_counts : (s : S) → P s → P (state_of (site.infra.live_counts s)))
    (by_list : (s : S) → P s → P (state_of (site.list_nodes s)))
    (same : (s : S) → site.set_world (site.world s) s ≡ s) where
  carry_out-dry :
      (snap : Snapshot) (saved : Dict Datetime) (s : S) (decided : Outcome ScalePlan)
      → P s
      → P (carry_out site str loads floats cfg clock force up_only true snap saved s decided).1
  unfolding carry_out apply_plan
  carry_out-dry snap saved s (raises e) h = h
  carry_out-dry snap saved s (returns plan) h = h

  cycle-dry :
      (s : S) (saved : Dict Datetime)
      → P s
      → P (cycle site str loads floats cfg clock force up_only true s saved).1
  unfolding cycle act reap
  cycle-dry s saved h =
      let counted = by_counts s h in
      elim (Attempt-cases (site.infra.live_counts s)) [
        | inl (text, s₁, e) ↦ rw (cycle, e) (rw e at counted)
        | inr (counts, s₁, e) ↦
            let listed = by_list s₁ (rw e at counted) in
            elim (Attempt-cases (site.list_nodes s₁)) [
              | inl (text, s₂, f) ↦ rw (cycle, e, f) (rw f at listed)
              | inr (nodes, s₂, f) ↦
                  let snap =
                    gather_cluster_state site.students nodes counts (site.world s₂).hosts
                      (site.world s₂).classes clock.gathered saved in
                  let unchanged : reap site str loads floats cfg clock force up_only true
                        snap.class_rows s₂
                      ≡ s₂ =
                    ap (λ w. site.set_world w s₂)
                      (apply_reaper_zones-dry site.faults clock.now snap.class_rows (site.world s₂))
                    ∙ same s₂ in
                  rw (cycle, e, f)
                    (carry_out-dry snap saved _ _ (subst P (sym unchanged) (rw f at listed)))
            ]
      ]

  -- Unless the cycle acts, that is enabled or forced, with the lock free and no dry run asked for,
  -- whatever reading the nodes keeps holds of the nodes and the tables afterwards: nothing is
  -- stopped, removed, added or cleared. Writing the tables back as they are is taken to change
  -- nothing.
  pub run_autoscale-inert :
      (dry_run : Bool) (sys : System S)
      → acts cfg force dry_run sys.locked ≡ false
      → P sys.site
      → P (run_autoscale site str loads floats cfg clock force up_only dry_run sys).1.site
  unfolding run_autoscale locked_cycle
  run_autoscale-inert dry_run sys idle h =
      elim (Bool-cases (cfg_bool cfg "AUTOSCALE_ENABLED" false || force)) [
        | inr off ↦ rw (run_autoscale, off) h
        | inl on ↦ elim (Bool-cases sys.locked) [
          | inl held ↦ rw (run_autoscale, on, held) h
          | inr open_lock ↦
              let dry : (cfg_bool cfg "AUTOSCALE_DRY_RUN" true || dry_run) ≡ true =
                ground (arith, idle, on, open_lock) in
              rw (run_autoscale, on, open_lock, dry) (cycle-dry sys.site sys.sidecar h)
        ]
      ]
