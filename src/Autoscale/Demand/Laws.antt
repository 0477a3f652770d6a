-- ===== src/Autoscale/Demand/Laws.antt =====
-- What the demand counts, and what it leaves out.
use mathlib.Core.Path.{fun_ext, subst}
use code_server_spawner.Common.{
  ℕ, ◌+◌, List, [], ◌∷◌, ◌≡◌, refl, ap, inl, inr, keep, count_if, Outcome, returns, ◌>>=◌,
  >>=-eq-returns, returns-injective, Bool-cases,
}
use code_server_spawner.Common.Int.{ℤ, pos, ◌≤ℤ◌, ◌+ℤ◌, max_ℤ, int_laws}
use code_server_spawner.Config.{Config, cfg_int}
use code_server_spawner.Autoscale.Demand.{
  ClassRow, HostRow, Floats, is_live, is_pending, in_window, cfg_float, prescale_from,
  estimate_demand,
}

-- The slots that the hosts ask for: one for each live host and one for each pending host.
abbrev pub host_demand : List HostRow → ℕ
host_demand hosts = count_if is_live hosts + count_if is_pending hosts

abbrev pub headroom : Config → ℤ
headroom cfg = cfg_int cfg "AUTOSCALE_HEADROOM" (pos 2)

module _ (floats : Floats) (now : ℕ) where
  open floats use {Float}

  prescale_from-keep :
      (fraction : Float) (acc : ℤ) (cs : List ClassRow)
      → prescale_from floats fraction now acc (keep (in_window now) cs)
        ≡ prescale_from floats fraction now acc cs
  unfolding prescale_from
  prescale_from-keep fraction acc [] = refl
  prescale_from-keep fraction acc (c ∷ cs) = elim (Bool-cases (in_window now c)) [
    | inl e ↦
        rw (e, keep, e)
          (ap (λ (f : ℤ → Outcome ℤ). floats.ceil_mul c.students fraction >>= f)
            (fun_ext (λ k. prescale_from-keep fraction (acc +ℤ k) cs)))
    | inr e ↦ rw e (prescale_from-keep fraction acc cs)
  ]

  -- Classes outside their purge window, those with no window included, add nothing to the demand:
  -- it is the same without them.
  pub estimate_demand-keep_window :
      (classes : List ClassRow) (hosts : List HostRow) (cfg : Config)
      → estimate_demand floats now (keep (in_window now) classes) hosts cfg
        ≡ estimate_demand floats now classes hosts cfg
  unfolding estimate_demand
  estimate_demand-keep_window classes hosts cfg = rw prescale_from-keep

  -- A demand covers every live and every pending host, with the headroom on top.
  pub host_demand-le-estimate_demand :
      (classes : List ClassRow) (hosts : List HostRow) (cfg : Config) (d : ℤ)
      → estimate_demand floats now classes hosts cfg ≡ returns d
      → pos (host_demand hosts) +ℤ headroom cfg ≤ℤ d
  unfolding estimate_demand
  host_demand-le-estimate_demand classes hosts cfg d h =
      let (k, _, e) =
        >>=-eq-returns
          (prescale_from floats
            (cfg_float floats cfg "AUTOSCALE_ROSTER_FRACTION" floats.four_fifths) now (pos 0)
            classes)
          (λ prescale. returns (max_ℤ (pos (host_demand hosts)) prescale +ℤ headroom cfg)) h in
      let q : max_ℤ (pos (host_demand hosts)) k +ℤ headroom cfg ≡ d = returns-injective e in
      subst (λ x. pos (host_demand hosts) +ℤ headroom cfg ≤ℤ x) q (omega int_laws)
