-- ===== src/Autoscale/Cycle/Protection.antt =====
-- Which nodes a leaves alone.
use mathlib.Core.Path.{subst}
use Prim.Native.Char.{code}
use code_server_spawner.Common.{
  ℕ, String, Bool, true, false, not, ◌&&◌, Option, none, some, List, [], ◌∷◌, ◌++◌, ◌≡◌, refl, sym,
  ap, ◌∙◌, inl, inr, arith, str_eq, eq_iff, All, Bool-cases, Option-cases, if◌then◌else◌, if-elim,
  returns, ◌==◌, ◌>>=◌, >>=-eq-returns, returns-injective,
}
use code_server_spawner.Common.Sort.Laws.{All-map}
use code_server_spawner.Common.Int.{pos}
use code_server_spawner.Common.Dict.{Dict, contains, lookup, get_or}
use code_server_spawner.Common.Text.{before_dot, has_dot}
use code_server_spawner.Config.{Config, cfg_int}
use code_server_spawner.Tiers.{Json}
use code_server_spawner.Autoscale.State.{NodeAttrs, NodeView, assess_cluster}
use code_server_spawner.Autoscale.Demand.{ClassRow, HostRow, Floats, estimate_demand}
use code_server_spawner.Autoscale.Gather.{Snapshot, short_to_fqdn}
use code_server_spawner.Autoscale.Gather.Nodes.{IsShort, short_to_fqdn-IsMap}
use code_server_spawner.Autoscale.ScaleDown.{plan_scale_down}
use code_server_spawner.Autoscale.ScaleDown.Safety.{plan_scale_down-IsIdleWorker}
use code_server_spawner.Autoscale.Plan.{ScalePlan, fqdns, build_plan}
use code_server_spawner.Autoscale.Plan.Laws.{build_plan_one_way}
use code_server_spawner.Autoscale.Cycle.{
  backdate, in_protected_class, protected_node_fqdns, only, Clock, decide,
}

get_or-some : (k f : String) (d : Dict String) → lookup k d ≡ some f → get_or k d "" ≡ f
get_or-some k f d h = ground (arith, h)

get_or-none : (k : String) (d : Dict String) → lookup k d ≡ none → get_or k d "" ≡ ""
get_or-none k d h = ground (arith, h)

-- The protected set has the node of every host of a protected class, if the host's node is found.
contains-protected :
    (now : ℕ) (rows : List ClassRow) (names : Dict String) (before after : List HostRow)
    (hr : HostRow) (n f : String)
    → hr.node_name ≡ some n
    → in_protected_class now rows hr.class_id ≡ true
    → lookup n names ≡ some f
    → str_eq f "" ≡ false
    → contains f (protected_node_fqdns now rows names (before ++ hr ∷ after)) ≡ true
contains-protected now rows names [] after hr n f on_node safe found real =
    rw (on_node, get_or-some n f names found, safe, real) (ground (arith, eq_iff f f))
contains-protected now rows names (b ∷ before) after hr n f on_node safe found real =
    let later = contains-protected now rows names before after hr n f on_node safe found real in
    elim (Option-cases b.node_name) [
      | inl e ↦ rw e later
      | inr (m, e) ↦ rw e (
          if-elim (λ ns. contains f ns ≡ true)
            (in_protected_class now rows b.class_id && not (str_eq (get_or m names "") ""))
            (λ _. ground (arith, later)) (λ _. later))
    ]

spared :
    (protect : List String) (f : String) (ns : List NodeView)
    → All (λ n. contains n.fqdn protect ≡ false) ns
    → contains f protect ≡ true
    → contains f (fqdns ns) ≡ false
spared protect f [] h c = refl
spared protect f (n ∷ ns) (h, hs) c = elim (Bool-cases (str_eq n.fqdn f)) [
  | inl e ↦
      let same = (eq_iff n.fqdn f).0 e in
      let other : contains f protect ≡ false = sym (ap (λ k. contains k protect) same) ∙ h in
      ground (arith, c, other)
  | inr e ↦ rw e (spared protect f ns hs c)
]

contains-only :
    (up_only : Option Bool) (plan : ScalePlan) (f : String)
    → contains f plan.remove_nodes ≡ false
    → contains f (only up_only plan).remove_nodes ≡ false
contains-only none plan f h = h
contains-only (some true) plan f h = refl
contains-only (some false) plan f h = h

module _ (str : Json → String) (loads : String → Option Json) (floats : Floats) (cfg : Config)
    (clock : Clock) (force : Bool) (up_only : Option Bool) where
  -- With or without force, a cycle does not plan to remove the node of a host whose class is still
  -- protected, provided that the host's row names the node by its short name.
  pub decide-spares :
      (snap : Snapshot) (plan : ScalePlan) (before after : List HostRow) (hr : HostRow)
      (n f : String)
      → decide str loads floats cfg clock force up_only snap ≡ returns plan
      → snap.host_rows ≡ before ++ hr ∷ after
      → hr.node_name ≡ some n
      → in_protected_class clock.now snap.class_rows hr.class_id ≡ true
      → lookup n (short_to_fqdn [] snap.node_dicts) ≡ some f
      → str_eq f "" ≡ false
      → contains f plan.remove_nodes ≡ false
  unfolding decide
  decide-spares snap plan before after hr n f e rows on_node safe found real =
      let names = short_to_fqdn [] snap.node_dicts in
      let protect = protected_node_fqdns clock.now snap.class_rows names snap.host_rows in
      let state = assess_cluster snap.node_dicts snap.host_counts snap.pending cfg in
      let since =
        (if force
          then backdate clock.now (cfg_int cfg "AUTOSCALE_SCALEDOWN_COOLDOWN_MIN" (pos 30))
              snap.empty_since
          else snap.empty_since) in
      let inside : contains f protect ≡ true = rw rows (
        contains-protected clock.now snap.class_rows names before after hr n f on_node safe found
          real) in
      let (demand, _, e₁) =
        >>=-eq-returns (estimate_demand floats clock.estimated snap.class_rows snap.host_rows cfg)
          (λ demand. build_plan str loads state demand cfg clock.now since protect >>= λ plan.
            returns (only up_only plan))
          e in
      let (built, built_by, e₂) =
        >>=-eq-returns (build_plan str loads state demand cfg clock.now since protect)
          (λ plan. returns (only up_only plan)) e₁ in
      let free : contains f built.remove_nodes ≡ false =
        elim (build_plan_one_way str loads state demand cfg clock.now since protect built
          built_by) [
            | inl (_, empty, _, _) ↦ rw empty refl
            | inr (_, _, _, removed, _) ↦
                let (_, may, _) = plan_scale_down-IsIdleWorker state cfg clock.now since protect in
                rw removed (
                  spared protect f (plan_scale_down state cfg clock.now since protect)
                    (All-map (plan_scale_down state cfg clock.now since protect) (λ m h. h.0) may)
                    inside)
          ] in
      subst (λ (p : ScalePlan). contains f p.remove_nodes ≡ false) (returns-injective e₂)
        (contains-only up_only built f free)

has_dot-before_dot : (s : String) → has_dot (before_dot s) ≡ false
unfolding has_dot before_dot
has_dot-before_dot String.[] = refl
has_dot-before_dot (String.◌∷◌ c s) = elim (Bool-cases (code c == b'.')) [
  | inl e ↦ rw e refl
  | inr e ↦ rw e (rw e (has_dot-before_dot s))
]

lookup-IsShort :
    (names : Dict String) (n f : String)
    → IsShort names
    → lookup n names ≡ some f
    → n ≡ before_dot f
lookup-IsShort [] n f h e = absurd (cc e)
lookup-IsShort ((k, v) ∷ names) n f (h, hs) e = elim (Bool-cases (str_eq k n)) [
  | inl s ↦
      let same : some v ≡ some f = rw s at e in
      sym ((eq_iff k n).0 s) ∙ h ∙ ap before_dot (ground (arith, same))
  | inr s ↦ lookup-IsShort names n f hs (rw s at e)
]

-- The row names no node, or it names one by a hostname with a domain.
abbrev pub has_full_name : HostRow → Bool
has_full_name hr = elim hr.node_name [ none ↦ true | some n ↦ has_dot n ]

-- Host rows that name their nodes by hostnames with a domain, which is what Docker reports for such
-- nodes, protect no node at all, whatever their classes.
pub protected_node_fqdns-nil :
    (now : ℕ) (class_rows : List ClassRow) (node_dicts : List NodeAttrs) (rows : List HostRow)
    → All (λ hr. has_full_name hr ≡ true) rows
    → protected_node_fqdns now class_rows (short_to_fqdn [] node_dicts) rows ≡ []
protected_node_fqdns-nil now class_rows node_dicts [] h = refl
protected_node_fqdns-nil now class_rows node_dicts (hr ∷ rows) (h, hs) =
    let names = short_to_fqdn [] node_dicts in
    let later = protected_node_fqdns-nil now class_rows node_dicts rows hs in
    elim (Option-cases hr.node_name) [
      | inl e ↦ rw e later
      | inr (n, e) ↦ elim (Option-cases (lookup n names)) [
        | inl missing ↦ rw (e, get_or-none n names missing) (ground (arith, later))
        | inr (f, found) ↦
            let short =
              lookup-IsShort names n f (short_to_fqdn-IsMap node_dicts [] (tt, tt)).0 found in
            let dotless : has_dot n ≡ false = ap has_dot short ∙ has_dot-before_dot f in
            absurd (cc (dotless, (rw e at h)))
      ]
    ]
