-- ===== src/Autoscale/ScaleDown/Safety.antt =====
-- Which nodes a scale-down removes, and what it leaves.
use mathlib.Core.Path.{subst, sym}
use code_server_spawner.Common.{
  ℕ, ◌+◌, String, Bool, true, false, not, ◌&&◌, List, [], ◌∷◌, ◌≡◌, refl, ◌⊎◌, inl, inr, arith, All,
  length, keep, All-keep, if-elim,
}
use code_server_spawner.Common.Int.{
  ℤ, pos, ◌≤ℤ◌, ◌<ℤ◌, ◌+ℤ◌, ◌-ℤ◌, leb_ℤ, ltb_ℤ, int_laws, leb_ℤ→gt, ltb_ℤ→lt, ltb_ℤ→ge,
}
use code_server_spawner.Common.Dict.{Dict, contains}
use code_server_spawner.Common.Sort.Laws.{IsSorted, IsSorted-sort_by, All-sort_by}
use code_server_spawner.Common.Time.{Datetime}
use code_server_spawner.Config.{Config}
use code_server_spawner.Autoscale.State.{NodeView, ClusterState, excess_capacity, worker_count}
use code_server_spawner.Autoscale.ScaleDown.{
  Policy, policy, is_candidate, serial_key, candidates, is_cool, is_removable, select,
  plan_scale_down,
}

-- A worker that is no leader and runs no host.
abbrev pub IsIdleWorker : NodeView → Type 0
IsIdleWorker n = (n.is_manager ≡ false) × (n.is_leader ≡ false) × (n.running_hosts ≡ 0)

-- The serial of the first is not below that of the second; a node with none counts as -1.
abbrev pub SerialAbove : NodeView → NodeView → Type 0
SerialAbove a b = serial_key b ≤ℤ serial_key a

-- The capacity that leaves with the nodes.
abbrev pub freed : List NodeView → ℤ
freed [] = pos 0
freed (n ∷ ns) = n.capacity +ℤ freed ns

is_candidate-IsIdleWorker : (n : NodeView) → is_candidate n ≡ true → IsIdleWorker n
is_candidate-IsIdleWorker n h = ground arith

checks_passed :
    (a b c d : Bool)
    → not a && b && not c && not d ≡ true
    → (a ≡ false) × (b ≡ true) × (c ≡ false) × (d ≡ false)
checks_passed a b c d h = ground arith

module _ (p : Policy) (now : ℕ) (empty_since : Dict Datetime) (protect : List String) where
  -- What every selected node has been checked for, whatever was selected before it.
  abbrev pub MayGo : NodeView → Type 0
  MayGo n = (contains n.fqdn protect ≡ false) × (is_cool p.cooldown_min now empty_since n ≡ true)

  -- The four checks, read as facts.
  is_removable-MayGo :
      (n : NodeView) (excess workers : ℤ)
      → is_removable p now empty_since protect n excess workers ≡ true
      → MayGo n × (n.capacity +ℤ p.headroom <ℤ excess) × (p.min_workers ≤ℤ workers -ℤ pos 1)
  is_removable-MayGo n excess workers h =
      let (a, b, c, d) =
        checks_passed (contains n.fqdn protect) (is_cool p.cooldown_min now empty_since n)
          (leb_ℤ excess (n.capacity +ℤ p.headroom)) (ltb_ℤ (workers -ℤ pos 1) p.min_workers) h in
      (
        (a, b),
        leb_ℤ→gt excess (n.capacity +ℤ p.headroom) c,
        ltb_ℤ→ge (workers -ℤ pos 1) p.min_workers d,
      )

  select-All :
      (P : NodeView → Type 0) (ns : List NodeView) (taken : ℕ) (excess workers : ℤ)
      → All P ns
      → All P (select p now empty_since protect ns taken excess workers)
  unfolding select
  select-All P [] taken excess workers h = tt
  select-All P (n ∷ ns) taken excess workers (q, qs) =
      let later = select-All P ns (taken + 1) (excess -ℤ n.capacity) (workers -ℤ pos 1) qs in
      let skip = select-All P ns taken excess workers qs in
      if-elim (All P) (leb_ℤ p.max_remove (pos taken)) (λ _. tt)
        λ _.
          if-elim (All P) (is_removable p now empty_since protect n excess workers)
            (λ _. (q, later)) (λ _. skip)

  select-MayGo :
      (ns : List NodeView) (taken : ℕ) (excess workers : ℤ)
      → All MayGo (select p now empty_since protect ns taken excess workers)
  unfolding select
  select-MayGo [] taken excess workers = tt
  select-MayGo (n ∷ ns) taken excess workers =
      let later = select-MayGo ns (taken + 1) (excess -ℤ n.capacity) (workers -ℤ pos 1) in
      let skip = select-MayGo ns taken excess workers in
      if-elim (All MayGo) (leb_ℤ p.max_remove (pos taken)) (λ _. tt)
        λ _.
          if-elim (All MayGo) (is_removable p now empty_since protect n excess workers)
            (λ e. ((is_removable-MayGo n excess workers e).0, later)) (λ _. skip)

  -- The three limits of a selection that is not empty.
  abbrev Within : ℕ → ℤ → ℤ → List NodeView → Type 0
  Within taken excess workers removed =
      (pos (taken + length removed) ≤ℤ p.max_remove)
      × (freed removed +ℤ p.headroom <ℤ excess)
      × (p.min_workers ≤ℤ workers -ℤ pos (length removed))

  abbrev Outcome : ℕ → ℤ → ℤ → List NodeView → Type 0
  Outcome taken excess workers removed = (removed ≡ []) ⊎ Within taken excess workers removed

  extend :
      (n : NodeView) (removed : List NodeView) (taken : ℕ) (excess workers : ℤ)
      → pos taken <ℤ p.max_remove
      → MayGo n × (n.capacity +ℤ p.headroom <ℤ excess) × (p.min_workers ≤ℤ workers -ℤ pos 1)
      → (removed ≡ []) ⊎ Within (taken + 1) (excess -ℤ n.capacity) (workers -ℤ pos 1) removed
      → Within taken excess workers (n ∷ removed)
  extend n removed taken excess workers below (_, room, left) (inl e) =
      subst (λ r. Within taken excess workers (n ∷ r)) (sym e)
        (omega int_laws, omega int_laws, omega int_laws)
  extend n removed taken excess workers below (_, room, left) (inr (count, space, rest)) =
      (omega int_laws, omega int_laws, omega int_laws)

  select-Within :
      (ns : List NodeView) (taken : ℕ) (excess workers : ℤ)
      → Outcome taken excess workers (select p now empty_since protect ns taken excess workers)
  unfolding select
  select-Within [] taken excess workers = inl refl
  select-Within (n ∷ ns) taken excess workers =
      let later = select-Within ns (taken + 1) (excess -ℤ n.capacity) (workers -ℤ pos 1) in
      let skip = select-Within ns taken excess workers in
      if-elim (Outcome taken excess workers) (leb_ℤ p.max_remove (pos taken)) (λ _. inl refl)
        λ below.
          if-elim (Outcome taken excess workers)
            (is_removable p now empty_since protect n excess workers)
            (λ e. inr (
              extend n
                (select p now empty_since protect ns (taken + 1) (excess -ℤ n.capacity)
                  (workers -ℤ pos 1))
                taken excess workers (leb_ℤ→gt p.max_remove (pos taken) below)
                (is_removable-MayGo n excess workers e) later))
            (λ _. skip)

  select-SerialAbove :
      (ns : List NodeView) (taken : ℕ) (excess workers : ℤ)
      → IsSorted SerialAbove ns
      → IsSorted SerialAbove (select p now empty_since protect ns taken excess workers)
  unfolding select
  select-SerialAbove [] taken excess workers s = tt
  select-SerialAbove (n ∷ ns) taken excess workers (above, s) =
      let later = select-SerialAbove ns (taken + 1) (excess -ℤ n.capacity) (workers -ℤ pos 1) s in
      let skip = select-SerialAbove ns taken excess workers s in
      if-elim (IsSorted SerialAbove) (leb_ℤ p.max_remove (pos taken)) (λ _. tt)
        λ _.
          if-elim (IsSorted SerialAbove) (is_removable p now empty_since protect n excess workers)
            (λ _. (
              select-All (SerialAbove n) ns (taken + 1) (excess -ℤ n.capacity) (workers -ℤ pos 1)
                  above,
              later,
            ))
            (λ _. skip)

candidates-IsIdleWorker : (nodes : List NodeView) → All IsIdleWorker (candidates nodes)
unfolding candidates
candidates-IsIdleWorker nodes =
    All-sort_by (λ a b. ltb_ℤ (serial_key b) (serial_key a)) IsIdleWorker (keep is_candidate nodes)
      (All-keep IsIdleWorker is_candidate nodes is_candidate-IsIdleWorker)

candidates-SerialAbove : (nodes : List NodeView) → IsSorted SerialAbove (candidates nodes)
unfolding candidates
candidates-SerialAbove nodes =
    IsSorted-sort_by (λ a b. ltb_ℤ (serial_key b) (serial_key a)) SerialAbove
      (λ x y e. omega (arith, ltb_ℤ→lt (serial_key x) (serial_key y) e))
      (λ x y e. ltb_ℤ→ge (serial_key x) (serial_key y) e) (λ x y z p q. omega arith)
      (keep is_candidate nodes)

module _ (state : ClusterState) (cfg : Config) (now : ℕ) (empty_since : Dict Datetime)
    (protect : List String) where
  -- Every node that a scale-down selects is a worker, no leader, runs no host, is not protected and
  -- has been recorded as empty for the cooldown; and the nodes are in falling order of serial.
  pub plan_scale_down-IsIdleWorker :
      let removed = plan_scale_down state cfg now empty_since protect in
      All IsIdleWorker removed
      × All (MayGo (policy cfg) now empty_since protect) removed
      × IsSorted SerialAbove removed
  unfolding plan_scale_down
  plan_scale_down-IsIdleWorker =
      let p = policy cfg in
      let cs = candidates state.nodes in
      let workers = pos (worker_count state) in
      (
        select-All p now empty_since protect IsIdleWorker cs 0 (excess_capacity state) workers
            (candidates-IsIdleWorker state.nodes),
        select-MayGo p now empty_since protect cs 0 (excess_capacity state) workers,
        select-SerialAbove p now empty_since protect cs 0 (excess_capacity state) workers
            (candidates-SerialAbove state.nodes),
      )

  -- A scale-down is empty, or it stays within the cycle's maximum, leaves more spare capacity than
  -- the headroom, and leaves the minimum of workers.
  pub plan_scale_down-Within :
      let removed = plan_scale_down state cfg now empty_since protect in
      let p = policy cfg in
      (removed ≡ [])
      ⊎ ((pos (length removed) ≤ℤ p.max_remove)
          × (freed removed +ℤ p.headroom <ℤ excess_capacity state)
          × (p.min_workers ≤ℤ pos (worker_count state) -ℤ pos (length removed)))
  unfolding plan_scale_down
  plan_scale_down-Within =
      elim (select-Within (policy cfg) now empty_since protect (candidates state.nodes) 0
        (excess_capacity state) (pos (worker_count state))) [
          | inl none_selected ↦ inl none_selected
          | inr (count, room, left) ↦ inr (omega arith, room, left)
        ]
