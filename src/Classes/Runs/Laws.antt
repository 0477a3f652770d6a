-- ===== src/Classes/Runs/Laws.antt =====
-- The run of a class keeps its times, for cspawn/main/routes/classes.py and cspawn/models.py.
use code_server_spawner.Common.{
  ℕ, String, Bool, true, false, Option, none, some, ◌≡◌, refl, inl, inr, ltb, str_eq, if◌then◌else◌,
  Outcome, returns-injective, if-elim, returns,
}
use mathlib.Core.Path.{subst}
use code_server_spawner.Common.Time.{as_utc}
use code_server_spawner.Classes.{Class}
use code_server_spawner.Classes.Runs.{
  RunReply, is_over, stop_run, start_run, class_run_state, refresh_class, IsRunConsistent, Change,
  by_view, by_refresh, by_copy, Changes, none_yet, then_change,
}

-- A property of both branches holds of the test.
if-both : {A : Type 0} (P : A → Type 0) (b : Bool) {x y : A} → P x → P y → P (if b then x else y)
if-both P b p q = if-elim P b (λ _. p) (λ _. q)

option-both :
    {A B : Type 0} (P : B → Type 0) (o : Option A) {x : B} {f : A → B}
    → P x
    → ((a : A) → P (f a))
    → P (elim o [ none ↦ x | some a ↦ f a ])
option-both P none p q = p
option-both P (some a) p q = q a

start_run-IsRunConsistent : (now : ℕ) (c : Class) → IsRunConsistent (start_run now c)
start_run-IsRunConsistent now c = inl (refl, (now, refl, refl))

class_run_state-IsRunConsistent :
    (t₁ t₂ now : ℕ) (state : String) (c : Class)
    → IsRunConsistent c
    → IsRunConsistent (class_run_state t₁ t₂ now state c).1
unfolding class_run_state
class_run_state-IsRunConsistent t₁ t₂ now state c h =
    let P : RunReply × Class → Type 0 = λ r. IsRunConsistent r.1 in
    if-both P (str_eq state "running")
      (if-both P (ltb t₁ (as_utc c.start_date)) h
        (if-both P (is_over t₂ c) h (start_run-IsRunConsistent now c)))
      (if-both P (str_eq state "stopped") (inr (refl, refl, refl)) h)

-- What an outcome returns is consistent.
abbrev ReturnsConsistent : Outcome Class → Type 0
ReturnsConsistent o = (d : Class) → o ≡ returns d → IsRunConsistent d

returns-ReturnsConsistent : (c : Class) → IsRunConsistent c → ReturnsConsistent (returns c)
returns-ReturnsConsistent c h d e = subst IsRunConsistent (returns-injective e) h

-- A refresh ends the run or leaves it as it is.
refresh_class-IsRunConsistent :
    (t : ℕ) (c : Class)
    → IsRunConsistent c
    → (d : Class) → refresh_class t c ≡ returns d
    → IsRunConsistent d
unfolding refresh_class
refresh_class-IsRunConsistent t c h =
    let stopped : ReturnsConsistent (returns (record (stop_run c) { active = false })) =
      returns-ReturnsConsistent _ (inr (refl, refl, refl)) in
    if-both ReturnsConsistent (ltb t (as_utc c.start_date)) stopped (
      option-both ReturnsConsistent c.end_date (λ d e. cc)
        (λ end.
          if-both ReturnsConsistent (ltb (as_utc end) t) stopped
            (returns-ReturnsConsistent (record c { active = true }) h)))

Change-IsRunConsistent : {c d : Class} → Change c d → IsRunConsistent c → IsRunConsistent d
Change-IsRunConsistent (by_view t₁ t₂ now state c) h =
    class_run_state-IsRunConsistent t₁ t₂ now state c h
Change-IsRunConsistent (by_refresh t c d e) h = refresh_class-IsRunConsistent t c h d e
Change-IsRunConsistent (by_copy id c) h = inr (refl, refl, refl)

-- Whatever sequence of changes a class goes through, by the view that starts and stops its run, by refreshes that
-- return and by copying, its times of starting and stopping are there exactly while the run lasts and are
-- three hours apart, provided that they were so before.
pub Changes-IsRunConsistent : {c d : Class} → Changes c d → IsRunConsistent c → IsRunConsistent d
Changes-IsRunConsistent none_yet h = h
Changes-IsRunConsistent (then_change before last) h =
    Change-IsRunConsistent last (Changes-IsRunConsistent before h)
