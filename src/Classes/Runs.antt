-- ===== src/Classes/Runs.antt =====
-- The run of a class: `class_run_state` and the copy of a class in cspawn/main/routes/classes.py,
-- `Class.update` of cspawn/models.py, and what a student sees of it, `Class.host_class_state` and
-- `which_host_buttons`. Each reading of the clock is an argument.
pub mod Laws
mod Tests
use code_server_spawner.Common.{
  ℕ, ◌+◌, ◌≤◌, ◌<◌, String, Bool, true, false, not, ◌&&◌, ◌||◌, Option, none, some, List, [], ◌∷◌,
  ◌≡◌, refl, ◌⊎◌, inl, inr, arith, ltb, ◌==◌, str_eq, if◌then◌else◌, Outcome, raises, returns,
  outside,
}
use code_server_spawner.Common.Dict.{contains}
use code_server_spawner.Common.Time.{Datetime, aware, as_utc}
use code_server_spawner.Hosts.{CodeHost, says}
use code_server_spawner.Classes.{Class}

-- The answers of the view.
pub data RunReply : Type 0 where
  updated too_early too_late invalid_state : RunReply

-- `class_.end_date and t > class_.end_date`
abbrev pub is_over : ℕ → Class → Bool
is_over t c = elim c.end_date [ none ↦ false | some d ↦ ltb (as_utc d) t ]

abbrev pub stop_run : Class → Class
stop_run c = record c { running = false; running_at = none; stops_at = none }

-- three hours, in microseconds
abbrev pub three_hours : ℕ
three_hours = 10_800_000_000

abbrev pub start_run : ℕ → Class → Class
start_run now c = record c {
  running = true;
  running_at = some (aware now);
  stops_at = some (aware (now + three_hours));
}

-- `class_run_state(class_id)`, with the clock at the first test, at the second and at the start
unfoldable pub class_run_state : ℕ → ℕ → ℕ → String → Class → RunReply × Class
class_run_state t₁ t₂ now state c =
    if str_eq state "running"
    then (if ltb t₁ (as_utc c.start_date)
        then (too_early, c)
        else if is_over t₂ c
        then (too_late, c)
        else (updated, start_run now c))
    else if str_eq state "stopped"
    then (updated, stop_run c)
    else (invalid_state, c)

-- `Class.update()`; a comparison with an end date that is missing raises.
unfoldable pub refresh_class : ℕ → Class → Outcome Class
refresh_class t c =
    if ltb t (as_utc c.start_date)
    then returns (record (stop_run c) { active = false })
    else (elim c.end_date [
      | none ↦ raises (outside "'>' not supported between instances of 'datetime' and 'NoneType'")
      | some d ↦
          if ltb (as_utc d) t
          then returns (record (stop_run c) { active = false })
          else returns (record c { active = true })
    ])

-- `copy_class(class_id)`: the columns of the copy, under its own id
abbrev pub copy_class : ℕ → Class → Class
copy_class id c = record (stop_run c) { id = id; hidden = false }

-- What `host_class_state` gives of a class and the host of a student.
unfoldable pub host_class_state : Class → Option CodeHost → String
host_class_state c none = if c.running then "stopped" else "waiting"
host_class_state c (some host) =
    if (elim host.class_id [ none ↦ false | some k ↦ c.id == k ])
    then (if says host.app_state "ready" then "running" else "starting")
    else "other"

-- `which_host_buttons(state)`
unfoldable pub which_host_buttons : String → List String
which_host_buttons state =
    if str_eq state "stopped"
    then "start" ∷ []
    else if str_eq state "running"
    then "open" ∷ "stop" ∷ []
    else if str_eq state "starting"
    then "spin" ∷ []
    else if str_eq state "other"
    then "stop" ∷ "other" ∷ []
    else if str_eq state "waiting"
    then "waiting" ∷ []
    else []

-- The times of the run are there exactly while it lasts, three hours apart.
abbrev pub IsRunConsistent : Class → Type 0
IsRunConsistent c =
    ((c.running ≡ true)
      × ((at : ℕ) × (c.running_at ≡ some (aware at))
          × (c.stops_at ≡ some (aware (at + three_hours)))))
    ⊎ ((c.running ≡ false) × (c.running_at ≡ none) × (c.stops_at ≡ none))

-- A change of a class: by the view, by a refresh that returns, or by copying it.
pub data Change : Class → Class → Type 0 where
  by_view :
      (t₁ t₂ now : ℕ) (state : String) (c : Class) → Change c (class_run_state t₁ t₂ now state c).1
  by_refresh : (t : ℕ) (c d : Class) → refresh_class t c ≡ returns d → Change c d
  by_copy : (id : ℕ) (c : Class) → Change c (copy_class id c)

pub data Changes (c : Class) : Class → Type 0 where
  none_yet : Changes c c
  then_change : {d e : Class} → Changes c d → Change d e → Changes c e
