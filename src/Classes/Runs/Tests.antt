-- ===== src/Classes/Runs/Tests.antt =====
-- The run of a concrete class.
use code_server_spawner.Common.{
  true, false, none, some, [], ◌∷◌, ◌≡◌, refl, inr, returns, raises, outside,
}
use code_server_spawner.Common.Time.{aware}
use code_server_spawner.Classes.{Class}
use code_server_spawner.Classes.Runs.{
  updated, too_early, too_late, invalid_state, class_run_state, refresh_class, host_class_state,
  which_host_buttons, IsRunConsistent, Changes, none_yet, then_change, by_view, start_run, stop_run,
}
use code_server_spawner.Classes.Runs.Laws.{Changes-IsRunConsistent}

abbrev lesson : Class
lesson = record {
  id = 4;
  start_date = aware 100;
  end_date = some (aware 200);
  active = true;
  hidden = false;
  running = false;
  running_at = none;
  stops_at = none;
  purge_after = none;
  purge_by = none;
  target_nodes = none;
}

-- A start before the first day, after the last, between them, and a state that there is not.
class_run_state-replies :
    ((class_run_state 99 150 150 "running" lesson).0 ≡ too_early)
    × ((class_run_state 150 201 201 "running" lesson).0 ≡ too_late)
    × ((class_run_state 150 151 152 "running" lesson) ≡ (updated, start_run 152 lesson))
    × ((class_run_state 150 151 152 "paused" lesson).0 ≡ invalid_state)
unfolding class_run_state
class_run_state-replies = (refl, refl, refl, refl)

-- What a student without a host may do, before and in the run.
which_host_buttons-no_host :
    (which_host_buttons (host_class_state lesson none) ≡ "waiting" ∷ [])
    × (which_host_buttons (host_class_state (start_run 152 lesson) none) ≡ "start" ∷ [])
unfolding which_host_buttons host_class_state
which_host_buttons-no_host = (refl, refl)

-- A refresh after the last day ends the run.
refresh_class-ends :
    refresh_class 201 (start_run 152 lesson) ≡ returns (record (stop_run lesson) { active = false })
unfolding refresh_class
refresh_class-ends = refl

-- A refresh of a class without an end date raises, from its first day on.
refresh_class-endless :
    refresh_class 150 (record lesson { end_date = none })
    ≡ raises (outside "'>' not supported between instances of 'datetime' and 'NoneType'")
unfolding refresh_class
refresh_class-endless = refl

abbrev history : Changes lesson (class_run_state 150 151 152 "running" lesson).1
history = then_change none_yet (by_view 150 151 152 "running" lesson)

Changes-IsRunConsistent_example : IsRunConsistent (class_run_state 150 151 152 "running" lesson).1
Changes-IsRunConsistent_example = Changes-IsRunConsistent history (inr (refl, refl, refl))
