-- ===== src/Classes.antt =====
-- The classes: the `Class` rows of cspawn/models.py.
pub mod Start
pub mod Runs
use code_server_spawner.Common.{ℕ, Bool, true, not, ◌&&◌, Option, none, some, leb}
use code_server_spawner.Common.Time.{Datetime, as_utc}

-- `Class`, the columns that the modelled code reads. `start_date` is never null.
pub record Class : Type 0 where
  pub id : ℕ
  pub start_date : Datetime
  pub end_date : Option Datetime
  pub active : Bool
  pub hidden : Bool
  pub running : Bool
  pub running_at : Option Datetime
  pub stops_at : Option Datetime
  pub purge_after : Option Datetime
  pub purge_by : Option Datetime
  pub target_nodes : Option ℕ

-- `end_date is None or now <= end_date`
abbrev pub not_ended : ℕ → Class → Bool
not_ended now c = elim c.end_date [ none ↦ true | some d ↦ leb now (as_utc d) ]

-- `now >= start_date`
abbrev pub has_begun : ℕ → Class → Bool
has_begun now c = leb (as_utc c.start_date) now

-- `Class.can_start`
abbrev pub can_start : ℕ → Class → Bool
can_start now c = has_begun now c && not_ended now c && c.active && not c.running

-- `Class.can_register`
abbrev pub can_register : ℕ → Class → Bool
can_register now c = has_begun now c && not_ended now c && c.active

-- `Class.is_current`
abbrev pub is_current : ℕ → Class → Bool
is_current now c = c.active && not c.hidden && has_begun now c && not_ended now c
