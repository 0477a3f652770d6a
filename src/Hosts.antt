-- ===== src/Hosts.antt =====
-- The hosts: the `CodeHost` rows of cspawn/models.py with their health flags, and in the children
-- how cspawn/cs_docker/csmanager.py stops them.
pub mod Create
pub mod Stop
pub mod Sync
mod Tests
use code_server_spawner.Common.{
  ℕ, ◌+◌, ◌-◌, ◌*◌, ◌/◌, ◌%◌, String, Bool, ◌||◌, Option, none, some, str_eq, ltb, leb, ◌==◌,
  if◌then◌else◌,
}
use code_server_spawner.Common.Int.{
  ℤ, pos, sub_ℕ, ltb_ℤ, leb_ℤ, floor_minutes, over_minutes, is_even, ◌+ℤ◌,
}
use code_server_spawner.Common.Time.{Datetime, as_utc}

-- `CodeHost`, the columns that the modelled code reads
pub record CodeHost : Type 0 where
  pub id : ℕ
  pub user_id : ℕ
  pub service_id : String
  pub service_name : String
  pub state : String
  pub app_state : Option String
  pub class_id : Option ℕ
  pub node_name : Option String
  pub last_heartbeat : Option Datetime
  pub last_utilization : Option Datetime
  pub created_at : Datetime
  pub updated_at : Option Datetime

-- `CodeHost.to_minutes(td)`: minutes to the nearest whole number, ties to the even one
abbrev pub to_minutes : ℤ → ℤ
to_minutes d =
    let q = floor_minutes d in
    let r = over_minutes d in
    if ltb r 30_000_000
    then q
    else if ltb 30_000_000 r
    then q +ℤ pos 1
    else if is_even q
    then q
    else q +ℤ pos 1

-- `to_minutes(now - (stamp or created_at))`
abbrev minutes_since : ℕ → Option Datetime → Datetime → ℤ
minutes_since now none created = to_minutes (sub_ℕ now (as_utc created))
minutes_since now (some d) created = to_minutes (sub_ℕ now (as_utc d))

-- `CodeHost.heart_beat_ago`
abbrev pub heart_beat_ago : ℕ → CodeHost → ℤ
heart_beat_ago now h = minutes_since now h.last_heartbeat h.created_at

-- `CodeHost.modified_ago`
abbrev pub modified_ago : ℕ → CodeHost → ℤ
modified_ago now h = minutes_since now h.last_utilization h.created_at

-- `app_state == word`
abbrev pub says : Option String → String → Bool
says none word = Bool.false
says (some s) word = str_eq s word

-- `CodeHost.is_mia`
abbrev pub is_mia : CodeHost → Bool
is_mia h = says h.app_state "mia" || str_eq h.state "mia"

-- `CodeHost.is_quiescent`
abbrev pub is_quiescent : ℕ → CodeHost → Bool
is_quiescent now h = ltb_ℤ (pos 20) (heart_beat_ago now h) || ltb_ℤ (pos 15) (modified_ago now h)

-- `CodeHost.is_purgeable`
abbrev pub is_purgeable : ℕ → CodeHost → Bool
is_purgeable now h =
    is_mia h || (ltb_ℤ (pos 50) (heart_beat_ago now h) || ltb_ℤ (pos 50) (modified_ago now h))
