-- ===== src/Common/Time.antt =====
-- Points in time, in microseconds of UTC, and the datetimes of Python that stand for them.
use code_server_spawner.Common.{ℕ}

-- A datetime with a zone stands for its instant; one without is read as UTC by the code.
pub data Datetime : Type 0 where
  aware naive : ℕ → Datetime

-- `if d.tzinfo is None: d = d.replace(tzinfo=timezone.utc)`
abbrev pub as_utc : Datetime → ℕ
as_utc (Datetime.aware t) = t
as_utc (Datetime.naive t) = t
