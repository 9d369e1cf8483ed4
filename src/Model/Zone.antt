-- ===== src/Model/Zone.antt =====
-- A *time.Location, as the time package reads it off the zone database.
use social.Prelude.{ℕ}
use social.Prelude.Int.{ℤ}

pub record Zone : Type 0 where
  -- the local date of an instant, in days since the first of January of year 1
  pub local_day : ℕ → ℕ
  -- the local clock of an instant, in nanoseconds since the day began
  pub local_clock : ℕ → ℕ
  -- time.Date(y, m, d, hour, min, 0, nsec, loc), with the date as a day
  pub date : (day : ℕ) (hour min : ℤ) (nsec : ℕ) → ℕ
