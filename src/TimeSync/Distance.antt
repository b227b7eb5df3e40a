-- ===== src/TimeSync/Distance.antt =====
-- The difference of a panel's time is the distance on the circle of a day.
use aqualinkd_validator.Prelude.{ℕ, ◌+◌, ◌-◌, ◌*◌, ◌<◌, ◌≡◌, if◌then◌else◌, leb, arith}
use aqualinkd_validator.TimeSync.{Clock, minutes, distance, boundary_error, panel_time_difference}

-- A time of the day.
abbrev pub IsTime : Clock → Type 0
IsTime c = (c.hour < 24) × (c.minute < 60) × (c.second < 60) × (c.microsecond < 1000000)

-- Seconds of the day.
abbrev pub seconds : Clock → ℕ
seconds c = minutes c * 60 + c.second

-- The shorter way round the day.
abbrev pub around : ℕ → ℕ → ℕ
around a b = let d = distance a b in if leb d (86400 - d) then d else 86400 - d

-- Between a time that the panel shows, whose seconds are not shown, and an expected time without
-- microseconds, the difference is the shorter way round the day.
pub difference-around :
    (panel expected : Clock)
    → IsTime panel
    → IsTime expected
    → expected.microsecond ≡ 0
    → panel_time_difference panel expected ≡ around (minutes panel * 60) (seconds expected)
unfolding panel_time_difference boundary_error
difference-around panel expected (h, m, s, u) (h', m', s', u') z = ground (arith, z)
