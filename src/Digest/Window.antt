-- ===== src/Digest/Window.antt =====
-- The window of a day's digest, and the gate of its task: `_eastern_now`, `_todays_window_eastern` and
-- `send_daily_digest` of the worker. An instant is a number of seconds of UTC, and the calendar of UTC
-- is the library's.
use jp_adopt_core.Prelude.{
  ℕ, ◌+◌, ◌-◌, ◌*◌, ◌/◌, ◌%◌, ◌≡◌, ◌≤◌, ◌<◌, Bool, true, if◌then◌else◌, ◌==◌, ltb, leb, ◌&&◌, ◌||◌,
  arith, ◌⊎◌,
}

-- The month and the day of an instant.
pub record Calendar : Type 0 where
  pub month : ℕ → ℕ
  pub day : ℕ → ℕ

-- `_current_eastern_offset_hours`, as the hours that Eastern time is behind UTC.
unfoldable pub eastern_offset_hours : Calendar → ℕ → ℕ
eastern_offset_hours cal now =
    if ltb (cal.month now) 3 || ltb 11 (cal.month now)
    then 5
    else if cal.month now == 3
    then (if leb 14 (cal.day now) then 4 else 5)
    else if cal.month now == 11
    then (if leb 7 (cal.day now) then 5 else 4)
    else 4

-- `_eastern_now`: the seconds of the clock on the wall.
abbrev pub eastern_now : Calendar → ℕ → ℕ
eastern_now cal now = now - eastern_offset_hours cal now * 3600

-- The number of the day on the wall.
abbrev pub eastern_day : Calendar → ℕ → ℕ
eastern_day cal now = eastern_now cal now / 86400

-- `_todays_window_eastern`
unfoldable pub window_end_of : Calendar → ℕ → ℕ
window_end_of cal now = eastern_day cal now * 86400 + 32400 + eastern_offset_hours cal now * 3600

unfoldable pub window_start_of : Calendar → ℕ → ℕ
unfolding window_end_of
window_start_of cal now = window_end_of cal now - 86400

-- The gate: half past nine has not come.
unfoldable pub is_digest_time : Calendar → ℕ → Bool
is_digest_time cal now =
    eastern_now cal now / 3600 % 24 == 9 && ltb (eastern_now cal now / 60 % 60) 30

-- The dates on which the task takes the daylight-saving time, and the others.
abbrev pub IsSummer : Calendar → ℕ → Type 0
IsSummer cal now =
    ((cal.month now ≡ 3) × (14 ≤ cal.day now))
    ⊎ ((3 < cal.month now) × (cal.month now < 11))
    ⊎ ((cal.month now ≡ 11) × (cal.day now < 7))

abbrev pub IsWinter : Calendar → ℕ → Type 0
IsWinter cal now =
    (cal.month now < 3)
    ⊎ ((cal.month now ≡ 3) × (cal.day now < 14))
    ⊎ ((cal.month now ≡ 11) × (7 ≤ cal.day now))
    ⊎ (11 < cal.month now)

-- A tick in summer has a window that ends at 13:00 UTC of its Eastern day, one in winter at 14:00 UTC.
abbrev pub EndsAtNine : Calendar → ℕ → Type 0
EndsAtNine cal now =
    (IsSummer cal now × (window_end_of cal now ≡ eastern_day cal now * 86400 + 13 * 3600))
    ⊎ (IsWinter cal now × (window_end_of cal now ≡ eastern_day cal now * 86400 + 14 * 3600))

-- How the windows of two ticks follow each other, by the seasons of the two.
abbrev pub FollowOn : Calendar → ℕ → ℕ → Type 0
FollowOn cal now now' =
    (IsSummer cal now × IsSummer cal now' × (window_start_of cal now' ≡ window_end_of cal now))
    ⊎ (IsWinter cal now × IsWinter cal now' × (window_start_of cal now' ≡ window_end_of cal now))
    ⊎ (IsSummer cal now
        × IsWinter cal now'
        × (window_start_of cal now' ≡ window_end_of cal now + 3600))
    ⊎ (IsWinter cal now
        × IsSummer cal now'
        × (window_start_of cal now' + 3600 ≡ window_end_of cal now))

-- A tick at the gate lies inside half an hour from the end of its window.
pub digest_time_after_window :
    (cal : Calendar) (now : ℕ)
    → eastern_offset_hours cal now * 3600 ≤ now
    → is_digest_time cal now ≡ true
    → (window_end_of cal now ≤ now) × (now < window_end_of cal now + 1800)
unfolding is_digest_time window_end_of
digest_time_after_window cal now h k = ground arith
