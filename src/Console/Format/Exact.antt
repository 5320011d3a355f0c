-- ===== src/Console/Format/Exact.antt =====
-- The parts of an uptime of auth/frontend/src/utils/format.ts make up its seconds.
use vectron.Prelude.{ℕ, ◌+◌, ◌*◌, ◌≤◌, ◌<◌, ◌≡◌, String, some, pos, arith, ap, ltb_ℤ, false}
use vectron.Console.Format.{a_number, to_number, Uptime, uptime_of, uptime_text, format_uptime}

-- The seconds of an uptime.
abbrev pub seconds_of : Uptime → ℕ
seconds_of t = t.days * 86400 + t.hours * 3600 + t.minutes * 60

-- The only uptime of these seconds, but for less than a minute.
pub record IsUptime (t : Uptime) (seconds : ℕ) : Type 0 where
  pub hours_lt : t.hours < 24
  pub minutes_lt : t.minutes < 60
  pub seconds_le : seconds_of t ≤ seconds
  pub seconds_lt : seconds < seconds_of t + 60

uptime_of-IsUptime : (seconds : ℕ) → IsUptime (uptime_of seconds) seconds
unfolding uptime_of
uptime_of-IsUptime seconds = record {
  hours_lt = omega arith;
  minutes_lt = omega arith;
  seconds_le = omega arith;
  seconds_lt = omega arith;
}

IsUptime-unique : (t u : Uptime) (seconds : ℕ) → IsUptime t seconds → IsUptime u seconds → t ≡ u
IsUptime-unique t u seconds h k =
    let days : t.days ≡ u.days = omega arith in
    let hours : t.hours ≡ u.hours = omega arith in
    let minutes : t.minutes ≡ u.minutes = omega arith in
    λ i. record { days = days i; hours = hours i; minutes = minutes i }

-- For an uptime in days, hours below 24 and minutes below 60 that makes up a whole number of
-- seconds but for less than a minute, the formatted text of these seconds is the text of that
-- uptime.
pub format_uptime-IsUptime :
    (seconds : ℕ) (t : Uptime) (fallback : String)
    → IsUptime t seconds
    → format_uptime (a_number (some (pos seconds))) fallback ≡ uptime_text t
unfolding format_uptime to_number
format_uptime-IsUptime seconds t fallback h =
    let nonnegative : ltb_ℤ (pos seconds) (pos 0) ≡ false = ground arith in
    rw nonnegative (
      ap uptime_text (IsUptime-unique (uptime_of seconds) t seconds (uptime_of-IsUptime seconds) h))
