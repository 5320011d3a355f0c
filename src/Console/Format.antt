-- ===== src/Console/Format.antt =====
-- The text for an uptime: `toNumber` and `formatUptime` of auth/frontend/src/utils/format.ts, on
-- whole seconds; every floor in it drops a fraction.
pub mod Exact
use Prim.Native.String.{◌++◌ as str_append}
use vectron.Prelude.{
  ℕ, ◌/◌, ◌%◌, String, Bool, Option, none, some, ltb, ltb_ℤ, ℤ, pos, pos_part, if◌then◌else◌,
  or_else,
}
use vectron.Console.Text.{number_text}

-- A value, with the number that `Number(value)` makes of it where it is none itself; `none` is a
-- number that is not finite.
pub data Value : Type 0 where
  a_number : Option ℤ → Value
  converted : Option ℤ → Value

-- `toNumber`, with a fallback that may be NaN.
unfoldable pub to_number : Value → Option ℤ → Option ℤ
to_number (a_number none) fallback = fallback
to_number (a_number (some n)) fallback = some n
to_number (converted none) fallback = fallback
to_number (converted (some n)) fallback = some n

pub record Uptime : Type 0 where
  pub days : ℕ
  pub hours : ℕ
  pub minutes : ℕ

unfoldable pub uptime_of : ℕ → Uptime
uptime_of seconds = record {
  days = seconds / 86400;
  hours = seconds % 86400 / 3600;
  minutes = seconds % 3600 / 60;
}

abbrev pub unit : ℕ → String → String
unit n name = str_append (number_text (pos n)) name

unfoldable pub uptime_text : Uptime → String
unfolding number_text
uptime_text t =
    if ltb 0 t.days
    then str_append (unit t.days "d ") (str_append (unit t.hours "h ") (unit t.minutes "m"))
    else if ltb 0 t.hours
    then str_append (unit t.hours "h ") (unit t.minutes "m")
    else unit t.minutes "m"

unfoldable pub format_uptime : Value → String → String
unfolding to_number uptime_of uptime_text
format_uptime value fallback = elim (to_number value none) [
  | none ↦ fallback
  | some seconds ↦
      if ltb_ℤ seconds (pos 0) then fallback else uptime_text (uptime_of (pos_part seconds))
]
