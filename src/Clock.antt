-- ===== src/Clock.antt =====
-- app/clock.py: instants, their ISO texts, and the injectable clock.
-- An instant is a number of microseconds since the epoch. The text format belongs to `datetime`,
-- so a text is kept as what `datetime.fromisoformat` reads in it.
use bounded_refund_agent.Prelude.{ℕ, ◌+◌, ℤ, ◌+ℤ◌, pos, ◌*ℤ◌}
use bounded_refund_agent.Result.{Result, ok, err, value_error}

pub data IsoText : Type 0 where
  aware : ℤ → IsoText
  naive : ℤ → IsoText
  malformed : IsoText

-- A text without an offset is read as UTC.
unfoldable pub parse_iso : IsoText → Result ℤ
parse_iso (aware t) = ok t
parse_iso (naive t) = ok t
parse_iso malformed = err value_error

unfoldable pub to_iso : ℤ → IsoText
to_iso t = aware t

abbrev pub microseconds_per_second : ℤ
microseconds_per_second = pos 1000000

-- `FixedClock`; `step` is in microseconds. A clock with step 0 never moves.
pub record Clock : Type 0 where
  pub current : ℤ
  pub step : ℤ
  pub readings : ℕ

unfoldable pub tick : Clock → Clock
tick c = record c { current = c.current +ℤ c.step; readings = c.readings + 1 }

-- `peek` and `advance`
unfoldable pub peek : Clock → ℤ
peek c = c.current

unfoldable pub advance : ℤ → Clock → Clock
advance seconds c = record c { current = c.current +ℤ seconds *ℤ microseconds_per_second }
