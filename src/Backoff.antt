-- ===== src/Backoff.antt =====
-- src/exo/utils/keyed_backoff.py. Times are whole numbers of one unit, and `base` and `cap` are in
-- that unit, so that no product or difference is rounded; `now` is what `time.monotonic()` answers.
pub mod Delay
pub mod Tests
use awesome_distributed_ai_i.Base.{
  ℕ, ◌+◌, ◌-◌, ◌*◌, ◌^◌, ◌≤◌, Bool, Option, none, some, [], leb, ltb, min, if◌then◌else◌, Result,
  ok, raise, overflow_error, ◌>>=◌,
}
use awesome_distributed_ai_i.Base.Dict.{Dict, get, set, remove}

pub record KeyedBackoff : Type 0 where
  pub base : ℕ
  pub cap : ℕ
  pub attempts_of : Dict ℕ
  pub last_time : Dict ℕ

unfoldable pub init : (base cap : ℕ) → KeyedBackoff
init base cap = record { base = base; cap = cap; attempts_of = []; last_time = [] }

abbrev pub or_zero : Option ℕ → ℕ
or_zero none = 0
or_zero (some n) = n

-- `attempts(key)`
unfoldable pub attempts : ℕ → KeyedBackoff → ℕ
attempts key b = or_zero (get key b.attempts_of)

-- `2.0**attempts`, which raises from 1024 on; below it is exact.
abbrev pub float_power : ℕ → Result ℕ
float_power n = if ltb n 1024 then ok (2 ^ n) else raise overflow_error

-- `now - last >= delay`, where `now - last` may be negative.
unfoldable pub should_proceed : (now : ℕ) → ℕ → KeyedBackoff → Result Bool
should_proceed now key b =
    let last = or_zero (get key b.last_time) in
    do
      power ← float_power (or_zero (get key b.attempts_of))
      ok (leb (last + min b.cap (b.base * power)) now)

unfoldable pub record_attempt : (now : ℕ) → ℕ → KeyedBackoff → KeyedBackoff
record_attempt now key b = record b {
  last_time = set key now b.last_time;
  attempts_of = set key (or_zero (get key b.attempts_of) + 1) b.attempts_of;
}

unfoldable pub reset : ℕ → KeyedBackoff → KeyedBackoff
reset key b = record b {
  attempts_of = remove key b.attempts_of;
  last_time = remove key b.last_time;
}
