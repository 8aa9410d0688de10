-- ===== src/Backoff/Delay.antt =====
-- What the backoff of a key answers over time.
use awesome_distributed_ai_i.Base.{
  ℕ, length, ◌+◌, ◌*◌, ◌^◌, ◌≡◌, ◌≢◌, refl, List, [], ◌∷◌, leb, ltb, min, arith, if◌then◌else◌,
  Bool, Bool-cases, inl, inr, Result, ok, raise, overflow_error,
}
use awesome_distributed_ai_i.Base.Dict.{
  get, get-set_self, get-set_ne, get-remove_self, get-remove_ne,
}
use awesome_distributed_ai_i.Backoff.{
  KeyedBackoff, attempts, should_proceed, record_attempt, reset, or_zero,
}

-- The attempts made at the times, the first of them first.
abbrev pub record_all : List ℕ → ℕ → KeyedBackoff → KeyedBackoff
record_all [] key b = b
record_all (now ∷ times) key b = record_all times key (record_attempt now key b)

-- The answer after `n` attempts, of which the last is at `now`.
abbrev pub answer : (n now later base cap : ℕ) → Result Bool
answer n now later base cap =
    if ltb n 1024 then ok (leb (now + min cap (base * 2 ^ n)) later) else raise overflow_error

-- After an attempt at `now`, the key may proceed at a time exactly when the delay for its
-- attempts has passed since `now`: the base doubled once per attempt, and no more than the cap.
-- From 1024 attempts on, the question raises.
pub should_proceed-record_attempt :
    (now later key : ℕ) (b : KeyedBackoff)
    → should_proceed later key (record_attempt now key b)
      ≡ answer (attempts key b + 1) now later b.base b.cap
unfolding should_proceed record_attempt attempts
should_proceed-record_attempt now later key b =
    let n = or_zero (get key b.attempts_of) + 1 in
    elim (Bool-cases (ltb n 1024)) [
      | inl few ↦ rw (get-set_self key now b.last_time, get-set_self key n b.attempts_of, few)
      | inr many ↦ rw (get-set_self key now b.last_time, get-set_self key n b.attempts_of, many)
    ]

-- Each attempt counts once.
attempts-record_attempt :
    (now key : ℕ) (b : KeyedBackoff) → attempts key (record_attempt now key b) ≡ attempts key b + 1
unfolding attempts record_attempt
attempts-record_attempt now key b =
    rw (get-set_self key (or_zero (get key b.attempts_of) + 1) b.attempts_of)

attempts-record_all :
    (times : List ℕ) (key : ℕ) (b : KeyedBackoff)
    → attempts key (record_all times key b) ≡ attempts key b + length times
attempts-record_all [] key b = omega arith
attempts-record_all (now ∷ times) key b =
    let rest = attempts-record_all times key (record_attempt now key b) in
    let one = attempts-record_attempt now key b in omega arith

attempts-reset : (key : ℕ) (b : KeyedBackoff) → attempts key (reset key b) ≡ 0
unfolding attempts reset
attempts-reset key b = rw (get-remove_self key b.attempts_of)

config-record_all :
    (times : List ℕ) (key : ℕ) (b : KeyedBackoff)
    → ((record_all times key b).base ≡ b.base) × ((record_all times key b).cap ≡ b.cap)
unfolding record_attempt
config-record_all [] key b = (refl, refl)
config-record_all (now ∷ times) key b = config-record_all times key (record_attempt now key b)

config-reset :
    (key : ℕ) (b : KeyedBackoff) → ((reset key b).base ≡ b.base) × ((reset key b).cap ≡ b.cap)
unfolding reset
config-reset key b = (refl, refl)

-- After a reset and any attempts, of which the last is at `now`, the key may proceed exactly once
-- the base, doubled once per attempt since the reset and cut at the cap, has passed since `now`. From 1024 attempts
-- since the reset on, the question raises instead.
pub should_proceed-record_all :
    (times : List ℕ) (now later key : ℕ) (b : KeyedBackoff)
    → should_proceed later key (record_attempt now key (record_all times key (reset key b)))
      ≡ answer (length times + 1) now later b.base b.cap
should_proceed-record_all times now later key b =
    let (same_base, same_cap) = config-record_all times key (reset key b) in
    let (old_base, old_cap) = config-reset key b in
    let counted : attempts key (record_all times key (reset key b)) ≡ length times =
      omega (arith, attempts-record_all times key (reset key b), attempts-reset key b) in
    rw (
      should_proceed-record_attempt now later key (record_all times key (reset key b)),
      same_base,
      same_cap,
      counted,
      old_base,
      old_cap,
    )

-- An attempt or a reset of one key leaves what the backoff answers for the others.
should_proceed-others :
    (now later key other : ℕ) (b : KeyedBackoff)
    → other ≢ key
    → (should_proceed later other (record_attempt now key b) ≡ should_proceed later other b)
      × (should_proceed later other (reset key b) ≡ should_proceed later other b)
unfolding should_proceed record_attempt reset
should_proceed-others now later key other b ne = (
  rw (
    get-set_ne key other now b.last_time (λ e. ne (cc e)),
    get-set_ne key other (or_zero (get key b.attempts_of) + 1) b.attempts_of (λ e. ne (cc e)),
  ),
  rw (
    get-remove_ne key other b.last_time (λ e. ne (cc e)),
    get-remove_ne key other b.attempts_of (λ e. ne (cc e)),
  ),
)
