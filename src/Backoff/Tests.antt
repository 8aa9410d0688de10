-- ===== src/Backoff/Tests.antt =====
-- A backoff of base 1 and cap 10, and the theorems at these inputs.
use awesome_distributed_ai_i.Base.{
  ℕ, ◌+◌, ◌≡◌, refl, true, false, [], ◌∷◌, length, ok, raise, overflow_error,
}
use awesome_distributed_ai_i.Base.Dict.{get, set, remove}
use awesome_distributed_ai_i.Backoff.{init, should_proceed, record_attempt, reset}
use awesome_distributed_ai_i.Backoff.Delay.{answer, record_all, should_proceed-record_all}

program : Unit {0}
unfolding init should_proceed record_attempt reset get set remove
program = tt

-- Two attempts: a wait of 4.
too_early : should_proceed 23 5 (record_attempt 20 5 (record_attempt 18 5 (init 1 10))) ≡ ok false
unfolding program
too_early = refl

in_time : should_proceed 24 5 (record_attempt 20 5 (record_attempt 18 5 (init 1 10))) ≡ ok true
unfolding program
in_time = refl

-- With 1024 attempts on record.
raises :
    should_proceed 24 5 (record (init 1 10) { attempts_of = (5, 1024) ∷ [] }) ≡ raise overflow_error
unfolding program
raises = refl

should_proceed-record_all_example :
    should_proceed 24 5 (record_attempt 20 5 (record_all (18 ∷ []) 5 (reset 5 (init 1 10))))
    ≡ answer (length {A = ℕ} (18 ∷ []) + 1) 20 24 (init 1 10).base (init 1 10).cap
should_proceed-record_all_example = should_proceed-record_all (18 ∷ []) 20 24 5 (init 1 10)
