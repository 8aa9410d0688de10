-- ===== src/Placement/Floats.antt =====
-- The interface of the floats that placement computes with. Nothing is assumed of them but what a
-- theorem names.
use awesome_distributed_ai_i.Base.{ℕ, Bool}

pub record Floats : Type 1 where
  pub Float : Type 0
  -- `0.0` and `1.0`
  pub zero_float : Float
  pub one_float : Float
  -- `a / b` of two amounts of memory, for b other than 0
  pub divide : ℕ → ℕ → Float
  -- `f * n`
  pub times : Float → ℕ → Float
  -- `int(r)` of a float that is not negative
  pub int : Float → ℕ
  -- `r - n`
  pub minus : Float → ℕ → Float
  pub plus : Float → Float → Float
  -- `a < b`
  pub lt : Float → Float → Bool
