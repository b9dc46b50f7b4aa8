-- ===== src/Core/Arithmetic.antt =====
-- The arithmetic of Python's `float`, of which the program sees only the results.
use atlas_the_agent.Base.{ℕ, String, Text}
use atlas_the_agent.Core.Json.{Float}

pub record Arithmetic : Type 0 where
  -- the double of a literal, and `m / n` of integers
  pub literal : String → Float
  pub ratio : ℕ → ℕ → Float
  -- `t.timestamp()` of a time
  pub timestamp : ℕ → Float
  pub plus : Float → Float → Float
  pub minus : Float → Float → Float
  pub times : Float → Float → Float
  pub over : Float → Float → Float
  -- `repr(x)`
  pub repr : Float → Text
