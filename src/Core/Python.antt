-- ===== src/Core/Python.antt =====
-- The built-ins of Python that the program calls and that are not under the repository.
use atlas_the_agent.Base.{ℕ, ◌≡◌, String, Option, some, Text}
use atlas_the_agent.Core.Json.{ℤ, Float, Json, Fields, int}

-- How `json.loads` ends: with a value, with `JSONDecodeError`, or with another exception (a
-- number of more digits than `int` accepts, nesting past the recursion limit).
pub data Loaded : Type 0 where
  value : Json → Loaded
  malformed : Text → Loaded
  raised : Text → Loaded

pub record Python : Type 0 where
  pub loads : Text → Loaded
  -- `repr(s)` and `s.lower()` of a string, `str(n)` of a number, `str(v)` of any value
  pub repr : Text → Text
  pub lower : Text → Text
  pub show : ℕ → Text
  -- `uuid.hex`
  pub hex : ℕ → Text
  pub str_of : Json → Text
  -- `int(v)`; `none` where it raises
  pub int_of : Json → Option ℤ
  -- `float(s)` of a string, `none` where it raises `ValueError`
  pub float_of_text : Text → Option Float
  -- what pydantic says of a dict that does not fit a schema, `loc: msg`
  pub invalid_shape : String → Fields → Text
  -- `float(n)` of an integer, `none` where it raises `OverflowError`
  pub float_of_int : ℤ → Option Float

-- `int(n)` of an integer is that integer.
pub record KeepsInts (py : Python) : Type 0 where
  pub int_of_int : (z : ℤ) → py.int_of (int z) ≡ some z
