-- ===== src/Agent/Reflector/Verdict/Range.antt =====
-- The range of `_coerce_confidence`.
use atlas_the_agent.Base.{subst, ◌≤◌, ◌≡◌, Option, none, some, strip, arith}
use atlas_the_agent.Core.Json.{
  pos, negsuc, Float, nan, neg_inf, pos_inf, finite, Json, null, bool, int, float, str, arr, obj,
}
use atlas_the_agent.Core.Python.{Python}
use atlas_the_agent.Agent.Reflector.Verdict.{
  clamp_some, clamp_or_default, one_units, one_float, half_float, clamp, coerce_confidence,
}

-- A double from 0.0 to 1.0.
abbrev pub IsFraction : Float → Type 0
IsFraction (finite (pos n)) = n ≤ one_units
IsFraction _ = ⊥

clamp-IsFraction : (x : Float) → IsFraction (clamp x)
unfolding clamp one_float
clamp-IsFraction nan = ground arith
clamp-IsFraction neg_inf = ground arith
clamp-IsFraction pos_inf = ground arith
clamp-IsFraction (finite (pos n)) = ground arith
clamp-IsFraction (finite (negsuc n)) = ground arith

half-IsFraction : IsFraction half_float
unfolding half_float one_units
half-IsFraction = omega arith

clamp_or_default-IsFraction : (o : Option Float) → IsFraction (clamp_or_default o)
clamp_or_default-IsFraction none = half-IsFraction
clamp_or_default-IsFraction (some x) = clamp-IsFraction x

-- A result, if there is one, is a fraction.
abbrev AsFraction : Option Float → Type 0
AsFraction none = Unit
AsFraction (some x) = IsFraction x

clamped-AsFraction : (o : Option Float) → AsFraction (clamp_some o)
clamped-AsFraction none = tt
clamped-AsFraction (some x) = clamp-IsFraction x

coerce_confidence-AsFraction : (py : Python) (v : Option Json) → AsFraction (coerce_confidence py v)
unfolding coerce_confidence
coerce_confidence-AsFraction py none = half-IsFraction
coerce_confidence-AsFraction py (some null) = half-IsFraction
coerce_confidence-AsFraction py (some (bool b)) = half-IsFraction
coerce_confidence-AsFraction py (some (int z)) = clamped-AsFraction (py.float_of_int z)
coerce_confidence-AsFraction py (some (float x)) = clamp-IsFraction x
coerce_confidence-AsFraction py (some (str s)) =
    clamp_or_default-IsFraction (py.float_of_text (strip s))
coerce_confidence-AsFraction py (some (arr items)) = half-IsFraction
coerce_confidence-AsFraction py (some (obj fs)) = half-IsFraction

-- Whatever the model wrote, `nan` and the infinities included, the confidence that
-- `_coerce_confidence` returns is a number from 0.0 to 1.0, if it returns one.
pub coerce_confidence-IsFraction :
    (py : Python) (v : Option Json) (x : Float) → coerce_confidence py v ≡ some x → IsFraction x
coerce_confidence-IsFraction py v x e = subst AsFraction e (coerce_confidence-AsFraction py v)
