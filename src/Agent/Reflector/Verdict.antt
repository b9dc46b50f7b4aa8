-- ===== src/Agent/Reflector/Verdict.antt =====
-- `_parse_reflection`, `_coerce` and `_coerce_confidence` of backend/atlas/agent/reflector.py.
pub mod Range
use atlas_the_agent.Base.{
  ℕ, ◌^◌, ◌*◌, Option, none, some, [], ◌∷◌, ◌++◌, Text, codes, strip, rstrip, length, take, eqb,
  ltb, if◌then◌else◌,
}
use atlas_the_agent.Core.Json.{pos, Float, finite, ltb_float, Json, int, float, str, Fields, get}
use atlas_the_agent.Core.Python.{Python}
use atlas_the_agent.Agent.Schemas.{
  ReflectionDecision, accept, retry, replan, abort, llm, ReflectionResult,
}
use atlas_the_agent.Agent.Prompts.{reflection_prompt_version}
use atlas_the_agent.Agent.Jsonio.{Parsed, parsed, rejected, uncaught, load_object}

-- The doubles 0.0, 1.0, 0.5 and 0.9: 1.0 is 2^1074 units, and 0.9 is stored with 53 bits.
abbrev pub zero_float : Float
zero_float = finite (pos 0)

pub one_units : ℕ
one_units = 2 ^ 1074

pub one_float : Float
unfolding one_units
one_float = finite (pos one_units)

pub half_float : Float
half_float = finite (pos (2 ^ 1073))

pub nine_tenths : Float
nine_tenths = finite (pos (8106479329266893 * 2 ^ 1021))

abbrev pub max_reason_chars : ℕ
max_reason_chars = 300

-- `max(0.0, min(1.0, num))`; Python's `min` and `max` keep the first argument unless the second
-- is strictly smaller or greater.
unfoldable pub clamp : Float → Float
clamp num =
    let low = (if ltb_float num one_float then num else one_float) in
    if ltb_float zero_float low then low else zero_float

abbrev pub clamp_or_default : Option Float → Float
clamp_or_default none = half_float
clamp_or_default (some x) = clamp x

abbrev pub clamp_some : Option Float → Option Float
clamp_some none = none
clamp_some (some x) = some (clamp x)

-- `_coerce_confidence`; `none` is the `OverflowError` of `float(value)`, which it does not catch.
unfoldable pub coerce_confidence : Python → Option Json → Option Float
unfolding clamp
coerce_confidence py none = some half_float
coerce_confidence py (some (int z)) = clamp_some (py.float_of_int z)
coerce_confidence py (some (float x)) = some (clamp x)
coerce_confidence py (some (str s)) = some (clamp_or_default (py.float_of_text (strip s)))
coerce_confidence py (some _) = some half_float

abbrev decision_of : Text → Option ReflectionDecision
decision_of s =
    if eqb s (codes "accept")
    then some accept
    else if eqb s (codes "retry")
    then some retry
    else if eqb s (codes "replan")
    then some replan
    else if eqb s (codes "abort")
    then some abort
    else none

-- `reason.strip()` cut to 300 characters and an ellipsis.
unfoldable pub shorten : Text → Text
shorten reason =
    if ltb max_reason_chars (length reason)
    then rstrip (take max_reason_chars reason) ++ (0x2026 ∷ [])
    else reason

abbrev reason_of : Option Json → Text
reason_of (some (str s)) = shorten (strip s)
reason_of _ = []

-- `_coerce` behind a decision that is a string; `lower` is `str.lower`.
unfoldable pub coerce : Python → Fields → Parsed ReflectionResult
unfolding coerce_confidence shorten
coerce py fs = elim (get fs "decision") [
  | some (str raw) ↦ elim (decision_of (py.lower (strip raw))) [
    | some decision ↦ elim (coerce_confidence py (get fs "confidence")) [
      | some confidence ↦ parsed (record {
        decision = decision;
        reason = reason_of (get fs "reason");
        confidence = confidence;
        source = llm;
        reflection_version = reflection_prompt_version;
      })
      | none ↦ uncaught (codes "int too large to convert to float")
    ]
    | none ↦ rejected (
        codes "Unknown decision "
        ++ (py.repr raw ++ codes "; expected one of accept/retry/replan/abort."))
  ]
  | _ ↦ rejected (codes "Missing or non-string 'decision'.")
]

unfoldable pub parse_reflection : Python → Text → Parsed ReflectionResult
unfolding coerce load_object
parse_reflection py raw =
    elim (load_object py (codes "Top-level JSON value must be an object.") raw) [
      | parsed fs ↦ coerce py fs
      | rejected error ↦ rejected error
      | uncaught e ↦ uncaught e
    ]
