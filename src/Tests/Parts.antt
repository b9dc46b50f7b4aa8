-- ===== src/Tests/Parts.antt =====
-- The parts of a run, one by one.
use atlas_the_agent.Agent.Schemas.{ReflectionResult, ReflectionDecision, retry, llm}
use atlas_the_agent.Agent.Reflector.{apply_confidence_gate, is_degradable}
use atlas_the_agent.Agent.Reflector.Verdict.{zero_float}
use atlas_the_agent.Agent.Reflector.Gate.{apply_confidence_gate_lem}
use atlas_the_agent.Agent.Context.{truncate}
use atlas_the_agent.Agent.Context.Truncated.{length-truncate}
use atlas_the_agent.Core.Json.{float, nan, Float, finite, pos, ltb_float}
use atlas_the_agent.Agent.Reflector.Verdict.{clamp, coerce_confidence}
use atlas_the_agent.Agent.Reflector.Verdict.Range.{IsFraction, coerce_confidence-IsFraction}
use atlas_the_agent.Agent.Jsonio.{first_balanced_object}
use atlas_the_agent.Agent.Jsonio.Balanced.{
  Body, quoted, plain, nested, empty, char, escaped, close, print_object,
  first_balanced_object-print_object,
}
use atlas_the_agent.Base.{
  ◌⊎◌, false, ◌++◌, ◌-◌, ◌<◌, ◌≤◌, ◌≡◌, ◌↔◌, refl, true, none, some, List, [], ◌∷◌, length, min,
  All, Text, codes, arith,
}
use atlas_the_agent.Agent.Schemas.{PlannedTask}
use atlas_the_agent.Agent.Planner.Normalize.{
  normalize, IsUsable, length-normalize, normalize-IsUsable,
}
use atlas_the_agent.Runtime.Budget.{
  planner, executor, RunBudget, BudgetExceeded, exceeded, from_settings, charge_model_call,
  charge_tool_call, would_exceed,
}
use atlas_the_agent.Runtime.Budget.Caps.{calls_made, calls_made-eq-min, would_exceed_iff}
use atlas_the_agent.Tests.Fixtures.{settings, python}

-- Of five calls, one was made.
abbrev used : RunBudget
used = record (from_settings settings) { model_calls = 1; planner_calls = 1 }

calls_made-eq-min_example :
    calls_made (planner ∷ executor ∷ []) used ≡ min 2 (used.max_model_calls - used.model_calls)
calls_made-eq-min_example = calls_made-eq-min (planner ∷ executor ∷ []) used

would_exceed_iff_example :
    ((would_exceed "model_calls" used ≡ some true)
      ↔ ((e : BudgetExceeded) × (charge_model_call executor used ≡ exceeded e)))
    × ((would_exceed "tool_calls" used ≡ some true)
        ↔ ((e : BudgetExceeded) × (charge_tool_call used ≡ exceeded e)))
would_exceed_iff_example = would_exceed_iff executor used

-- A task without a description, one with an unknown tool, and one too many.
abbrev planned : List PlannedTask
planned =
    (record { description = codes " "; success_criteria = []; suggested_tool = none })
    ∷ (record {
      description = codes " add ";
      success_criteria = [];
      suggested_tool = some (codes "abacus");
    })
    ∷ (record {
      description = codes "print";
      success_criteria = [];
      suggested_tool = some (codes "calculator");
    })
    ∷ []

abbrev known : List Text
known = codes "calculator" ∷ []

length-normalize_example :
    (0 < length (normalize known 1 (codes "sum") planned))
    × (length (normalize known 1 (codes "sum") planned) ≤ 1)
length-normalize_example = length-normalize known 1 (codes "sum") planned (omega arith)

normalize-IsUsable_example : All (IsUsable known) (normalize known 2 (codes "sum") planned)
normalize-IsUsable_example = normalize-IsUsable known 2 (codes "sum") planned refl

coerced : coerce_confidence python (some (float nan)) ≡ some (clamp nan)
unfolding coerce_confidence
coerced = refl

coerce_confidence-IsFraction_example : IsFraction (clamp nan)
coerce_confidence-IsFraction_example =
    coerce_confidence-IsFraction python (some (float nan)) (clamp nan) coerced

-- The object {"}\"":{}}.
abbrev tricky : Body
tricky = quoted (char b'}' (escaped b'"' close)) (plain b':' (nested empty empty))

first_balanced_object-print_object_example :
    first_balanced_object (codes "ok " ++ print_object tricky (codes "}."))
    ≡ some (print_object tricky [])
first_balanced_object-print_object_example =
    first_balanced_object-print_object (codes "ok ") tricky (codes "}.") (refl, (refl, (refl, tt)))
      ((refl, refl, tt), (refl, refl, refl, (tt, tt)))

length-truncate_example :
    (length (truncate (codes "twelve chars") 5) ≤ 5)
    × ((5 < length (codes "twelve chars"))
        ⊎ (truncate (codes "twelve chars") 5 ≡ codes "twelve chars"))
length-truncate_example = length-truncate (codes "twelve chars") 5 (omega arith)

-- A retry that the model is not sure of, under a floor of one half.
abbrev unsure : ReflectionResult
unsure = record {
  decision = retry;
  reason = codes "weak";
  confidence = finite (pos 1);
  source = llm;
  reflection_version = 1;
}

abbrev floor : Float
floor = finite (pos 2)

apply_confidence_gate_lem_example :
    let out = apply_confidence_gate floor unsure in
    (((ltb_float zero_float floor ≡ false)
          ⊎ ((is_degradable unsure.decision ≡ false) ⊎ (ltb_float unsure.confidence floor ≡ false)))
        × (out ≡ unsure)
      ⊎ ((ltb_float zero_float floor ≡ true)
          × (is_degradable unsure.decision ≡ true)
          × (ltb_float unsure.confidence floor ≡ true)
          × (out.decision ≡ ReflectionDecision.accept)
          × (out.confidence ≡ unsure.confidence)
          × (out.source ≡ unsure.source)
          × (out.reflection_version ≡ unsure.reflection_version)))
    × (apply_confidence_gate floor out ≡ out)
apply_confidence_gate_lem_example = apply_confidence_gate_lem floor unsure
