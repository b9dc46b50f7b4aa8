-- ===== src/Agent/Reflector/Gate.antt =====
-- What the confidence gate lets through.
use atlas_the_agent.Base.{◌≡◌, refl, true, false, ◌⊎◌, inl, inr, Bool-cases}
use atlas_the_agent.Core.Json.{Float, ltb_float}
use atlas_the_agent.Agent.Schemas.{ReflectionResult, accept}
use atlas_the_agent.Agent.Reflector.{apply_confidence_gate, is_degradable}
use atlas_the_agent.Agent.Reflector.Verdict.{zero_float}

-- The gate leaves a verdict as it is where the floor is not above 0.0, where the verdict is no retry
-- and no replan, or where its confidence is not below the floor; and otherwise, and only then, it
-- accepts, with the confidence, the source and the version of the verdict. What it has let through
-- it lets through again.
pub apply_confidence_gate_lem :
    (floor : Float) (r : ReflectionResult)
    → let out = apply_confidence_gate floor r in
      (((ltb_float zero_float floor ≡ false)
            ⊎ ((is_degradable r.decision ≡ false) ⊎ (ltb_float r.confidence floor ≡ false)))
          × (out ≡ r)
        ⊎ ((ltb_float zero_float floor ≡ true)
            × (is_degradable r.decision ≡ true)
            × (ltb_float r.confidence floor ≡ true)
            × (out.decision ≡ accept)
            × (out.confidence ≡ r.confidence)
            × (out.source ≡ r.source)
            × (out.reflection_version ≡ r.reflection_version)))
      × (apply_confidence_gate floor out ≡ out)
unfolding apply_confidence_gate
apply_confidence_gate_lem floor r = elim (Bool-cases (ltb_float zero_float floor)) [
  | inl set ↦ elim (Bool-cases (is_degradable r.decision)) [
    | inl d ↦ elim (Bool-cases (ltb_float r.confidence floor)) [
      | inl low ↦ rw (set, d, low) (inr (refl, refl, refl, refl, refl, refl, refl), refl)
      | inr high ↦ rw (set, d, high) (inl (inr (inr refl), refl), rw (d, high) refl)
    ]
    | inr keep ↦ rw (set, keep) (inl (inr (inl refl), refl), rw keep refl)
  ]
  | inr unset ↦ rw unset (inl (inl refl, refl), refl)
]
