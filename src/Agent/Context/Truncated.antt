-- ===== src/Agent/Context/Truncated.antt =====
-- The length of what `_truncate` leaves.
use atlas_the_agent.Base.{
  leb, refl, inr, inl, Bool-cases, ◌⊎◌, ℕ, ◌-◌, ◌≤◌, ◌<◌, ◌≡◌, [], ◌∷◌, Text, length, length-append,
  length-take-le, take, rstrip, ellipsis, arith,
}
use atlas_the_agent.Agent.Context.{truncate}

length-rstrip-le : (s : Text) → length (rstrip s) ≤ length s
unfolding rstrip
length-rstrip-le [] = omega arith
length-rstrip-le (c ∷ s) = ground (arith, length-rstrip-le s)

-- A text is cut to at most `max_chars` characters, the ellipsis counted, for a positive
-- `max_chars`, and is left as it is unless it has more than these.
pub length-truncate :
    (s : Text) (max_chars : ℕ)
    → 0 < max_chars
    → (length (truncate s max_chars) ≤ max_chars)
      × ((max_chars < length s) ⊎ (truncate s max_chars ≡ s))
unfolding truncate
length-truncate s max_chars h =
    let cut = rstrip (take (max_chars - 1) s) in
    (
      ground (
        arith,
        length-append cut ellipsis,
        length-rstrip-le (take (max_chars - 1) s),
        length-take-le (max_chars - 1) s,
      ),
      elim (Bool-cases (leb (length s) max_chars)) [
        | inl e ↦ inr (rw e refl)
        | inr e ↦ inl (ground (arith, e))
      ],
    )
