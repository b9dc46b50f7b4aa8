-- ===== src/Memory/Ranking/Limits.antt =====
-- Recall stays within its limits.
use atlas_the_agent.Base.{
  ℕ, ◌+◌, ◌-◌, ◌≤◌, ◌<◌, ◌≡◌, max, min, ◌/◌, Bool-cases, inl, inr, false, ◌||◌, List, [], ◌∷◌, All,
  Text, length, take, ◌==◌, is_empty, rstrip, ellipsis, arith, length-append, length-take-le,
  length-rstrip-le,
}
use atlas_the_agent.Core.Json.{Float}
use atlas_the_agent.Core.Arithmetic.{Arithmetic}
use atlas_the_agent.Core.Python.{Python}
use atlas_the_agent.Memory.Schemas.{RecalledMemory}
use atlas_the_agent.Memory.Ranking.{
  ScoredMemory, lesson_of, truncate_lesson, Picked, after_pick, select_from, select_within_budget,
  per_item,
}
use atlas_the_agent.Memory.Ranking.Chosen.{IsPick, select_from-bears, recalled}

-- The characters of the lessons, together.
abbrev pub total_chars : List RecalledMemory → ℕ
total_chars [] = 0
total_chars (m ∷ ms) = length m.lesson + total_chars ms

length-truncate_lesson : (s : Text) (n : ℕ) → 0 < n → length (truncate_lesson s n) ≤ max 2 n
unfolding truncate_lesson
length-truncate_lesson s n pos = ground (
  arith,
  length-append (rstrip (take (max 1 (n - 1)) s)) ellipsis,
  length-rstrip-le (take (max 1 (n - 1)) s),
  length-take-le (max 1 (n - 1)) s,
)

truncate_lesson-filled : (s : Text) (n : ℕ) → is_empty s ≡ false → 0 < length (truncate_lesson s n)
unfolding truncate_lesson
truncate_lesson-filled [] n e = ground (arith, e)
truncate_lesson-filled (c ∷ s) n e =
    ground (arith, length-append (rstrip (take (max 1 (n - 1)) (c ∷ s))) ellipsis)

module _ (py : Python) (ar : Arithmetic) (k char_budget : ℕ) (min_score : Float) where
  abbrev IsWithin : Picked → List RecalledMemory → Type 0
  IsWithin st out =
      (length st.picked_tokens ≤ k → length st.picked_tokens + length out ≤ k)
      × (st.used + total_chars out ≤ max st.used (char_budget + 1))
      × All
          (λ m. (0 < length m.lesson) × (length m.lesson ≤ per_item py ar k char_budget min_score))
          out

  cut_within :
      (l u p : ℕ)
      → u < char_budget
      → 160 ≤ p
      → l ≤ max 2 (min p (char_budget - u))
      → (l ≤ p) × (u + l ≤ char_budget + 1)
  cut_within l u p h q e = (ground arith, ground arith)

  picks-IsWithin :
      (st : Picked) (c : ScoredMemory) (lesson : Text) (ts : List Text)
      (later : List RecalledMemory)
      → IsPick py ar k char_budget min_score st c lesson ts
      → IsWithin (after_pick st lesson ts) later
      → IsWithin st (recalled py ar k char_budget min_score c lesson ∷ later)
  picks-IsWithin st c lesson ts later p (count, chars, each) =
      let item = per_item py ar k char_budget min_score in
      let limit = min item (char_budget - st.used) in
      let short =
        cut_within (length lesson) st.used item p.within (omega arith) (
          rw p.cut
            (length-truncate_lesson (lesson_of c.memory) limit (ground (arith, p.within)))) in
      (
        λ h. ground (arith, p.free, count, length-append st.picked_tokens (ts ∷ [])),
        ground (arith, short.1, chars),
        ((rw p.cut (truncate_lesson-filled (lesson_of c.memory) limit p.filled), short.0), each),
      )

  select_from-IsWithin :
      (cs : List ScoredMemory) (st : Picked)
      → IsWithin st (select_from py ar k char_budget min_score st cs)
  select_from-IsWithin =
      select_from-bears py ar k char_budget min_score IsWithin
        (λ st. (λ h. omega (arith, h), omega arith, tt)) picks-IsWithin

  -- The limits of a recall: at most `k` lessons are selected, none is empty or longer than its share
  -- of the budget or 160 characters, and together they have at most one character more than the
  -- budget.
  pub select_within_budget-IsWithin :
      (scored : List ScoredMemory)
      → let out = select_within_budget py ar k char_budget min_score scored in
        (length out ≤ k)
        × (total_chars out ≤ char_budget + 1)
        × All (λ m. (0 < length m.lesson) × (length m.lesson ≤ max (char_budget / k) 160)) out
  unfolding select_within_budget
  select_within_budget-IsWithin scored = elim (Bool-cases (k == 0 || char_budget == 0)) [
    | inl e ↦ rw e (omega arith, omega arith, tt)
    | inr e ↦
        let h = select_from-IsWithin scored (record { picked_tokens = []; used = 0 }) in
        rw e (omega (arith, h.0 (omega arith)), omega (arith, h.1), h.2)
  ]
