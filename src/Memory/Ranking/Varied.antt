-- ===== src/Memory/Ranking/Varied.antt =====
-- Recall repeats no lesson, and looks at no memory that the relevance gate keeps out.
use atlas_the_agent.Base.{
  ℕ, ◌≡◌, sym, Bool, false, Bool-cases, inl, inr, ◌||◌, List, [], ◌∷◌, ◌++◌, All, All-mono, Text,
  any, ◌==◌, arith,
}
use atlas_the_agent.Core.Json.{Float}
use atlas_the_agent.Core.Arithmetic.{Arithmetic}
use atlas_the_agent.Core.Python.{Python}
use atlas_the_agent.Memory.Schemas.{RecalledMemory}
use atlas_the_agent.Memory.Tokens.{tokens}
use atlas_the_agent.Memory.Ranking.{
  ScoredMemory, lesson_of, is_redundant, Picked, after_pick, select_within_budget,
}
use atlas_the_agent.Memory.Ranking.Chosen.{IsPick, select_from-bears, recalled}

module _ (py : Python) (ar : Arithmetic) where
  -- The full lesson of `n` has a similarity of 0.8 or more with that of `m`.
  abbrev pub repeats : RecalledMemory → RecalledMemory → Bool
  repeats m n = is_redundant py ar (tokens py (lesson_of n.memory)) (tokens py (lesson_of m.memory))

  -- No lesson repeats one that stands before it.
  abbrev pub IsVaried : List RecalledMemory → Type 0
  IsVaried [] = Unit
  IsVaried (m ∷ ms) = All (λ n. repeats m n ≡ false) ms × IsVaried ms

  any-append :
      (p : List Text → Bool) (xs : List (List Text)) (y : List Text)
      → any p (xs ++ y ∷ []) ≡ (any p xs || p y)
  any-append p [] y = ground arith
  any-append p (x ∷ xs) y = ground (arith, any-append p xs y)

  module _ (k char_budget : ℕ) (min_score : Float) where
    -- Nothing repeats what was picked before.
    abbrev known : Picked → RecalledMemory → Bool
    known st n =
        any (λ prior. is_redundant py ar (tokens py (lesson_of n.memory)) prior) st.picked_tokens

    abbrev IsFresh : Picked → List RecalledMemory → Type 0
    IsFresh st out = All (λ n. known st n ≡ false) out × IsVaried out

    known_before :
        (n : RecalledMemory) (before : List (List Text)) (ts : List Text)
        → any
            (λ prior. is_redundant py ar (tokens py (lesson_of n.memory)) prior)
            (before ++ ts ∷ [])
          ≡ (any (λ prior. is_redundant py ar (tokens py (lesson_of n.memory)) prior) before
              || is_redundant py ar (tokens py (lesson_of n.memory)) ts)
    known_before n before ts =
        any-append (λ prior. is_redundant py ar (tokens py (lesson_of n.memory)) prior) before ts

    picks-IsFresh :
        (st : Picked) (c : ScoredMemory) (lesson : Text) (ts : List Text)
        (later : List RecalledMemory)
        → IsPick py ar k char_budget min_score st c lesson ts
        → IsFresh (after_pick st lesson ts) later
        → IsFresh st (recalled py ar k char_budget min_score c lesson ∷ later)
    picks-IsFresh st c lesson ts later p (fresh, varied) = (
      (
        rw (sym p.its_tokens) p.fresh,
        All-mono _ _ later (λ n h. ground (arith, h, known_before n st.picked_tokens ts)) fresh,
      ),
      (
        All-mono _ _ later
            (λ n h. rw (sym p.its_tokens) (ground (arith, h, known_before n st.picked_tokens ts)))
            fresh,
        varied,
      ),
    )

    -- No lesson that is selected repeats another: its full text has a similarity below 0.8 with the
    -- full text of each one selected before it.
    pub select_within_budget-IsVaried :
        (scored : List ScoredMemory)
        → IsVaried (select_within_budget py ar k char_budget min_score scored)
    unfolding select_within_budget
    select_within_budget-IsVaried scored = elim (Bool-cases (k == 0 || char_budget == 0)) [
      | inl e ↦ rw e tt
      | inr e ↦
          rw e
            (select_from-bears py ar k char_budget min_score IsFresh (λ st. (tt, tt)) picks-IsFresh
              scored (record { picked_tokens = []; used = 0 })).1
    ]
