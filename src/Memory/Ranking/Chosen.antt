-- ===== src/Memory/Ranking/Chosen.antt =====
-- What the loop of `select_within_budget` knows of a lesson that it picks.
use atlas_the_agent.Base.{
  ℕ, ◌-◌, ◌<◌, ◌≡◌, refl, min, Bool, true, false, Bool-cases, inl, inr, ◌||◌, not, List, [], ◌∷◌,
  Text, any, length, leb, is_empty, arith,
}
use atlas_the_agent.Core.Json.{Float, leb_float}
use atlas_the_agent.Core.Arithmetic.{Arithmetic}
use atlas_the_agent.Core.Python.{Python}
use atlas_the_agent.Memory.Schemas.{RecalledMemory}
use atlas_the_agent.Memory.Tokens.{tokens}
use atlas_the_agent.Memory.Ranking.{
  ScoredMemory, lesson_of, truncate_lesson, is_redundant, Picked, Choice, stop, skip, pick, choose,
  after_pick, select_from, per_item,
}

module _ (py : Python) (ar : Arithmetic) (k char_budget : ℕ) (min_score : Float) where
  -- `cand.memory.pinned or cand.relevance >= min_score`
  abbrev pub passes : ScoredMemory → Bool
  passes c = c.memory.pinned || leb_float min_score c.relevance

  abbrev pub recalled : ScoredMemory → Text → RecalledMemory
  recalled c lesson = record { memory = c.memory; score = c.total; lesson = lesson }

  pub record IsPick (st : Picked) (c : ScoredMemory) (lesson : Text) (ts : List Text) : Type 0 where
    pub free : length st.picked_tokens < k
    pub within : st.used < char_budget
    pub passed : passes c ≡ true
    pub filled : is_empty (lesson_of c.memory) ≡ false
    pub cut :
        lesson
        ≡ truncate_lesson
            (lesson_of c.memory)
            (min (per_item py ar k char_budget min_score) (char_budget - st.used))
    pub its_tokens : ts ≡ tokens py (lesson_of c.memory)
    pub fresh : any (λ prior. is_redundant py ar ts prior) st.picked_tokens ≡ false

  abbrev IsSound : Picked → ScoredMemory → Choice → Type 0
  IsSound st c stop = Unit
  IsSound st c skip = Unit
  IsSound st c (pick lesson ts) = IsPick st c lesson ts

  abbrev run : Picked → ScoredMemory → Choice
  run st c = choose py ar k char_budget min_score st c

  choose-IsSound : (st : Picked) (c : ScoredMemory) → IsSound st c (run st c)
  unfolding choose
  choose-IsSound st c =
      let lesson = lesson_of c.memory in
      elim (Bool-cases (leb k (length st.picked_tokens))) [
        | inl e ↦ rw e tt
        | inr free ↦ elim (Bool-cases (not (passes c) || is_empty lesson)) [
          | inl e ↦ rw free (rw e tt)
          | inr good ↦
              elim (Bool-cases
                (any (λ prior. is_redundant py ar (tokens py lesson) prior) st.picked_tokens)) [
                  | inl e ↦ rw free (rw good (rw e tt))
                  | inr fresh ↦ elim (Bool-cases (leb char_budget st.used)) [
                    | inl e ↦ rw free (rw good (rw fresh (rw e tt)))
                    | inr room ↦ rw free (
                        rw good (
                          rw fresh (
                            rw room (record {
                              free = ground (arith, free);
                              within = ground (arith, room);
                              passed = ground (arith, good);
                              filled = ground (arith, good);
                              cut = refl;
                              its_tokens = refl;
                              fresh = fresh;
                            }))))
                  ]
                ]
        ]
      ]

  -- To show a property of what the loop returns, show that it bears each lesson picked.
  module _ (P : Picked → List RecalledMemory → Type 0) (nothing : (st : Picked) → P st [])
      (picks : (st : Picked) (c : ScoredMemory) (lesson : Text) (ts : List Text)
          (later : List RecalledMemory)
        → IsPick st c lesson ts
        → P (after_pick st lesson ts) later
        → P st (recalled c lesson ∷ later)) where
    one :
        (st : Picked) (c : ScoredMemory) (cs : List ScoredMemory) (choice : Choice)
        → IsSound st c choice
        → ((st : Picked) → P st (select_from py ar k char_budget min_score st cs))
        → P st (elim choice [
          | stop ↦ []
          | skip ↦ select_from py ar k char_budget min_score st cs
          | pick lesson ts ↦
              (record { memory = c.memory; score = c.total; lesson = lesson })
              ∷ select_from py ar k char_budget min_score (after_pick st lesson ts) cs
        ])
    one st c cs stop s ih = nothing st
    one st c cs skip s ih = ih st
    one st c cs (pick lesson ts) s ih = picks st c lesson ts _ s (ih (after_pick st lesson ts))

    pub select_from-bears :
        (cs : List ScoredMemory) (st : Picked)
        → P st (select_from py ar k char_budget min_score st cs)
    unfolding select_from
    select_from-bears [] st = nothing st
    select_from-bears (c ∷ cs) st =
        one st c cs (run st c) (choose-IsSound st c) (select_from-bears cs)
