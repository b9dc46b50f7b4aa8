-- ===== src/Memory/Ranking/Gated.antt =====
-- The relevance gate decides before everything else.
use atlas_the_agent.Base.{
  ℕ, ◌≡◌, refl, ap, sym, ◌∙◌, Bool, true, false, Bool-cases, inl, inr, ◌||◌, List, [], ◌∷◌, length,
  filter, leb, ◌==◌,
}
use atlas_the_agent.Core.Json.{Float, leb_float}
use atlas_the_agent.Core.Arithmetic.{Arithmetic}
use atlas_the_agent.Core.Python.{Python}
use atlas_the_agent.Memory.Schemas.{RecalledMemory}
use atlas_the_agent.Memory.Ranking.{
  ScoredMemory, Picked, Choice, stop, skip, pick, choose, after_pick, select_from,
  select_within_budget,
}
use atlas_the_agent.Memory.Ranking.Chosen.{passes}

module _ (py : Python) (ar : Arithmetic) (k char_budget : ℕ) (min_score : Float) where
  abbrev gate : ScoredMemory → Bool
  gate = passes py ar k char_budget min_score

  abbrev select : Picked → List ScoredMemory → List RecalledMemory
  select st cs = select_from py ar k char_budget min_score st cs

  choose-full :
      (st : Picked) (c : ScoredMemory)
      → leb k (length st.picked_tokens) ≡ true
      → choose py ar k char_budget min_score st c ≡ stop
  unfolding choose
  choose-full st c e = rw e refl

  choose-gated :
      (st : Picked) (c : ScoredMemory)
      → leb k (length st.picked_tokens) ≡ false
      → gate c ≡ false
      → choose py ar k char_budget min_score st c ≡ skip
  unfolding choose
  choose-gated st c full e = rw full (rw e refl)

  -- One round of the loop.
  abbrev after : Picked → ScoredMemory → List ScoredMemory → Choice → List RecalledMemory
  after st c cs stop = []
  after st c cs skip = select st cs
  after st c cs (pick lesson ts) =
      (record { memory = c.memory; score = c.total; lesson = lesson })
      ∷ select (after_pick st lesson ts) cs

  select-step :
      (st : Picked) (c : ScoredMemory) (cs : List ScoredMemory)
      → select st (c ∷ cs) ≡ after st c cs (choose py ar k char_budget min_score st c)
  unfolding select_from
  select-step st c cs = refl

  select-full :
      (st : Picked) (cs : List ScoredMemory)
      → leb k (length st.picked_tokens) ≡ true
      → select st cs ≡ []
  unfolding select_from
  select-full st [] e = refl
  select-full st (c ∷ cs) e = select-step st c cs ∙ ap (after st c cs) (choose-full st c e)

  by_choice :
      (c : ScoredMemory) (cs ds : List ScoredMemory) (st : Picked) (choice : Choice)
      → ((st : Picked) → select st cs ≡ select st ds)
      → after st c cs choice ≡ after st c ds choice
  by_choice c cs ds st stop ih = refl
  by_choice c cs ds st skip ih = ih st
  by_choice c cs ds st (pick lesson ts) ih =
      ap (λ later. (record { memory = c.memory; score = c.total; lesson = lesson }) ∷ later)
        (ih (after_pick st lesson ts))

  select-gated :
      (st : Picked) (c : ScoredMemory) (cs : List ScoredMemory)
      → gate c ≡ false
      → select st (c ∷ cs) ≡ select st cs
  select-gated st c cs e = elim (Bool-cases (leb k (length st.picked_tokens))) [
    | inl full ↦ select-full st (c ∷ cs) full ∙ sym (select-full st cs full)
    | inr free ↦ select-step st c cs ∙ ap (after st c cs) (choose-gated st c free e)
  ]

  select-filter : (cs : List ScoredMemory) (st : Picked) → select st cs ≡ select st (filter gate cs)
  unfolding select_from
  select-filter [] st = refl
  select-filter (c ∷ cs) st = elim (Bool-cases (gate c)) [
    | inl e ↦ rw e (
        by_choice c cs (filter gate cs) st (choose py ar k char_budget min_score st c)
          (select-filter cs))
    | inr e ↦ rw e (select-gated st c cs e ∙ select-filter cs st)
  ]

  -- The gate of a recall: what is selected is the same as if the memories that are not pinned and
  -- have a relevance below `min_score` were taken out first.
  pub select_within_budget-filter :
      (scored : List ScoredMemory)
      → select_within_budget py ar k char_budget min_score scored
        ≡ select_within_budget py ar k char_budget min_score
            (filter (λ c. c.memory.pinned || leb_float min_score c.relevance) scored)
  unfolding select_within_budget
  select_within_budget-filter scored = elim (Bool-cases (k == 0 || char_budget == 0)) [
    | inl e ↦ rw e refl
    | inr e ↦ rw e (select-filter scored (record { picked_tokens = []; used = 0 }))
  ]
