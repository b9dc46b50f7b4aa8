-- ===== src/Memory/Ranking.antt =====
-- backend/atlas/memory/ranking.py
pub mod Chosen
pub mod Limits
pub mod Varied
pub mod Gated
use atlas_the_agent.Base.{
  ◌/◌, ℕ, ◌+◌, ◌-◌, max, min, Bool, true, false, ◌&&◌, ◌||◌, not, List, [], ◌∷◌, ◌++◌, map, Text,
  String, any, length, take, leb, ltb, ◌==◌, codes, strip, rstrip, is_empty, ellipsis,
  if◌then◌else◌,
}
use atlas_the_agent.Core.Json.{Float, ltb_float, leb_float}
use atlas_the_agent.Core.Arithmetic.{Arithmetic}
use atlas_the_agent.Core.Python.{Python}
use atlas_the_agent.Memory.Schemas.{
  MemoryOutcome, done, partial, failed, cancelled, MemoryView, RecalledMemory,
}
use atlas_the_agent.Memory.Tokens.{tokens, shared, joined}

pub record ScoredMemory : Type 0 where
  pub memory : MemoryView
  pub relevance : Float
  pub total : Float

-- `_OUTCOME_BIAS`
abbrev outcome_bias : MemoryOutcome → String
outcome_bias done = "1.0"
outcome_bias partial = "0.6"
outcome_bias failed = "0.4"
outcome_bias cancelled = "0.0"

abbrev lesser : Float → Float → Float
lesser a b = if ltb_float b a then b else a

abbrev greater : Float → Float → Float
greater a b = if ltb_float a b then b else a

-- `min(values)` and `max(values)` of `first` and the values behind it.
unfoldable pub least : Float → List Float → Float
least first [] = first
least first (v ∷ vs) = least (lesser first v) vs

unfoldable pub greatest : Float → List Float → Float
greatest first [] = first
greatest first (v ∷ vs) = greatest (greater first v) vs

-- `memory.lessons or memory.summary`
abbrev or_summary : Text → Text → Text
or_summary [] summary = summary
or_summary (c ∷ s) summary = c ∷ s

-- `(cand.memory.lessons or cand.memory.summary).strip()`
abbrev pub lesson_of : MemoryView → Text
lesson_of m = strip (or_summary m.lessons m.summary)

-- `_truncate`; the limit is positive where it is called.
unfoldable pub truncate_lesson : Text → ℕ → Text
truncate_lesson s max_chars =
    if leb (length s) max_chars then s else rstrip (take (max 1 (max_chars - 1)) s) ++ ellipsis

-- The variables of the loop: the sets of tokens picked, and the characters used.
pub record Picked : Type 0 where
  pub picked_tokens : List (List Text)
  pub used : ℕ

-- One round of the loop: `break`, `continue`, or a lesson of the candidate.
pub data Choice : Type 0 where
  stop skip : Choice
  pick : Text → List Text → Choice

abbrev pub after_pick : Picked → Text → List Text → Picked
after_pick st lesson ts = record {
  picked_tokens = st.picked_tokens ++ ts ∷ [];
  used = st.used + length lesson;
}

module _ (py : Python) (ar : Arithmetic) where
  -- `_relevance`
  unfoldable pub relevance : List Text → MemoryView → Float
  unfolding tokens shared
  relevance [] m = ar.literal "0.0"
  relevance (t ∷ ts) m =
      ar.ratio
        (shared (t ∷ ts)
          (tokens py (m.goal ++ (codes " " ++ (m.summary ++ (codes " " ++ m.lessons))))))
        (length (t ∷ ts))

  -- `_minmax`
  unfoldable pub minmax : List Float → List Float
  unfolding least greatest
  minmax [] = []
  minmax (v ∷ vs) =
      let lo = least v vs in
      let span = ar.minus (greatest v vs) lo in
      if ltb_float span (ar.literal "1e-9")
      then map (λ x. ar.literal "1.0") (v ∷ vs)
      else map (λ x. ar.over (ar.minus x lo) span) (v ∷ vs)

  abbrev weighted : String → Float → Float
  weighted w x = ar.times (ar.literal w) x

  -- The score of one candidate, from its relevance and its normalized salience and recency.
  unfoldable pub score_one : MemoryView → Float → Float → Float → ScoredMemory
  score_one m rel sal rec =
      let total =
        ar.plus
          (ar.plus (ar.plus (weighted "0.60" rel) (weighted "0.15" sal)) (weighted "0.15" rec))
          (weighted "0.10" (ar.literal (outcome_bias m.outcome))) in
      record {
        memory = m;
        relevance = rel;
        total = if m.pinned then ar.plus total (ar.literal "1000.0") else total;
      }

  -- `zip(candidates, relevances, sal_norm, rec_norm)`, the relevance of each in its place.
  unfoldable pub score_each :
      List Text → List MemoryView → List Float → List Float → List ScoredMemory
  unfolding relevance score_one
  score_each goal_tokens (m ∷ ms) (sal ∷ sals) (rec ∷ recs) =
      score_one m (relevance goal_tokens m) sal rec ∷ score_each goal_tokens ms sals recs
  score_each goal_tokens _ _ _ = []

  -- The order of the keys `(-total, -created_at, id)`.
  abbrev pub goes_first : ScoredMemory → ScoredMemory → Bool
  goes_first a b =
      if ltb_float b.total a.total
      then true
      else if ltb_float a.total b.total
      then false
      else if a.memory.created_at == b.memory.created_at
      then leb a.memory.id b.memory.id
      else ltb b.memory.created_at a.memory.created_at

  unfoldable pub insert_scored : ScoredMemory → List ScoredMemory → List ScoredMemory
  insert_scored a [] = a ∷ []
  insert_scored a (b ∷ bs) =
      let later = insert_scored a bs in if goes_first a b then a ∷ b ∷ bs else b ∷ later

  unfoldable pub sort_scored : List ScoredMemory → List ScoredMemory
  unfolding insert_scored
  sort_scored [] = []
  sort_scored (a ∷ later) = insert_scored a (sort_scored later)

  unfoldable pub score_candidates : Text → List MemoryView → List ScoredMemory
  unfolding score_each minmax sort_scored tokens
  score_candidates goal candidates = sort_scored (
      score_each (tokens py goal) candidates (minmax (map (λ m. m.salience) candidates))
        (minmax (map (λ m. ar.timestamp m.created_at) candidates)))

  -- `_jaccard(a, b) >= _REDUNDANCY_THRESHOLD`
  abbrev jaccard : List Text → List Text → Float
  jaccard [] b = ar.literal "0.0"
  jaccard (t ∷ a) [] = ar.literal "0.0"
  jaccard (t ∷ a) (u ∷ b) = ar.ratio (shared (t ∷ a) (u ∷ b)) (joined (t ∷ a) (u ∷ b))

  unfoldable pub is_redundant : List Text → List Text → Bool
  unfolding shared joined
  is_redundant a b = leb_float (ar.literal "0.8") (jaccard a b)

  module _ (k char_budget : ℕ) (min_score : Float) where
    abbrev pub per_item : ℕ
    per_item = max (char_budget / k) 160

    unfoldable pub choose : Picked → ScoredMemory → Choice
    unfolding is_redundant tokens truncate_lesson
    choose st cand =
        let lesson = lesson_of cand.memory in
        let ts = tokens py lesson in
        if leb k (length st.picked_tokens)
        then stop
        else if not (cand.memory.pinned || leb_float min_score cand.relevance) || is_empty lesson
        then skip
        else if any (λ prior. is_redundant ts prior) st.picked_tokens
        then skip
        else if leb char_budget st.used
        then stop
        else pick (truncate_lesson lesson (min per_item (char_budget - st.used))) ts

    unfoldable pub select_from : Picked → List ScoredMemory → List RecalledMemory
    unfolding choose
    select_from st [] = []
    select_from st (cand ∷ cands) = elim (choose st cand) [
      | stop ↦ []
      | skip ↦ select_from st cands
      | pick lesson ts ↦
          (record { memory = cand.memory; score = cand.total; lesson = lesson })
          ∷ select_from (after_pick st lesson ts) cands
    ]

    unfoldable pub select_within_budget : List ScoredMemory → List RecalledMemory
    unfolding select_from
    select_within_budget scored =
        if k == 0 || char_budget == 0
        then []
        else select_from (record { picked_tokens = []; used = 0 }) scored
