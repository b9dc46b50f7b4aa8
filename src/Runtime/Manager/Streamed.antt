-- ===== src/Runtime/Manager/Streamed.antt =====
-- The answer as the client sees it grow: the tokens that `_stream_answer` emits.
use atlas_the_agent.Base.{
  ◌+◌, subst, ℕ, ◌≡◌, refl, sym, ap, ◌∙◌, Bool, true, false, Bool-cases, inl, inr, Option, some,
  List, [], ◌∷◌, ◌++◌, append_nil, append_assoc, Text, ◌==◌, arith,
}
use atlas_the_agent.Core.Json.{Json, str, end, field, get}
use atlas_the_agent.Core.Settings.{Settings}
use atlas_the_agent.Events.Types
use atlas_the_agent.Events.Types.{Event}
use atlas_the_agent.Recovery.Replay.{concat}
use atlas_the_agent.Runtime.Manager.Execute.{
  onto_first, split_words, chunk, stream_words, stream_answer,
}
use atlas_the_agent.Memory.{MemoryService}
use atlas_the_agent.Process.{emit, tick, is_set, Env, World, Result, ok, emit_to}

-- The texts of the chunks, one behind the other.
abbrev chunks : Bool → List Text → Text
chunks first [] = []
chunks first (word ∷ words) = chunk first word ++ chunks false words

chunks-onto_first :
    (c : ℕ) (words : List Text) → chunks true (onto_first c words) ≡ c ∷ chunks true words
chunks-onto_first c [] = refl
chunks-onto_first c (w ∷ ws) = refl

-- A split has a first word.
record Splits (s : Text) : Type 0 where
  word : Text
  words : List Text
  split : split_words s ≡ word ∷ words

split_words-Splits : (s : Text) → Splits s
unfolding split_words
split_words-Splits [] = record { word = []; words = []; split = refl }
split_words-Splits (c ∷ s) = elim (Bool-cases (c == b' ')) [
  | inl e ↦ record { word = []; words = split_words s; split = rw e refl }
  | inr e ↦
      let k = split_words-Splits s in
      record { word = c ∷ k.word; words = k.words; split = rw e (ap (onto_first c) k.split) }
]

-- The chunks of a text are the text.
chunks-split_words : (s : Text) → chunks true (split_words s) ≡ s
unfolding split_words
chunks-split_words [] = refl
chunks-split_words (c ∷ s) = elim (Bool-cases (c == b' ')) [
  | inl e ↦
      rw e (spaced (split_words-Splits s) (chunks-split_words s) ∙ ap (λ d. d ∷ s) (sym (space e)))
  | inr e ↦ rw e (chunks-onto_first c (split_words s) ∙ ap (λ t. c ∷ t) (chunks-split_words s))
]
  where
    space : (c == b' ') ≡ true → c ≡ b' '
    space e = ground (arith, e)

    spaced : Splits s → chunks true (split_words s) ≡ s → chunks false (split_words s) ≡ b' ' ∷ s
    spaced k e = ap (chunks false) k.split ∙ ap (λ t. b' ' ∷ t) (sym (ap (chunks true) k.split) ∙ e)

-- The text of an `answer.token` event.
abbrev token_of : Option Json → Text
token_of (some (str t)) = t
token_of _ = []

abbrev pub tokens : List Event → List Text
tokens [] = []
tokens (e ∷ es) = token_of (get e.payload "text") ∷ tokens es

-- Every event is a token of the run's answer.
abbrev pub AreTokens : ℕ → List Event → Type 0
AreTokens r [] = Unit
AreTokens r (e ∷ es) = ((e.run_id ≡ r) × (e.type ≡ Types.answer_token)) × AreTokens r es

-- What a stream of the words leaves: whether it was stopped, and the events that it has appended.
pub record Streams (r : ℕ) (text : Text) (w : World) (x : Result Bool × World) : Type 0 where
  pub stopped : Bool
  pub new : List Event
  pub returned : x.0 ≡ ok stopped
  pub appended : x.1.db.events ≡ w.db.events ++ new
  pub are_tokens : AreTokens r new
  pub whole : stopped ≡ false → concat (tokens new) ≡ text

module _ (env : Env) (settings : Settings) (memory : MemoryService) (r : ℕ) (goal : Text) where
  -- The state behind a token.
  abbrev told : Bool → Text → World → World
  told first word w = record w {
    clock = w.clock + 1;
    db = (emit_to r Types.answer_token (field "text" (str (chunk first word)) end) w.db).1;
  }

  stream_words_stopped :
      (first : Bool) (word : Text) (words : List Text) (w : World)
      → env.is_cancelled w.clock ≡ true
      → stream_words env settings memory r goal first (word ∷ words) w
        ≡ (ok true, record w { clock = w.clock + 1 })
  unfolding stream_words is_set tick emit
  stream_words_stopped first word words w e = rw e refl

  stream_words-told :
      (first : Bool) (word : Text) (words : List Text) (w : World)
      → env.is_cancelled w.clock ≡ false
      → stream_words env settings memory r goal first (word ∷ words) w
        ≡ stream_words env settings memory r goal false words (told first word w)
  unfolding stream_words is_set tick emit
  stream_words-told first word words w e = rw e refl

  told-Streams :
      (first : Bool) (word text : Text) (w : World) (x : Result Bool × World)
      → Streams r text (told first word w) x
      → Streams r (chunk first word ++ text) w x
  unfolding emit_to concat
  told-Streams first word text w x k = record {
    stopped = k.stopped;
    new = (emit_to r Types.answer_token (field "text" (str (chunk first word)) end) w.db).0 ∷ k.new;
    returned = k.returned;
    appended = k.appended ∙ append_assoc w.db.events _ k.new;
    are_tokens = ((refl, refl), k.are_tokens);
    whole = λ e. ap (λ t. chunk first word ++ t) (k.whole e);
  }

  stream_words-Streams :
      (first : Bool) (words : List Text) (w : World)
      → Streams r (chunks first words) w (stream_words env settings memory r goal first words w)
  unfolding stream_words concat
  stream_words-Streams first [] w = record {
    stopped = false;
    new = [];
    returned = refl;
    appended = sym (append_nil w.db.events);
    are_tokens = tt;
    whole = λ e. refl;
  }
  stream_words-Streams first (word ∷ words) w = elim (Bool-cases (env.is_cancelled w.clock)) [
    | inl e ↦
        subst (Streams r (chunks first (word ∷ words)) w)
          (sym (stream_words_stopped first word words w e))
          (record {
            stopped = true;
            new = [];
            returned = refl;
            appended = sym (append_nil w.db.events);
            are_tokens = tt;
            whole = λ f. ground (arith, f);
          })
    | inr e ↦
        subst (Streams r (chunks first (word ∷ words)) w)
          (sym (stream_words-told first word words w e))
          (told-Streams first word (chunks false words) w _
            (stream_words-Streams false words (told first word w)))
  ]

  -- The answer as it is streamed is the answer: `_stream_answer` raises nothing, appends to the ledger
  -- only answer tokens of the run, and, if no cancellation stops it, the texts of these tokens, one
  -- behind the other as the replay joins them, are the text of the answer.
  pub stream_answer-Streams :
      (text : Text) (w : World) → Streams r text w (stream_answer env settings memory r goal text w)
  unfolding stream_answer
  stream_answer-Streams text w =
      subst (λ t. Streams r t w (stream_words env settings memory r goal true (split_words text) w))
        (chunks-split_words text) (stream_words-Streams true (split_words text) w)
