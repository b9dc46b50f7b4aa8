-- ===== src/Memory/Tokens.antt =====
-- The terms of a text: `_TOKEN_RE.findall(value.lower())` of two characters and more, which
-- backend/atlas/memory/ranking.py collects into a set and `_memory_terms` of
-- backend/atlas/persistence/repositories.py into a list.
use atlas_the_agent.Base.{
  ℕ, Bool, ◌&&◌, ◌||◌, not, List, [], ◌∷◌, Text, ◌++◌, any, filter, length, leb, eqb, if◌then◌else◌,
}
use atlas_the_agent.Core.Python.{Python}

-- `[a-z0-9]`
abbrev pub is_word : ℕ → Bool
is_word c = (leb b'a' c && leb c b'z') || (leb b'0' c && leb c b'9')

abbrev onto_word : ℕ → List Text → List Text
onto_word c [] = (c ∷ []) ∷ []
onto_word c (w ∷ ws) = (c ∷ w) ∷ ws

-- The longest runs of word characters, with empty ones between the others.
unfoldable pub word_runs : Text → List Text
word_runs [] = [] ∷ []
word_runs (c ∷ s) = let rest = word_runs s in if is_word c then onto_word c rest else [] ∷ rest

-- `_memory_terms`
unfoldable pub memory_terms : Python → Text → List Text
unfolding word_runs
memory_terms py s = filter (λ w. leb 2 (length w)) (word_runs (py.lower s))

abbrev pub has_token : List Text → Text → Bool
has_token ts t = any (λ u. eqb u t) ts

-- `dict.fromkeys(terms)` and `set(terms)`: each term once.
unfoldable pub distinct : List Text → List Text
distinct [] = []
distinct (t ∷ ts) = let rest = distinct ts in t ∷ filter (λ u. not (eqb u t)) rest

-- `_tokens`
unfoldable pub tokens : Python → Text → List Text
unfolding memory_terms distinct
tokens py s = distinct (memory_terms py s)

-- `len(a & b)` and `len(a | b)` of sets.
unfoldable pub shared : List Text → List Text → ℕ
shared a b = length (filter (has_token b) a)

unfoldable pub joined : List Text → List Text → ℕ
joined a b = length (distinct (a ++ b))
