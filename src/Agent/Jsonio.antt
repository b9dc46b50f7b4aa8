-- ===== src/Agent/Jsonio.antt =====
-- backend/atlas/agent/jsonio.py, and the steps that the three parsers of model output begin with.
pub mod Balanced
use atlas_the_agent.Base.{
  ℕ, zero, suc, ◌+◌, ◌-◌, Bool, true, false, not, ◌&&◌, Option, none, some, [], ◌∷◌, ◌++◌, Text,
  codes, lstrip, starts_with, ◌==◌, if◌then◌else◌,
}
use atlas_the_agent.Core.Json.{Json, Fields, obj}
use atlas_the_agent.Core.Python.{Python, value, malformed, raised}

-- What stands behind `n` characters.
abbrev pub behind : ℕ → Text → Text
behind zero s = s
behind (suc n) [] = []
behind (suc n) (c ∷ s) = behind n s

abbrev fence : Text
fence = codes "```"

-- `.*?\})\s*```` from behind the opening brace: up to the first `}` that a fence follows.
unfoldable pub close_fenced : Text → Option Text
close_fenced [] = none
close_fenced (c ∷ s) =
    if c == b'}' && starts_with (lstrip s) fence
    then some (c ∷ [])
    else (elim (close_fenced s) [ none ↦ none | some body ↦ some (c ∷ body) ])

unfoldable pub open_fenced : Text → Option Text
unfolding close_fenced
open_fenced [] = none
open_fenced (c ∷ s) =
    if c == b'{'
    then (elim (close_fenced s) [ none ↦ none | some body ↦ some (c ∷ body) ])
    else none

-- `_FENCE_RE` matched at the beginning of the text: group 1.
unfoldable pub fenced_at : Text → Option Text
unfolding open_fenced
fenced_at s =
    if starts_with s fence
    then (let rest = behind 3 s in
        open_fenced (lstrip (if starts_with rest (codes "json") then behind 4 rest else rest)))
    else none

-- `_FENCE_RE.search`: the leftmost match.
unfoldable pub search_fenced : Text → Option Text
unfolding fenced_at
search_fenced [] = none
search_fenced (c ∷ s) =
    let later = search_fenced s in elim (fenced_at (c ∷ s)) [ some g ↦ some g | none ↦ later ]

abbrev pub cons_some : ℕ → Option Text → Option Text
cons_some c none = none
cons_some c (some t) = some (c ∷ t)

-- The loop of `first_balanced_object` from one character on: the text up to the brace that brings
-- the depth back to 0. Outside a string `escaped` is always `False`.
unfoldable pub balance : ℕ → Bool → Bool → Text → Option Text
balance depth in_str escaped [] = none
balance depth true true (c ∷ s) = cons_some c (balance depth true false s)
balance depth true false (c ∷ s) = cons_some c (balance depth (not (c == b'"')) (c == b'\\') s)
balance depth false escaped (c ∷ s) =
    let depth' = (if c == b'{' then depth + 1 else if c == b'}' then depth - 1 else depth) in
    let rest = balance depth' (c == b'"') false s in
    if c == b'}' && depth' == 0 then some (c ∷ []) else cons_some c rest

-- `text.find("{")`, and the loop from there.
unfoldable pub first_balanced_object : Text → Option Text
unfolding balance
first_balanced_object [] = none
first_balanced_object (c ∷ s) =
    let later = first_balanced_object s in
    if c == b'{' then balance 0 false false (c ∷ s) else later

unfoldable pub extract_json : Text → Option Text
unfolding search_fenced first_balanced_object
extract_json s = elim (search_fenced s) [ some g ↦ some g | none ↦ first_balanced_object s ]

-- A parse of model output: a value, an error for the repair prompt, or an exception that is not
-- caught.
pub data Parsed (A : Type 0) : Type 0 where
  parsed : A → Parsed A
  rejected : Text → Parsed A
  uncaught : Text → Parsed A

-- `isinstance(data, dict)`
abbrev pub expect_object : Text → Json → Parsed Fields
expect_object not_object (obj fs) = parsed fs
expect_object not_object _ = rejected not_object

-- The common beginning of `_parse_plan`, `_parse_reflection` and `parse_action`.
unfoldable pub load_object : Python → Text → Text → Parsed Fields
load_object py not_object raw = elim (extract_json raw) [
  | none ↦ rejected (codes "No JSON object found in the response.")
  | some blob ↦ elim (py.loads blob) [
    | value j ↦ expect_object not_object j
    | malformed m ↦ rejected (codes "Malformed JSON: " ++ (m ++ codes "."))
    | raised e ↦ uncaught e
  ]
]
