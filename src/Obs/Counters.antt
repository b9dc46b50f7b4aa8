-- ===== src/Obs/Counters.antt =====
-- `Counter` and `Gauge` of backend/atlas/obs/metrics.py. A dict is the list of its items.
pub mod Items
use atlas_the_agent.Base.{
  same_texts, ℕ, Bool, true, false, ◌&&◌, ◌||◌, Option, none, some, List, [], ◌∷◌, ◌++◌, map, Text,
  codes, eqb, ltb, ◌==◌, if◌then◌else◌, on_option, is_empty,
}
use atlas_the_agent.Core.Json.{ℤ, pos, negsuc, Float, nan, neg_inf, pos_inf, finite, ltb_float}
use atlas_the_agent.Core.Arithmetic.{Arithmetic}
use atlas_the_agent.Core.Python.{Python}
use atlas_the_agent.Obs.Labels.{
  Outcome, done, value_error, key_error, type_error, index_error, attribute_error, Labelled, Labels,
  Key, key_of, labelstr, fmt,
}

-- `m >>= f`: what raises ends the operation.
abbrev pub and_then : {A B : Type 0} → (A → Outcome B) → Outcome A → Outcome B
and_then f (done a) = f a
and_then f value_error = value_error
and_then f key_error = key_error
and_then f type_error = type_error
and_then f index_error = index_error
and_then f attribute_error = attribute_error

-- `dict.get(key)`, and `dict[key] = v`, which keeps the place of a key that there is.
module _ {A : Type 0} where
  unfoldable pub find_key : Key → List (Key × A) → Option A
  find_key key [] = none
  find_key key ((k, v) ∷ items) = if same_texts k key then some v else find_key key items

  unfoldable pub put_key : Key → A → List (Key × A) → List (Key × A)
  put_key key a [] = (key, a) ∷ []
  put_key key a ((k, v) ∷ items) =
      let later = put_key key a items in if same_texts k key then (k, a) ∷ items else (k, v) ∷ later

-- The order of strings and of tuples of strings.
abbrev pub ltb_text : Text → Text → Bool
ltb_text s [] = false
ltb_text [] (d ∷ t) = true
ltb_text (c ∷ s) (d ∷ t) = ltb c d || (c == d && ltb_text s t)

abbrev pub ltb_key : Key → Key → Bool
ltb_key k [] = false
ltb_key [] (v ∷ l) = true
ltb_key (u ∷ k) (v ∷ l) = ltb_text u v || (eqb u v && ltb_key k l)

-- `sorted(…)` of items with different keys.
module _ {A : Type 0} where
  unfoldable pub insert_item : Key × A → List (Key × A) → List (Key × A)
  insert_item (k, a) [] = (k, a) ∷ []
  insert_item (k, a) ((l, b) ∷ items) =
      let later = insert_item (k, a) items in
      if ltb_key l k then (l, b) ∷ later else (k, a) ∷ (l, b) ∷ items

  unfoldable pub sort_items : List (Key × A) → List (Key × A)
  unfolding insert_item
  sort_items [] = []
  sort_items (x ∷ items) = insert_item x (sort_items items)

abbrev pub zero : Float
zero = finite (pos 0)

-- `_values` of a counter and of a gauge.
abbrev pub Values : Type 0
Values = List (Key × Float)

-- What a new `Counter` or `Gauge` holds.
unfoldable pub new_values : Labelled → Values
new_values base = if is_empty base.labelnames then ([], zero) ∷ [] else []

-- `-x`; zero has no sign here.
abbrev negated : Float → Float
negated nan = nan
negated neg_inf = pos_inf
negated pos_inf = neg_inf
negated (finite (pos ℕ.zero)) = finite (pos 0)
negated (finite (pos (ℕ.suc n))) = finite (negsuc n)
negated (finite (negsuc n)) = finite (pos (ℕ.suc n))

module _ (py : Python) (ar : Arithmetic) where
  -- `self._values.get(key, 0.0) + amount`
  abbrev pub added : Float → Key → Values → Float
  added amount key values = ar.plus (on_option zero (λ v. v) (find_key key values)) amount

  -- `Counter.inc`
  unfoldable pub counter_inc : Float → Labels → Labelled → Values → Outcome Values
  unfolding key_of find_key put_key
  counter_inc amount labels base values =
      if ltb_float amount zero
      then value_error
      else and_then (λ key. done (put_key key (added amount key values) values))
          (key_of base labels)

  -- `Gauge.set`
  unfoldable pub gauge_set : Float → Labels → Labelled → Values → Outcome Values
  unfolding key_of put_key
  gauge_set value labels base values =
      and_then (λ key. done (put_key key value values)) (key_of base labels)

  -- `Gauge.inc`
  unfoldable pub gauge_inc : Float → Labels → Labelled → Values → Outcome Values
  unfolding key_of find_key put_key
  gauge_inc amount labels base values =
      and_then (λ key. done (put_key key (added amount key values) values)) (key_of base labels)

  -- `Gauge.dec`
  unfoldable pub gauge_dec : Float → Labels → Labelled → Values → Outcome Values
  unfolding gauge_inc
  gauge_dec amount labels base values = gauge_inc (negated amount) labels base values

  -- `Counter.value` and `Gauge.value`
  unfoldable pub value_of : Labels → Labelled → Values → Outcome Float
  unfolding key_of find_key
  value_of labels base values =
      and_then (λ key. done (on_option zero (λ v. v) (find_key key values))) (key_of base labels)

  -- `Counter.collect_lines` and `Gauge.collect_lines`
  unfoldable pub value_lines : Labelled → Values → Outcome (List Text)
  unfolding labelstr fmt
  value_lines base [] = done []
  value_lines base ((key, v) ∷ items) =
      let rest = value_lines base items in
      and_then
        (λ shown.
          and_then
            (λ lines. done ((base.name ++ (labelstr base key ++ (codes " " ++ shown))) ∷ lines))
            rest)
        (fmt py ar v)

  unfoldable pub collect_values : Labelled → Values → Outcome (List Text)
  unfolding value_lines sort_items
  collect_values base values = value_lines base (sort_items values)
