-- ===== src/Obs/Histograms.antt =====
-- `Histogram` of backend/atlas/obs/metrics.py.
pub mod Buckets
pub mod Observed
use atlas_the_agent.Base.{
  ℕ, ◌+◌, Bool, true, false, Option, none, some, List, [], ◌∷◌, ◌++◌, map, Text, codes, length,
  if◌then◌else◌, on_option, is_empty,
}
use atlas_the_agent.Core.Json.{Float, ltb_float, leb_float}
use atlas_the_agent.Core.Arithmetic.{Arithmetic}
use atlas_the_agent.Core.Python.{Python}
use atlas_the_agent.Obs.Labels.{
  Outcome, done, index_error, Labelled, Labels, Key, key_of, labelstr, bucket_labelstr, fmt,
}
use atlas_the_agent.Obs.Counters.{and_then, find_key, put_key, sort_items, zero, Values}

-- `tuple(sorted(buckets))`
unfoldable pub insert_bucket : Float → List Float → List Float
insert_bucket x [] = x ∷ []
insert_bucket x (y ∷ ys) =
    let later = insert_bucket x ys in if ltb_float y x then y ∷ later else x ∷ y ∷ ys

unfoldable pub sort_buckets : List Float → List Float
unfolding insert_bucket
sort_buckets [] = []
sort_buckets (x ∷ xs) = insert_bucket x (sort_buckets xs)

-- `_counts` and `_sums`, and the buckets.
pub record Histogram : Type 0 where
  pub base : Labelled
  pub buckets : List Float
  pub counts : List (Key × List ℕ)
  pub sums : Values

-- `[0] * (len(self.buckets) + 1)`
abbrev pub zeros : List Float → List ℕ
zeros [] = 0 ∷ []
zeros (u ∷ us) = 0 ∷ zeros us

-- `Histogram.__init__`
unfoldable pub new_histogram : Labelled → List Float → Histogram
unfolding sort_buckets
new_histogram base buckets = record {
  base = base;
  buckets = sort_buckets buckets;
  counts = if is_empty base.labelnames then ([], zeros (sort_buckets buckets)) ∷ [] else [];
  sums = if is_empty base.labelnames then ([], zero) ∷ [] else [];
}

abbrev bump_last : List ℕ → List ℕ
bump_last [] = []
bump_last (c ∷ []) = (c + 1) ∷ []
bump_last (c ∷ (d ∷ cs)) = c ∷ bump_last (d ∷ cs)

-- The loop of `observe`: the first bucket that holds the value, or the last slot.
unfoldable pub place : Float → List Float → List ℕ → List ℕ
place value [] counts = bump_last counts
place value (u ∷ us) [] = []
place value (u ∷ us) (c ∷ cs) =
    let later = place value us cs in if leb_float value u then (c + 1) ∷ cs else c ∷ later

abbrev pub or_zeros : List Float → Option (List ℕ) → List ℕ
or_zeros buckets counts = on_option (zeros buckets) (λ c. c) counts

module _ (py : Python) (ar : Arithmetic) where
  -- `Histogram.observe` under a key
  unfoldable pub observe_at : Float → Key → Histogram → Histogram
  unfolding place find_key put_key
  observe_at value key h = record h {
    counts =
        put_key key (place value h.buckets (or_zeros h.buckets (find_key key h.counts))) h.counts;
    sums = put_key key (ar.plus (on_option zero (λ v. v) (find_key key h.sums)) value) h.sums;
  }

  -- `Histogram.observe`
  unfoldable pub observe : Float → Labels → Histogram → Outcome Histogram
  unfolding key_of observe_at
  observe value labels h = and_then (λ key. done (observe_at value key h)) (key_of h.base labels)

  -- `f"{self.name}_bucket{labels} {cumulative}"`
  abbrev pub bucket_line : Labelled → Key → Text → ℕ → Text
  bucket_line base key le cumulative =
      base.name
      ++ (codes "_bucket" ++ (bucket_labelstr base key le ++ (codes " " ++ py.show cumulative)))

  -- The lines behind the buckets.
  abbrev pub last_lines : Labelled → Key → Float → ℕ → Outcome (List Text)
  last_lines base key sum cumulative =
      and_then
        (λ total. done (
          bucket_line base key (codes "+Inf") cumulative
          ∷ (base.name ++ (codes "_sum" ++ (labelstr base key ++ (codes " " ++ total))))
          ∷ (base.name
              ++ (codes "_count" ++ (labelstr base key ++ (codes " " ++ py.show cumulative))))
          ∷ []))
        (fmt py ar sum)

  abbrev last_of : List ℕ → ℕ
  last_of [] = 0
  last_of (c ∷ []) = c
  last_of (c ∷ (d ∷ cs)) = last_of (d ∷ cs)

  -- The loop over the buckets, `cumulative` before it, and the lines behind it.
  unfoldable pub key_lines : Labelled → Key → Float → ℕ → List Float → List ℕ → Outcome (List Text)
  unfolding labelstr bucket_labelstr fmt
  key_lines base key sum cumulative [] counts =
      last_lines base key sum (cumulative + last_of counts)
  key_lines base key sum cumulative (u ∷ us) [] = index_error
  key_lines base key sum cumulative (u ∷ us) (c ∷ cs) =
      let rest = key_lines base key sum (cumulative + c) us cs in
      and_then
        (λ le. and_then (λ lines. done (bucket_line base key le (cumulative + c) ∷ lines)) rest)
        (fmt py ar u)

  unfoldable pub all_lines : Histogram → List (Key × List ℕ) → Outcome (List Text)
  unfolding key_lines find_key
  all_lines h [] = done []
  all_lines h ((key, counts) ∷ items) =
      let rest = all_lines h items in
      and_then (λ lines. and_then (λ more. done (lines ++ more)) rest)
        (key_lines h.base key (on_option zero (λ v. v) (find_key key h.sums)) 0 h.buckets counts)

  -- `Histogram.collect_lines`
  unfoldable pub collect_histogram : Histogram → Outcome (List Text)
  unfolding all_lines sort_items
  collect_histogram h = all_lines h (sort_items h.counts)
