-- ===== src/Obs/Histograms/Observed.antt =====
-- What a histogram shows of the calls of `observe`.
use atlas_the_agent.Base.{
  ℕ, ◌≡◌, refl, sym, ap, subst, ◌∙◌, false, Bool-cases, inl, inr, some, List, [], ◌∷◌, All,
  same_texts, same_texts→eq, same_texts_refl, if◌then◌else◌, on_option, is_empty, arith,
}
use atlas_the_agent.Core.Json.{Float}
use atlas_the_agent.Core.Arithmetic.{Arithmetic}
use atlas_the_agent.Core.Python.{Python}
use atlas_the_agent.Core.Floats.{IsNumber}
use atlas_the_agent.Obs.Labels.{
  attribute_error, Outcome, done, value_error, key_error, type_error, index_error, Labelled, Labels,
  Key, key_of,
}
use atlas_the_agent.Obs.Counters.{and_then, find_key, put_key, zero}
use atlas_the_agent.Obs.Counters.Items.{find_key-put_key}
use atlas_the_agent.Obs.Histograms.{
  Histogram, new_histogram, sort_buckets, or_zeros, place, observe_at, observe, key_lines,
}
use atlas_the_agent.Obs.Histograms.Buckets.{
  sort_buckets-IsAscending, slots, reference_lines, key_lines-slots_all,
}

-- A call that raises leaves the histogram as it was.
abbrev pub settle : Histogram → Outcome Histogram → Histogram
settle h (done new) = new
settle h value_error = h
settle h key_error = h
settle h type_error = h
settle h index_error = h
settle h attribute_error = h

-- A value under the key of its labels, if that is `key`.
abbrev pub push_under : Key → Float → List Float → Outcome Key → List Float
push_under key v vs (done k) = if same_texts k key then v ∷ vs else vs
push_under key v vs value_error = vs
push_under key v vs key_error = vs
push_under key v vs type_error = vs
push_under key v vs index_error = vs
push_under key v vs attribute_error = vs

-- The values that calls observe under a key, the newest first.
abbrev pub values_under : Labelled → Key → List (Labels × Float) → List Float
values_under base key [] = []
values_under base key ((labels, v) ∷ calls) =
    push_under key v (values_under base key calls) (key_of base labels)

abbrev pub total : Arithmetic → List Float → Float
total ar [] = zero
total ar (v ∷ vs) = ar.plus (total ar vs) v

abbrev pub sum_at : Key → Histogram → Float
sum_at key h = on_option zero (λ v. v) (find_key key h.sums)

module _ (py : Python) (ar : Arithmetic) (base : Labelled) (buckets : List Float) where
  -- A new histogram after calls of `observe`, the newest first.
  abbrev pub observed : List (Labels × Float) → Histogram
  observed [] = new_histogram base buckets
  observed ((labels, v) ∷ calls) = let h = observed calls in settle h (observe py ar v labels h)

  record Shows (key : Key) (vs : List Float) (h : Histogram) : Type 0 where
    pub same_base : h.base ≡ base
    pub same_buckets : h.buckets ≡ sort_buckets buckets
    pub counted :
        or_zeros (sort_buckets buckets) (find_key key h.counts) ≡ slots (sort_buckets buckets) vs
    pub summed : sum_at key h ≡ total ar vs

  new_histogram-Shows : (key : Key) → Shows key [] (new_histogram base buckets)
  unfolding new_histogram find_key
  new_histogram-Shows key = elim (Bool-cases (is_empty base.labelnames)) [
    | inl e ↦ record {
      same_base = refl;
      same_buckets = refl;
      counted = rw e (ground arith);
      summed = rw e (ground arith);
    }
    | inr e ↦ record {
      same_base = refl;
      same_buckets = refl;
      counted = rw e refl;
      summed = rw e refl;
    }
  ]

  found_same :
      {A : Type 0} (key : Key) (a : A) (items : List (Key × A))
      → find_key key (put_key key a items) ≡ some a
  found_same key a items =
      find_key-put_key key key a items
      ∙ ap (λ b. if b then some a else find_key key items) (same_texts_refl key)

  found_other :
      {A : Type 0} (key k : Key) (a : A) (items : List (Key × A))
      → same_texts k key ≡ false
      → find_key key (put_key k a items) ≡ find_key key items
  found_other key k a items e =
      find_key-put_key key k a items ∙ ap (λ b. if b then some a else find_key key items) e

  module _ (key : Key) (v : Float) (vs : List Float) (h : Histogram) (s : Shows key vs h) where
    at_key-Shows : Shows key (v ∷ vs) (observe_at py ar v key h)
    unfolding observe_at
    at_key-Shows = record {
      same_base = s.same_base;
      same_buckets = s.same_buckets;
      counted =
          ap (or_zeros (sort_buckets buckets)) (found_same key _ h.counts)
          ∙ ap (λ b. place v b (or_zeros b (find_key key h.counts))) s.same_buckets
          ∙ ap (place v (sort_buckets buckets)) s.counted;
      summed =
          ap (on_option zero (λ v. v)) (found_same key _ h.sums) ∙ ap (λ t. ar.plus t v) s.summed;
    }

    beside_key-Shows : (k : Key) → same_texts k key ≡ false → Shows key vs (observe_at py ar v k h)
    unfolding observe_at
    beside_key-Shows k e = record {
      same_base = s.same_base;
      same_buckets = s.same_buckets;
      counted = ap (or_zeros (sort_buckets buckets)) (found_other key k _ h.counts e) ∙ s.counted;
      summed = ap (on_option zero (λ v. v)) (found_other key k _ h.sums e) ∙ s.summed;
    }

  observe_at-Shows :
      (key k : Key) (v : Float) (vs : List Float) (h : Histogram)
      → Shows key vs h
      → Shows key (if same_texts k key then v ∷ vs else vs) (observe_at py ar v k h)
  observe_at-Shows key k v vs h s = elim (Bool-cases (same_texts k key)) [
    | inl e ↦ rw e (
        subst (λ j. Shows key (v ∷ vs) (observe_at py ar v j h)) (sym (same_texts→eq k key e))
          (at_key-Shows key v vs h s))
    | inr e ↦ rw e (beside_key-Shows key v vs h s k e)
  ]

  settle-Shows :
      (key : Key) (v : Float) (vs : List Float) (h : Histogram) (o : Outcome Key)
      → Shows key vs h
      → Shows key
          (push_under key v vs o)
          (settle h (and_then (λ k. done (observe_at py ar v k h)) o))
  settle-Shows key v vs h (done k) s = observe_at-Shows key k v vs h s
  settle-Shows key v vs h value_error s = s
  settle-Shows key v vs h key_error s = s
  settle-Shows key v vs h type_error s = s
  settle-Shows key v vs h index_error s = s
  settle-Shows key v vs h attribute_error s = s

  observed-Shows :
      (key : Key) (calls : List (Labels × Float))
      → Shows key (values_under base key calls) (observed calls)
  unfolding observe
  observed-Shows key [] = new_histogram-Shows key
  observed-Shows key ((labels, v) ∷ calls) =
      let s = observed-Shows key calls in
      subst
        (λ b. Shows key (push_under key v (values_under base key calls) (key_of base labels)) (
          settle (observed calls)
            (and_then (λ k. done (observe_at py ar v k (observed calls))) (key_of b labels))))
        (sym s.same_base)
        (settle-Shows key v (values_under base key calls) (observed calls) (key_of base labels) s)

  -- Whatever calls of `observe` were made, those that raise included, each line of a histogram's key
  -- shows the values that were observed under that key, and no others: the line of a bucket how many
  -- of them are at most its bound, those of `+Inf` and of the count how many there are, that of the
  -- sum their sum in the order of the calls. The bounds are shown in ascending order. No bound is `nan`.
  pub key_lines-observed :
      (key : Key) (calls : List (Labels × Float)) (counts : List ℕ)
      → All IsNumber buckets
      → find_key key (observed calls).counts ≡ some counts
      → key_lines py ar
          (observed calls).base
          key
          (sum_at key (observed calls))
          0
          (observed calls).buckets
          counts
        ≡ reference_lines py ar base key
            (total ar (values_under base key calls))
            (sort_buckets buckets)
            (values_under base key calls)
  key_lines-observed key calls counts numbers found =
      let s = observed-Shows key calls in
      let us : List Float = sort_buckets buckets in
      let same : counts ≡ slots us (values_under base key calls) =
        sym (ap (or_zeros us) found) ∙ s.counted in
      ap
        (λ b. key_lines py ar b key (sum_at key (observed calls)) 0 (observed calls).buckets counts)
        s.same_base
      ∙ ap (λ t. key_lines py ar base key t 0 (observed calls).buckets counts) s.summed
      ∙ ap (λ b. key_lines py ar base key (total ar (values_under base key calls)) 0 b counts)
          s.same_buckets
      ∙ ap (key_lines py ar base key (total ar (values_under base key calls)) 0 us) same
      ∙ key_lines-slots_all py ar base key (total ar (values_under base key calls)) us
          (values_under base key calls) (sort_buckets-IsAscending buckets numbers)
