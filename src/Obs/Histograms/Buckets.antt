-- ===== src/Obs/Histograms/Buckets.antt =====
-- The cumulative counts of a histogram against the values that were observed.
use atlas_the_agent.Base.{
  ℕ, ◌+◌, ◌≡◌, refl, ap, ◌∙◌, true, not, Bool-cases, inl, inr, List, [], ◌∷◌, All, All-mono, filter,
  Text, length, if◌then◌else◌, arith,
}
use atlas_the_agent.Core.Json.{Float, ltb_float, leb_float}
use atlas_the_agent.Core.Arithmetic.{Arithmetic}
use atlas_the_agent.Core.Python.{Python}
use atlas_the_agent.Core.Floats.{IsNumber, leb_float_trans, leb_float_of_ltb, leb_float_total}
use atlas_the_agent.Obs.Labels.{Outcome, done, Labelled, Key, fmt}
use atlas_the_agent.Obs.Counters.{and_then}
use atlas_the_agent.Obs.Histograms.{
  insert_bucket, sort_buckets, zeros, place, key_lines, bucket_line, last_lines,
}

-- How many of the values are at most `u`.
abbrev pub count_le : Float → List Float → ℕ
count_le u [] = 0
count_le u (v ∷ vs) = let rest = count_le u vs in if leb_float v u then 1 + rest else rest

abbrev above : Float → List Float → List Float
above u vs = filter (λ v. not (leb_float v u)) vs

-- Each bucket is at most every later one.
abbrev pub IsAscending : List Float → Type 0
IsAscending [] = Unit
IsAscending (u ∷ us) = All (λ w. leb_float u w ≡ true) us × IsAscending us

All-insert_bucket :
    (P : Float → Type 0) (x : Float) (us : List Float) → P x → All P us → All P (insert_bucket x us)
unfolding insert_bucket
All-insert_bucket P x [] h k = (h, tt)
All-insert_bucket P x (y ∷ ys) h k = elim (Bool-cases (ltb_float y x)) [
  | inl e ↦ rw e (k.0, All-insert_bucket P x ys h k.1)
  | inr e ↦ rw e (h, k)
]

All-sort_buckets : (P : Float → Type 0) (us : List Float) → All P us → All P (sort_buckets us)
unfolding sort_buckets
All-sort_buckets P [] h = tt
All-sort_buckets P (u ∷ us) h =
    All-insert_bucket P u (sort_buckets us) h.0 (All-sort_buckets P us h.1)

insert_bucket-IsAscending :
    (x : Float) (us : List Float)
    → IsNumber x
    → All IsNumber us
    → IsAscending us
    → IsAscending (insert_bucket x us)
unfolding insert_bucket
insert_bucket-IsAscending x [] n m h = (tt, tt)
insert_bucket-IsAscending x (y ∷ ys) n m h = elim (Bool-cases (ltb_float y x)) [
  | inl e ↦ rw e (
    All-insert_bucket (λ w. leb_float y w ≡ true) x ys (leb_float_of_ltb y x e) h.0,
    insert_bucket-IsAscending x ys n m.1 h.1,
  )
  | inr e ↦ rw e (
      let le = leb_float_total x y n m.0 e in
      (
        (
          le,
          All-mono (λ w. leb_float y w ≡ true) (λ w. leb_float x w ≡ true) ys
              (λ w k. leb_float_trans x y w le k) h.0,
        ),
        h,
      ))
]

pub sort_buckets-IsAscending : (us : List Float) → All IsNumber us → IsAscending (sort_buckets us)
unfolding sort_buckets
sort_buckets-IsAscending [] h = tt
sort_buckets-IsAscending (u ∷ us) h =
    insert_bucket-IsAscending u (sort_buckets us) h.0 (All-sort_buckets IsNumber us h.1)
      (sort_buckets-IsAscending us h.1)

-- The slots after the values, the newest first.
abbrev pub slots : List Float → List Float → List ℕ
slots us [] = zeros us
slots us (v ∷ vs) = place v us (slots us vs)

slots-nil : (vs : List Float) → slots [] vs ≡ length vs ∷ []
unfolding place
slots-nil [] = refl
slots-nil (v ∷ vs) = rw (slots-nil vs) (ground arith)

-- The first slot counts what the first bucket holds; the others are those of the values above it.
slots-cons :
    (u : Float) (us vs : List Float) → slots (u ∷ us) vs ≡ count_le u vs ∷ slots us (above u vs)
unfolding place
slots-cons u us [] = refl
slots-cons u us (v ∷ vs) = elim (Bool-cases (leb_float v u)) [
  | inl e ↦ rw (slots-cons u us vs) (rw e (ground arith))
  | inr e ↦ rw (slots-cons u us vs) (rw e refl)
]

length-above : (u : Float) (vs : List Float) → count_le u vs + length (above u vs) ≡ length vs
length-above u [] = refl
length-above u (v ∷ vs) = ground (arith, length-above u vs)

count_le-above :
    (u w : Float) (vs : List Float)
    → leb_float u w ≡ true
    → count_le u vs + count_le w (above u vs) ≡ count_le w vs
count_le-above u w [] h = refl
count_le-above u w (v ∷ vs) h = ground (arith, count_le-above u w vs h, leb_float_trans v u w)

-- What the values above `u` add to those up to it.
count_le-shift :
    (n m : ℕ) (u : Float) (us vs all : List Float)
    → n + count_le u vs ≡ m
    → All (λ w. leb_float u w ≡ true) us
    → All (λ w. n + count_le w vs ≡ count_le w all) us
    → All (λ w. m + count_le w (above u vs) ≡ count_le w all) us
count_le-shift n m u [] vs all e h c = tt
count_le-shift n m u (w ∷ us) vs all e h c =
    (omega (arith, count_le-above u w vs h.0, e, c.0), count_le-shift n m u us vs all e h.1 c.1)

module _ (py : Python) (ar : Arithmetic) (base : Labelled) (key : Key) (sum : Float) where
  -- The line of a bucket, before those of the later ones.
  abbrev bucket_then : Float → ℕ → Outcome (List Text) → Outcome (List Text)
  bucket_then u n rest =
      and_then (λ le. and_then (λ lines. done (bucket_line py ar base key le n ∷ lines)) rest)
        (fmt py ar u)

  -- The lines of a key by counting its values anew for each bucket.
  abbrev pub reference_lines : List Float → List Float → Outcome (List Text)
  reference_lines [] vs = last_lines py ar base key sum (length vs)
  reference_lines (u ∷ us) vs = bucket_then u (count_le u vs) (reference_lines us vs)

  key_lines-cons :
      (n c : ℕ) (u : Float) (us : List Float) (cs : List ℕ)
      → key_lines py ar base key sum n (u ∷ us) (c ∷ cs)
        ≡ bucket_then u (n + c) (key_lines py ar base key sum (n + c) us cs)
  unfolding key_lines
  key_lines-cons n c u us cs = refl

  key_lines-nil :
      (n c : ℕ) → key_lines py ar base key sum n [] (c ∷ []) ≡ last_lines py ar base key sum (n + c)
  unfolding key_lines
  key_lines-nil n c = refl

  -- The loop, where `n` values of `all` lie below `vs` and below every bucket that is left.
  key_lines-slots :
      (n : ℕ) (us vs all : List Float)
      → IsAscending us
      → n + length vs ≡ length all
      → All (λ w. n + count_le w vs ≡ count_le w all) us
      → key_lines py ar base key sum n us (slots us vs) ≡ reference_lines us all
  key_lines-slots n [] vs all h len c =
      ap (key_lines py ar base key sum n []) (slots-nil vs)
      ∙ key_lines-nil n (length vs)
      ∙ ap (last_lines py ar base key sum) len
  key_lines-slots n (u ∷ us) vs all h len c =
      let m : ℕ = count_le u all in
      ap (key_lines py ar base key sum n (u ∷ us)) (slots-cons u us vs)
      ∙ key_lines-cons n (count_le u vs) u us (slots us (above u vs))
      ∙ ap (λ k. bucket_then u k (key_lines py ar base key sum k us (slots us (above u vs)))) c.0
      ∙ ap (bucket_then u m) (
          key_lines-slots m us (above u vs) all h.1 (omega (arith, length-above u vs, c.0, len))
            (count_le-shift n m u us vs all c.0 h.0 c.1))

  pub key_lines-slots_all :
      (us vs : List Float)
      → IsAscending us
      → key_lines py ar base key sum 0 us (slots us vs) ≡ reference_lines us vs
  key_lines-slots_all us vs h = key_lines-slots 0 us vs vs h (omega arith) (from_none us)
    where
      from_none : (us : List Float) → All (λ w. 0 + count_le w vs ≡ count_le w vs) us
      from_none [] = tt
      from_none (w ∷ us) = (omega arith, from_none us)
