-- ===== src/Obs/Labels.antt =====
-- `_Base`, `_esc_label` and `_fmt` of backend/atlas/obs/metrics.py.
pub mod Escaped
use atlas_the_agent.Base.{
  ℕ, ◌*◌, ◌/◌, ◌^◌, Bool, true, false, ◌&&◌, not, any, Option, none, some, List, [], ◌∷◌, ◌++◌, map,
  Text, codes, eqb, ltb, ◌==◌, if◌then◌else◌, on_option, is_empty,
}
use atlas_the_agent.Core.Json.{ℤ, pos, negsuc, Float, nan, neg_inf, pos_inf, finite}
use atlas_the_agent.Core.Arithmetic.{Arithmetic}
use atlas_the_agent.Core.Python.{Python}

-- `s.replace(old, new)` for one character `old`.
unfoldable pub replace : ℕ → Text → Text → Text
replace old new [] = []
replace old new (c ∷ s) = (if c == old then new else c ∷ []) ++ replace old new s

unfoldable pub esc_label : Text → Text
esc_label value =
    replace 0x22 (0x5c ∷ 0x22 ∷ [])
      (replace 0xa (0x5c ∷ b'n' ∷ []) (replace 0x5c (0x5c ∷ 0x5c ∷ []) value))

-- How an operation on a metric ends: with a value, or with the exception that it raises.
pub data Outcome (A : Type 0) : Type 0 where
  done : A → Outcome A
  value_error key_error type_error index_error attribute_error : Outcome A

-- `_Base`, its lock apart.
pub record Labelled : Type 0 where
  pub name : Text
  pub documentation : Text
  pub labelnames : List Text

-- `str` of each label, under its name.
abbrev pub Labels : Type 0
Labels = List (Text × Text)

abbrev pub Key : Type 0
Key = List Text

abbrev pub find_label : Text → Labels → Option Text
find_label n [] = none
find_label n ((m, v) ∷ labels) = if eqb m n then some v else find_label n labels

abbrev pub names_of : Labels → List Text
names_of labels = map (λ (p : Text × Text). p.0) labels

-- Is every name of the first list in the second one?
abbrev pub covers : List Text → List Text → Bool
covers [] names = true
covers (n ∷ ns) names = any (λ m. eqb m n) names && covers ns names

-- `_Base._key`
unfoldable pub key_of : Labelled → Labels → Outcome Key
key_of base labels =
    if covers (names_of labels) base.labelnames && covers base.labelnames (names_of labels)
    then done (map (λ n. on_option [] (λ v. v) (find_label n labels)) base.labelnames)
    else key_error

-- `f'{name}="{_esc_label(value)}"'` for the names and the values of a key.
unfoldable pub pairs_of : List Text → Key → List Text
unfolding esc_label
pairs_of [] key = []
pairs_of (n ∷ ns) [] = []
pairs_of (n ∷ ns) (v ∷ key) =
    (n ++ (codes "=" ++ (0x22 ∷ (esc_label v ++ 0x22 ∷ [])))) ∷ pairs_of ns key

-- `", ".join(…)`
abbrev pub join : List Text → Text
join [] = []
join (t ∷ []) = t
join (t ∷ (u ∷ ts)) = t ++ (codes ", " ++ join (u ∷ ts))

abbrev braces : Text → Text
braces s = codes "{" ++ (s ++ codes "}")

-- `_Base._labelstr`
unfoldable pub labelstr : Labelled → Key → Text
unfolding pairs_of
labelstr base key =
    if is_empty base.labelnames then [] else braces (join (pairs_of base.labelnames key))

-- `Histogram._bucket_labelstr`
unfoldable pub bucket_labelstr : Labelled → Key → Text → Text
unfolding pairs_of
bucket_labelstr base key le =
    braces (join (pairs_of base.labelnames key ++ (codes "le=" ++ (0x22 ∷ (le ++ 0x22 ∷ []))) ∷ []))

-- A double is a whole number of 2^-1074.
unit : ℕ
unit = 2 ^ 1074

module _ (py : Python) (ar : Arithmetic) where
  -- `value == int(value) and abs(value) < 1e15` for m / 2^1074
  abbrev is_short : ℕ → Bool
  is_short m = (m / unit * unit == m) && ltb m (1_000_000_000_000_000 * unit)

  -- `_fmt`; `int` raises for an infinity and for `nan`.
  unfoldable pub fmt : Float → Outcome Text
  unfolding unit
  fmt nan = value_error
  fmt neg_inf = value_error
  fmt pos_inf = value_error
  fmt (finite (pos m)) = done (if is_short m then py.show (m / unit) else ar.repr (finite (pos m)))
  fmt (finite (negsuc n)) = done (
      if is_short (ℕ.suc n)
      then codes "-" ++ py.show (ℕ.suc n / unit)
      else ar.repr (finite (negsuc n)))
