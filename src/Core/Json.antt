-- ===== src/Core/Json.antt =====
-- JSON values as `json.loads` returns them, which also stand for the `dict` payloads of events.
-- `int` is Python's unbounded integer; a finite `float` is a whole multiple of 2^-1074, the
-- smallest positive double, so that comparing two of them is exact.
use atlas_the_agent.Base.{ℕ, String, Bool, Option, none, some, Text, ltb, if◌then◌else◌}
use text.Mathlib.Text.{◌==◌ as str_eq}

-- `negsuc n` is -(n + 1).
pub data ℤ : Type 0 where
  pos : ℕ → ℤ
  negsuc : ℕ → ℤ

pub data Float : Type 0 where
  nan neg_inf pos_inf : Float
  finite : ℤ → Float

abbrev pub ltb_ℤ : ℤ → ℤ → Bool
ltb_ℤ (pos m) (pos n) = ltb m n
ltb_ℤ (pos m) (negsuc n) = Bool.false
ltb_ℤ (negsuc m) (pos n) = Bool.true
ltb_ℤ (negsuc m) (negsuc n) = ltb n m

-- `a < b`; every comparison with `nan` is false.
abbrev pub ltb_float : Float → Float → Bool
ltb_float nan b = Bool.false
ltb_float neg_inf nan = Bool.false
ltb_float neg_inf neg_inf = Bool.false
ltb_float neg_inf b = Bool.true
ltb_float pos_inf b = Bool.false
ltb_float (finite x) nan = Bool.false
ltb_float (finite x) neg_inf = Bool.false
ltb_float (finite x) pos_inf = Bool.true
ltb_float (finite x) (finite y) = ltb_ℤ x y

-- `a <= b` of doubles.
abbrev pub leb_float : Float → Float → Bool
leb_float nan b = Bool.false
leb_float neg_inf nan = Bool.false
leb_float neg_inf b = Bool.true
leb_float pos_inf pos_inf = Bool.true
leb_float pos_inf b = Bool.false
leb_float (finite x) nan = Bool.false
leb_float (finite x) neg_inf = Bool.false
leb_float (finite x) pos_inf = Bool.true
leb_float (finite x) (finite y) = if ltb_ℤ y x then Bool.false else Bool.true

mutual
  pub data Json : Type 0 where
    null : Json
    bool : Bool → Json
    int : ℤ → Json
    float : Float → Json
    str : Text → Json
    arr : Items → Json
    obj : Fields → Json

  pub data Items : Type 0 where
    nil : Items
    cons : Json → Items → Items

  pub data Fields : Type 0 where
    end : Fields
    field : String → Json → Fields → Fields

-- `d.get(key)`; `null` is kept apart from a missing key.
abbrev pub get : Fields → String → Option Json
get end k = none
get (field j v fs) k = if str_eq j k then some v else get fs k

-- `str | None` written into a payload
abbrev pub str_or_null : Option Text → Json
str_or_null none = null
str_or_null (some s) = str s

abbrev pub nat : ℕ → Json
nat n = int (pos n)
