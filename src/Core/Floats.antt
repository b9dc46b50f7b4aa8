-- ===== src/Core/Floats.antt =====
-- The order of doubles.
use atlas_the_agent.Base.{◌≡◌, true, false, arith}
use atlas_the_agent.Core.Json.{
  ℤ, pos, negsuc, Float, nan, neg_inf, pos_inf, finite, ltb_ℤ, ltb_float, leb_float,
}

-- Is it a number, not `nan`?
abbrev pub IsNumber : Float → Type 0
IsNumber x = leb_float x x ≡ true

ltb_ℤ_trans : (x y z : ℤ) → ltb_ℤ y x ≡ false → ltb_ℤ z y ≡ false → ltb_ℤ z x ≡ false
ltb_ℤ_trans (pos x) (pos y) (pos z) h k = ground (arith, h, k)
ltb_ℤ_trans (pos x) (pos y) (negsuc z) h k = ground (arith, h, k)
ltb_ℤ_trans (pos x) (negsuc y) z h k = ground (arith, h, k)
ltb_ℤ_trans (negsuc x) (pos y) (pos z) h k = ground (arith, h, k)
ltb_ℤ_trans (negsuc x) (pos y) (negsuc z) h k = ground (arith, h, k)
ltb_ℤ_trans (negsuc x) (negsuc y) (pos z) h k = ground (arith, h, k)
ltb_ℤ_trans (negsuc x) (negsuc y) (negsuc z) h k = ground (arith, h, k)

ltb_ℤ_asym : (x y : ℤ) → ltb_ℤ x y ≡ true → ltb_ℤ y x ≡ false
ltb_ℤ_asym (pos x) (pos y) h = ground (arith, h)
ltb_ℤ_asym (pos x) (negsuc y) h = ground (arith, h)
ltb_ℤ_asym (negsuc x) (pos y) h = ground (arith, h)
ltb_ℤ_asym (negsuc x) (negsuc y) h = ground (arith, h)

pub leb_float_trans :
    (a b c : Float) → leb_float a b ≡ true → leb_float b c ≡ true → leb_float a c ≡ true
leb_float_trans nan b c h k = ground (arith, h)
leb_float_trans a nan c h k = ground (arith, k)
leb_float_trans a b nan h k = ground (arith, k)
leb_float_trans neg_inf b c h k = ground (arith, h, k)
leb_float_trans pos_inf b c h k = ground (arith, h, k)
leb_float_trans (finite x) b pos_inf h k = ground (arith, h, k)
leb_float_trans (finite x) b neg_inf h k = ground (arith, h, k)
leb_float_trans (finite x) neg_inf (finite z) h k = ground (arith, h, k)
leb_float_trans (finite x) pos_inf (finite z) h k = ground (arith, h, k)
leb_float_trans (finite x) (finite y) (finite z) h k = ground (arith, h, k, ltb_ℤ_trans x y z)

pub leb_float_of_ltb : (a b : Float) → ltb_float a b ≡ true → leb_float a b ≡ true
leb_float_of_ltb nan b h = ground (arith, h)
leb_float_of_ltb neg_inf b h = ground (arith, h)
leb_float_of_ltb pos_inf b h = ground (arith, h)
leb_float_of_ltb (finite x) nan h = ground (arith, h)
leb_float_of_ltb (finite x) neg_inf h = ground (arith, h)
leb_float_of_ltb (finite x) pos_inf h = ground (arith, h)
leb_float_of_ltb (finite x) (finite y) h = ground (arith, h, ltb_ℤ_asym x y)

pub leb_float_total :
    (a b : Float) → IsNumber a → IsNumber b → ltb_float b a ≡ false → leb_float a b ≡ true
leb_float_total nan b p q h = ground (arith, p)
leb_float_total neg_inf b p q h = ground (arith, q)
leb_float_total pos_inf b p q h = ground (arith, q, h)
leb_float_total (finite x) nan p q h = ground (arith, q)
leb_float_total (finite x) neg_inf p q h = ground (arith, h)
leb_float_total (finite x) pos_inf p q h = ground (arith, h)
leb_float_total (finite x) (finite y) p q h = ground (arith, h)
