-- ===== src/Base/Strings.antt =====
-- Python's `str` as a list of code points, and the methods of it that the program calls.
use Prim.Native.Nat.{ℕ, ◌≤◌}
use Prim.Native.Char.{code}
use Prim.Native.String.{String}
use mathlib.Core.Path.{◌≡◌, refl}
use mathlib.Core.Bool.{Bool, true, false, ◌&&◌, ◌||◌}
use mathlib.Core.List.{List, [], ◌∷◌}
use native.Mathlib.Omega.{arith}
use atlas_the_agent.Base.Tests.{leb, ◌==◌, if◌then◌else◌}
use atlas_the_agent.Base.Lists.{length}

abbrev pub Text : Type 0
Text = List ℕ

-- A literal of the source.
abbrev pub codes : String → Text
codes String.[] = []
codes (String.◌∷◌ c s) = code c ∷ codes s

-- The characters that `str.strip()` removes (`str.isspace`).
abbrev pub is_space : ℕ → Bool
is_space c =
    (leb 9 c && leb c 13)
    || (leb 28 c && leb c 32)
    || c == 0x85
    || c == 0xa0
    || c == 0x1680
    || (leb 0x2000 c && leb c 0x200a)
    || c == 0x2028
    || c == 0x2029
    || c == 0x202f
    || c == 0x205f
    || c == 0x3000

unfoldable pub lstrip : Text → Text
lstrip [] = []
lstrip (c ∷ s) = let rest = lstrip s in if is_space c then rest else c ∷ s

abbrev pub is_empty {ℓ} : {A : Type ℓ} → List A → Bool
is_empty [] = true
is_empty (c ∷ s) = false

-- A space stays only where something else follows it.
unfoldable pub rstrip : Text → Text
rstrip [] = []
rstrip (c ∷ s) = let rest = rstrip s in if is_space c && is_empty rest then [] else c ∷ rest

unfoldable pub strip : Text → Text
unfolding lstrip rstrip
strip s = rstrip (lstrip s)

abbrev pub eqb : Text → Text → Bool
eqb [] [] = true
eqb [] (d ∷ t) = false
eqb (c ∷ s) [] = false
eqb (c ∷ s) (d ∷ t) = c == d && eqb s t

abbrev pub starts_with : Text → Text → Bool
starts_with s [] = true
starts_with [] (p ∷ ps) = false
starts_with (c ∷ s) (p ∷ ps) = c == p && starts_with s ps

-- `"…"`
abbrev pub ellipsis : Text
ellipsis = 0x2026 ∷ []

pub length-rstrip-le : (s : Text) → length (rstrip s) ≤ length s
unfolding rstrip
length-rstrip-le [] = omega arith
length-rstrip-le (c ∷ s) = ground (arith, length-rstrip-le s)

-- Are two lists of strings equal?
abbrev pub same_texts : List Text → List Text → Bool
same_texts [] [] = true
same_texts [] (d ∷ q) = false
same_texts (c ∷ p) [] = false
same_texts (c ∷ p) (d ∷ q) = eqb c d && same_texts p q

pub eqb→eq : (s t : Text) → eqb s t ≡ true → s ≡ t
eqb→eq [] [] e = refl
eqb→eq [] (d ∷ t) e = ground (arith, e)
eqb→eq (c ∷ s) [] e = ground (arith, e)
eqb→eq (c ∷ s) (d ∷ t) e = ground (arith, e, eqb→eq s t)

pub same_texts→eq : (p q : List Text) → same_texts p q ≡ true → p ≡ q
same_texts→eq [] [] e = refl
same_texts→eq [] (d ∷ q) e = ground (arith, e)
same_texts→eq (c ∷ p) [] e = ground (arith, e)
same_texts→eq (c ∷ p) (d ∷ q) e = ground (arith, e, eqb→eq c d, same_texts→eq p q)

pub eqb_refl : (s : Text) → eqb s s ≡ true
eqb_refl [] = refl
eqb_refl (c ∷ s) = ground (arith, eqb_refl s)

pub same_texts_refl : (p : List Text) → same_texts p p ≡ true
same_texts_refl [] = refl
same_texts_refl (c ∷ p) = ground (arith, eqb_refl c, same_texts_refl p)
