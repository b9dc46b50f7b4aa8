-- ===== src/Agent/Jsonio/Balanced.antt =====
-- The objects that `first_balanced_object` finds, written by a grammar.
use atlas_the_agent.Base.{
  ℕ, suc, ◌≡◌, refl, ◌∙◌, true, false, Option, none, some, [], ◌∷◌, ◌++◌, All, Text, arith, ◌==◌,
}
use atlas_the_agent.Agent.Jsonio.{cons_some, balance, first_balanced_object}

-- What stands behind an opening quote, up to the closing one; `escaped` has a backslash before it.
pub data Chars : Type 0 where
  close : Chars
  char : ℕ → Chars → Chars
  escaped : ℕ → Chars → Chars

-- What stands between two braces.
pub data Body : Type 0 where
  empty : Body
  plain : ℕ → Body → Body
  quoted : Chars → Body → Body
  nested : Body → Body → Body

abbrev pub print_chars : Chars → Text → Text
print_chars close k = b'"' ∷ k
print_chars (char c q) k = c ∷ print_chars q k
print_chars (escaped c q) k = b'\\' ∷ c ∷ print_chars q k

abbrev pub print_body : Body → Text → Text
print_body empty k = k
print_body (plain c b) k = c ∷ print_body b k
print_body (quoted q b) k = b'"' ∷ print_chars q (print_body b k)
print_body (nested a b) k = b'{' ∷ print_body a (b'}' ∷ print_body b k)

abbrev pub AreChars : Chars → Type 0
AreChars close = Unit
AreChars (char c q) = ((c == b'"') ≡ false) × ((c == b'\\') ≡ false) × AreChars q
AreChars (escaped c q) = AreChars q

abbrev pub IsBody : Body → Type 0
IsBody empty = Unit
IsBody (plain c b) =
    ((c == b'{') ≡ false) × ((c == b'}') ≡ false) × ((c == b'"') ≡ false) × IsBody b
IsBody (quoted q b) = AreChars q × IsBody b
IsBody (nested a b) = IsBody a × IsBody b

abbrev after : (Text → Text) → Option Text → Option Text
after f none = none
after f (some t) = some (f t)

after-after : (f g : Text → Text) (o : Option Text) → after f (after g o) ≡ after (λ t. f (g t)) o
after-after f g none = refl
after-after f g (some t) = refl

cons_after : (c : ℕ) (o : Option Text) → cons_some c o ≡ after (λ t. c ∷ t) o
cons_after c none = refl
cons_after c (some t) = refl

after_same : (o : Option Text) → o ≡ after (λ t. t) o
after_same none = refl
after_same (some t) = refl

cons_some-after :
    (c : ℕ) (f : Text → Text) (o : Option Text) → cons_some c (after f o) ≡ after (λ t. c ∷ f t) o
cons_some-after c f none = refl
cons_some-after c f (some t) = refl

balance-chars :
    (d : ℕ) (q : Chars) (k : Text)
    → AreChars q
    → balance d true false (print_chars q k) ≡ after (print_chars q) (balance d false false k)
unfolding balance
balance-chars d close k h = cons_after b'"' (balance d false false k)
balance-chars d (char c q) k (e, f, h) =
    rw (e, f, balance-chars d q k h) (cons_some-after c (print_chars q) (balance d false false k))
balance-chars d (escaped c q) k h =
    rw (balance-chars d q k h, cons_some-after c (print_chars q) (balance d false false k))
      (cons_some-after b'\\' (λ t. c ∷ print_chars q t) (balance d false false k))

opens :
    (d : ℕ) (k : Text)
    → balance (suc d) false false (b'{' ∷ k) ≡ cons_some b'{' (balance (suc (suc d)) false false k)
unfolding balance
opens d k = ground arith

closes :
    (d : ℕ) (k : Text)
    → balance (suc (suc d)) false false (b'}' ∷ k) ≡ cons_some b'}' (balance (suc d) false false k)
unfolding balance
closes d k = ground arith

balance-nested :
    (d : ℕ) (a b : Body) (k : Text)
    → balance (suc (suc d)) false false (print_body a (b'}' ∷ print_body b k))
      ≡ after (print_body a) (balance (suc (suc d)) false false (b'}' ∷ print_body b k))
    → balance (suc d) false false (print_body b k)
      ≡ after (print_body b) (balance (suc d) false false k)
    → balance (suc d) false false (print_body (nested a b) k)
      ≡ after (print_body (nested a b)) (balance (suc d) false false k)
balance-nested d a b k ha hb =
    opens d (print_body a (b'}' ∷ print_body b k))
    ∙ rw
        (
          ha,
          closes d (print_body b k),
          hb,
          cons_some-after b'}' (print_body b) (balance (suc d) false false k),
          after-after (print_body a) (λ t. b'}' ∷ print_body b t) (balance (suc d) false false k),
        )
        (cons_some-after b'{' (λ t. print_body a (b'}' ∷ print_body b t))
          (balance (suc d) false false k))

balance-body :
    (d : ℕ) (b : Body) (k : Text)
    → IsBody b
    → balance (suc d) false false (print_body b k)
      ≡ after (print_body b) (balance (suc d) false false k)
unfolding balance
balance-body d empty k h = after_same (balance (suc d) false false k)
balance-body d (plain c b) k (e, f, g, h) =
    rw (e, f, g, balance-body d b k h)
      (cons_some-after c (print_body b) (balance (suc d) false false k))
balance-body d (quoted q b) k (hq, h) =
    rw
      (
        balance-chars (suc d) q (print_body b k) hq,
        balance-body d b k h,
        after-after (print_chars q) (print_body b) (balance (suc d) false false k),
      )
      (cons_some-after b'"' (λ t. print_chars q (print_body b t)) (balance (suc d) false false k))
balance-body d (nested a b) k (ha, h) =
    balance-nested d a b k (balance-body (suc d) a (b'}' ∷ print_body b k) ha)
      (balance-body d b k h)

-- An object of the grammar, as it is written.
abbrev pub print_object : Body → Text → Text
print_object b k = b'{' ∷ print_body b (b'}' ∷ k)

balance-object :
    (b : Body) (k : Text)
    → IsBody b
    → balance 0 false false (print_object b k) ≡ some (print_object b [])
unfolding balance
balance-object b k h = rw (balance-body 0 b (b'}' ∷ k) h) refl

-- Whatever follows it, and whatever stands before it that has no opening brace, an object of the
-- grammar is what `first_balanced_object` finds: braces that stand in strings, and quotes behind a
-- backslash, do not mislead it.
pub first_balanced_object-print_object :
    (pre : Text) (b : Body) (post : Text)
    → All (λ c. (c == b'{') ≡ false) pre
    → IsBody b
    → first_balanced_object (pre ++ print_object b post) ≡ some (print_object b [])
unfolding first_balanced_object
first_balanced_object-print_object [] b post hp h = balance-object b post h
first_balanced_object-print_object (c ∷ pre) b post (e, hp) h =
    rw e (first_balanced_object-print_object pre b post hp h)
