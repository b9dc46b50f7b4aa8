-- ===== src/Obs/Labels/Escaped.antt =====
-- An escaped label value can be read back.
use atlas_the_agent.Base.{
  append_assoc, ℕ, ◌≡◌, refl, sym, false, Bool-cases, inl, inr, Option, none, some, [], ◌∷◌, ◌++◌,
  Text, ◌==◌, if◌then◌else◌, arith,
}
use atlas_the_agent.Obs.Labels.{replace, esc_label}

-- What stands for a character behind a backslash.
abbrev unescape_char : ℕ → ℕ
unescape_char c = if c == b'n' then 0xa else c

-- The label value that starts here, up to the quotation mark that closes it, and what is behind that.
unfoldable pub read_value : Text → Option (Text × Text)
read_value [] = none
read_value (c ∷ []) = if c == 0x22 then some ([], []) else none
read_value (c ∷ (d ∷ s)) =
    let short = read_value s in
    let long = read_value (d ∷ s) in
    if c == 0x22
    then some ([], d ∷ s)
    else if c == 0x5c
    then elim short [ none ↦ none | some (v, rest) ↦ some (unescape_char d ∷ v, rest) ]
    else elim long [ none ↦ none | some (v, rest) ↦ some (c ∷ v, rest) ]

replace-append :
    (old : ℕ) (new s t : Text) → replace old new (s ++ t) ≡ replace old new s ++ replace old new t
unfolding replace
replace-append old new [] t = refl
replace-append old new (c ∷ s) t =
    rw (replace-append old new s t) (sym (append_assoc (if c == old then new else c ∷ []) _ _))

-- What stands for one character.
abbrev escaped : ℕ → Text
escaped c =
    if c == 0x5c
    then 0x5c ∷ 0x5c ∷ []
    else if c == 0xa
    then 0x5c ∷ b'n' ∷ []
    else if c == 0x22
    then 0x5c ∷ 0x22 ∷ []
    else c ∷ []

-- The three passes are one: no pass meets what an earlier one has put in.
esc_label-cons : (c : ℕ) (s : Text) → esc_label (c ∷ s) ≡ escaped c ++ esc_label s
unfolding esc_label replace
esc_label-cons c s = elim (Bool-cases (c == 0x5c)) [
  | inl e ↦ rw e refl
  | inr e ↦ elim (Bool-cases (c == 0xa)) [ inl f ↦ rw e (rw f refl) | inr f ↦ rw e (rw f refl) ]
]

-- A character that needs no escape.
read_value-plain :
    (c : ℕ) (t v rest : Text)
    → (c == 0x22) ≡ false
    → (c == 0x5c) ≡ false
    → read_value t ≡ some (v, rest)
    → read_value (c ∷ t) ≡ some (c ∷ v, rest)
unfolding read_value
read_value-plain c [] v rest e f h = ground (arith, h)
read_value-plain c (d ∷ s) v rest e f h = rw e (rw f (rw h refl))

read_value-close : (rest : Text) → read_value (0x22 ∷ rest) ≡ some ([], rest)
unfolding read_value
read_value-close [] = refl
read_value-close (d ∷ s) = refl

read_value-escaped :
    (c : ℕ) (t v rest : Text)
    → read_value t ≡ some (v, rest)
    → read_value (escaped c ++ t) ≡ some (c ∷ v, rest)
unfolding read_value
read_value-escaped c t v rest h = elim (Bool-cases (c == 0x5c)) [
  | inl e ↦ rw e (rw h (ground (arith, e)))
  | inr e ↦ elim (Bool-cases (c == 0xa)) [
    | inl f ↦ rw e (rw f (rw h (ground (arith, f))))
    | inr f ↦ elim (Bool-cases (c == 0x22)) [
      | inl g ↦ rw e (rw f (rw g (rw h (ground (arith, g)))))
      | inr g ↦ rw e (rw f (rw g (read_value-plain c t v rest g e h)))
    ]
  ]
]

-- A label value that is escaped and put between quotation marks is read back as it was, whatever it
-- holds, and the reading stops at the mark that closes it: the text behind it is left over.
pub read_value-esc_label :
    (value rest : Text) → read_value (esc_label value ++ 0x22 ∷ rest) ≡ some (value, rest)
read_value-esc_label [] rest = unfold esc_label replace in read_value-close rest
read_value-esc_label (c ∷ s) rest = rw (esc_label-cons c s) (
    rw (append_assoc (escaped c) (esc_label s) (0x22 ∷ rest))
      (read_value-escaped c (esc_label s ++ 0x22 ∷ rest) s rest (read_value-esc_label s rest)))
