-- ===== src/Obs/Counters/Items.antt =====
-- What a dict holds after an assignment.
use atlas_the_agent.Base.{
  ◌≡◌, refl, sym, ap, ◌∙◌, true, false, Bool-cases, inl, inr, List, [], ◌∷◌, same_texts,
  same_texts→eq, same_texts_refl, if◌then◌else◌, some, arith,
}
use atlas_the_agent.Obs.Labels.{Key}
use atlas_the_agent.Obs.Counters.{find_key, put_key}

-- A key that equals the first of two different ones is not the second.
other_key : (i j k : Key) → same_texts i k ≡ false → same_texts i j ≡ true → same_texts k j ≡ false
other_key i j k e f = elim (Bool-cases (same_texts k j)) [
  | inl g ↦ absurd (
      ground (
        arith,
        e,
        same_texts_refl i,
        ap (λ x. same_texts i x) (same_texts→eq i j f ∙ sym (same_texts→eq k j g)),
      ))
  | inr g ↦ g
]

pub find_key-put_key :
    {A : Type 0} (j k : Key) (a : A) (items : List (Key × A))
    → find_key j (put_key k a items) ≡ (if same_texts k j then some a else find_key j items)
unfolding find_key put_key
find_key-put_key j k a [] = refl
find_key-put_key j k a ((i, v) ∷ items) = elim (Bool-cases (same_texts i k)) [
  | inl e ↦ rw e (ground (arith, ap (λ x. same_texts x j) (same_texts→eq i k e)))
  | inr e ↦ elim (Bool-cases (same_texts i j)) [
    | inl f ↦ rw e (rw f (rw (other_key i j k e f) refl))
    | inr f ↦ rw e (rw f (find_key-put_key j k a items))
  ]
]
