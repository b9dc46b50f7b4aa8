-- ===== src/Persistence/Memories/Counted.antt =====
-- How many memories stay active when some are taken out by their ids.
use atlas_the_agent.Base.{
  ℕ, ◌+◌, suc, ◌≡◌, refl, ap, Bool, true, false, not, ◌&&◌, Bool-cases, ◌⊎◌, inl, inr, List, [],
  ◌∷◌, All, All-mono, any, filter, length, ◌==◌, arith,
}
use atlas_the_agent.Memory.Schemas.{MemoryView, expired}
use atlas_the_agent.Persistence.Tables.{update_where}
use atlas_the_agent.Persistence.Memories.{is_active}

-- No row of the list has this id.
abbrev pub IsAbsent : ℕ → List MemoryView → Type 0
IsAbsent i ms = All (λ m. (m.id == i) ≡ false) ms

-- Every row has an id of its own, as a primary key is.
abbrev pub IsKeyed : List MemoryView → Type 0
IsKeyed [] = Unit
IsKeyed (m ∷ ms) = IsAbsent m.id ms × IsKeyed ms

abbrev pub IsDistinct : List ℕ → Type 0
IsDistinct [] = Unit
IsDistinct (i ∷ is) = All (λ j. (i == j) ≡ false) is × IsDistinct is

abbrev pub is_loose : MemoryView → Bool
is_loose m = is_active m && not m.pinned

-- An active row that is not pinned has this id.
abbrev pub IsHeld : ℕ → List MemoryView → Type 0
IsHeld i [] = ⊥
IsHeld i (m ∷ ms) = (((m.id == i) ≡ true) × (is_loose m ≡ true)) ⊎ IsHeld i ms

-- Is it active, and none of these?
abbrev pub is_kept : List ℕ → MemoryView → Bool
is_kept is m = is_active m && not (any (λ i. m.id == i) is)

abbrev pub count_kept : List ℕ → List MemoryView → ℕ
count_kept is ms = length (filter (is_kept is) ms)

any-false :
    (i j : ℕ) (is : List ℕ)
    → (i == j) ≡ true
    → All (λ k. (j == k) ≡ false) is
    → any (λ k. i == k) is ≡ false
any-false i j [] e h = refl
any-false i j (k ∷ is) e h = ground (arith, e, h, any-false i j is e h.1)

loose_is_active : (m : MemoryView) → is_loose m ≡ true → is_active m ≡ true
loose_is_active m h = ground (arith, h)

pub held_other : (i j : ℕ) (ms : List MemoryView) → IsHeld i ms → IsAbsent j ms → (j == i) ≡ false
held_other i j [] h a = absurd h
held_other i j (m ∷ ms) (inl h) a = ground (arith, h, a.0)
held_other i j (m ∷ ms) (inr h) a = held_other i j ms h a.1

count_kept-absent :
    (i : ℕ) (is : List ℕ) (ms : List MemoryView)
    → IsAbsent i ms
    → count_kept (i ∷ is) ms ≡ count_kept is ms
count_kept-absent i is [] a = refl
count_kept-absent i is (m ∷ ms) a = rw a.0 (elim (Bool-cases (is_kept is m)) [
  | inl e ↦ rw e (ap suc (count_kept-absent i is ms a.1))
  | inr e ↦ rw e (count_kept-absent i is ms a.1)
])

-- The one active row with the id is no longer counted.
count_kept-cons :
    (i : ℕ) (is : List ℕ) (ms : List MemoryView)
    → IsKeyed ms
    → IsHeld i ms
    → All (λ j. (i == j) ≡ false) is
    → suc (count_kept (i ∷ is) ms) ≡ count_kept is ms
count_kept-cons i is [] k h d = absurd h
count_kept-cons i is (m ∷ ms) k (inl (e, a)) d = rw e (
    rw (loose_is_active m a) (
      rw (any-false m.id i is e d) (
        ap suc (
          count_kept-absent i is ms (
            All-mono (λ n. (n.id == m.id) ≡ false) (λ n. (n.id == i) ≡ false) ms
              (λ n h. ground (arith, e, h)) k.0)))))
count_kept-cons i is (m ∷ ms) k (inr h) d =
    rw (held_other i m.id ms h k.0) (elim (Bool-cases (is_kept is m)) [
      | inl e ↦ rw e (ap suc (count_kept-cons i is ms k.1 h d))
      | inr e ↦ rw e (count_kept-cons i is ms k.1 h d)
    ])

count_kept-nil : (ms : List MemoryView) → count_kept [] ms ≡ length (filter is_active ms)
count_kept-nil [] = refl
count_kept-nil (m ∷ ms) = elim (Bool-cases (is_active m)) [
  | inl e ↦ rw e (ap suc (count_kept-nil ms))
  | inr e ↦ rw e (count_kept-nil ms)
]

-- Each id that is taken out is one active row less.
pub count_kept-add :
    (is : List ℕ) (ms : List MemoryView)
    → IsKeyed ms
    → IsDistinct is
    → All (λ i. IsHeld i ms) is
    → count_kept is ms + length is ≡ length (filter is_active ms)
count_kept-add [] ms k d h = omega (arith, count_kept-nil ms)
count_kept-add (i ∷ is) ms k d h =
    omega (arith, count_kept-cons i is ms k h.0 d.0, count_kept-add is ms k d.1 h.1)

-- A row that is expired is not active any more.
pub count-expired :
    (is : List ℕ) (now : ℕ) (ms : List MemoryView)
    → length (
        filter is_active (
          update_where
            (λ m. any (λ i. m.id == i) is)
            (λ m. record m { status = expired; updated_at = now })
            ms))
      ≡ count_kept is ms
unfolding update_where
count-expired is now [] = refl
count-expired is now (m ∷ ms) = elim (Bool-cases (any (λ i. m.id == i) is)) [
  | inl e ↦ rw e (ground (arith, count-expired is now ms))
  | inr e ↦ elim (Bool-cases (is_active m)) [
    | inl a ↦ rw e (rw a (ap suc (count-expired is now ms)))
    | inr a ↦ rw e (rw a (count-expired is now ms))
  ]
]
