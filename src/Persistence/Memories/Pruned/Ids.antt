-- ===== src/Persistence/Memories/Pruned/Ids.antt =====
-- The ids of the memories that `prune` picks, and of those that are pinned.
use atlas_the_agent.Base.{
  ℕ, ◌+◌, ◌≤◌, suc, ◌≡◌, refl, Bool, true, false, ◌&&◌, Bool-cases, inl, inr, List, [], ◌∷◌, All,
  All-mono, All-filter, All-kept, All-take, any, filter, map, take, length, ◌==◌, arith,
}
use atlas_the_agent.Core.Arithmetic.{Arithmetic}
use atlas_the_agent.Memory.Schemas.{MemoryView}
use atlas_the_agent.Persistence.Memories.{is_active}
use atlas_the_agent.Persistence.Memories.Retention.{is_stale}
use atlas_the_agent.Persistence.Memories.Counted.{held_other, is_loose, IsKeyed, IsDistinct, IsHeld}

abbrev pub is_pinned : MemoryView → Bool
is_pinned m = is_active m && m.pinned

pub length-filter-pinned :
    (ms : List MemoryView)
    → length (filter is_loose ms) + length (filter is_pinned ms) ≡ length (filter is_active ms)
length-filter-pinned [] = refl
length-filter-pinned (m ∷ ms) = ground (arith, length-filter-pinned ms)

pub length-filter_twice :
    (p : MemoryView → Bool) (ms : List MemoryView)
    → length (filter is_active (filter p ms)) ≤ length (filter is_active ms)
length-filter_twice p [] = omega arith
length-filter_twice p (m ∷ ms) = elim (Bool-cases (p m)) [
  | inl e ↦ rw e (ground (arith, length-filter_twice p ms))
  | inr e ↦ rw e (ground (arith, length-filter_twice p ms))
]

pub filter-IsKeyed :
    (p : MemoryView → Bool) (ms : List MemoryView) → IsKeyed ms → IsKeyed (filter p ms)
filter-IsKeyed p [] k = tt
filter-IsKeyed p (m ∷ ms) k = elim (Bool-cases (p m)) [
  | inl e ↦ rw e (All-filter (λ n. (n.id == m.id) ≡ false) p ms k.0, filter-IsKeyed p ms k.1)
  | inr e ↦ rw e (filter-IsKeyed p ms k.1)
]

-- What the filter leaves is held by the whole list.
pub filter-IsHeld : (ms : List MemoryView) → All (λ m. IsHeld m.id ms) (filter is_loose ms)
filter-IsHeld [] = tt
filter-IsHeld (m ∷ ms) =
    let later =
      All-mono (λ n. IsHeld n.id ms) (λ n. IsHeld n.id (m ∷ ms)) (filter is_loose ms) (λ n h. inr h)
        (filter-IsHeld ms) in
    All-kept (λ n. IsHeld n.id (m ∷ ms)) (is_loose m) m (filter is_loose ms)
      (λ e. inl (ground arith, e)) later

pub All-ids :
    (P : ℕ → Type 0) (ms : List MemoryView) → All (λ m. P m.id) ms → All P (map (λ m. m.id) ms)
All-ids P [] h = tt
All-ids P (m ∷ ms) h = (h.0, All-ids P ms h.1)

pub ids-IsDistinct : (ms : List MemoryView) → IsKeyed ms → IsDistinct (map (λ m. m.id) ms)
ids-IsDistinct [] k = tt
ids-IsDistinct (m ∷ ms) k = (
  All-ids (λ j. (m.id == j) ≡ false) ms
      (All-mono (λ n. (n.id == m.id) ≡ false) (λ n. (m.id == n.id) ≡ false) ms
        (λ n h. ground (arith, h)) k.0),
  ids-IsDistinct ms k.1,
)

pub take-IsKeyed : (n : ℕ) (ms : List MemoryView) → IsKeyed ms → IsKeyed (take n ms)
take-IsKeyed ℕ.zero ms k = tt
take-IsKeyed (suc n) [] k = tt
take-IsKeyed (suc n) (m ∷ ms) k =
    (All-take (λ x. (x.id == m.id) ≡ false) n ms k.0, take-IsKeyed n ms k.1)

-- An id that a row holds which is not pinned is not that of a pinned row.
unpinned :
    (i : ℕ) (ms : List MemoryView)
    → IsKeyed ms
    → IsHeld i ms
    → All (λ m. is_pinned m ≡ true → (m.id == i) ≡ false) ms
unpinned i [] k h = tt
unpinned i (m ∷ ms) k (inl (e, loose)) = (
  λ p. ground (arith, p, loose),
  All-mono (λ n. (n.id == m.id) ≡ false) (λ n. is_pinned n ≡ true → (n.id == i) ≡ false) ms
      (λ n h p. ground (arith, h, e)) k.0,
)
unpinned i (m ∷ ms) k (inr h) = (λ p. held_other i m.id ms h k.0, unpinned i ms k.1 h)

pub unpinned-All :
    (is : List ℕ) (ms : List MemoryView)
    → IsKeyed ms
    → All (λ i. IsHeld i ms) is
    → All (λ m. is_pinned m ≡ true → any (λ i. m.id == i) is ≡ false) ms
unpinned-All [] ms k h = none_of ms
  where
    none_of : (ms : List MemoryView) → All (λ m. is_pinned m ≡ true → ◌≡◌ {A = Bool} false false) ms
    none_of [] = tt
    none_of (m ∷ ms) = (λ p. refl, none_of ms)
unpinned-All (i ∷ is) ms k h = both ms (unpinned i ms k h.0) (unpinned-All is ms k h.1)
  where
    both :
        (ns : List MemoryView)
        → All (λ m. is_pinned m ≡ true → (m.id == i) ≡ false) ns
        → All (λ m. is_pinned m ≡ true → any (λ j. m.id == j) is ≡ false) ns
        → All (λ m. is_pinned m ≡ true → any (λ j. m.id == j) (i ∷ is) ≡ false) ns
    both [] a b = tt
    both (n ∷ ns) a b = (λ p. rw (a.0 p) (b.0 p), both ns a.1 b.1)

pub pinned_is_fresh :
    (ar : Arithmetic) (days now : ℕ) (m : MemoryView)
    → is_pinned m ≡ true
    → is_stale ar days now m ≡ false
pinned_is_fresh ar days now m h = ground (arith, h)
