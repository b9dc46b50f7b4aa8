-- ===== src/Api/Routes/Kept.antt =====
-- What a user pins or deletes through the routes, and what is left of it.
use atlas_the_agent.Base.{
  ℕ, ◌≡◌, refl, sym, ap, ◌∙◌, subst, Bool, true, false, not, Bool-cases, Option, none, some, inl,
  inr, List, [], ◌∷◌, All, any, filter, arith, ◌==◌, if◌then◌else◌,
}
use atlas_the_agent.Core.Arithmetic.{Arithmetic}
use atlas_the_agent.Memory.Schemas.{MemoryView, expired}
use atlas_the_agent.Persistence.Tables.{Database, update_where}
use atlas_the_agent.Persistence.Memories
use atlas_the_agent.Persistence.Memories.{
  pin_found, delete_found, pin_row, has_id, is_active, find_memory, set_pinned,
}
use atlas_the_agent.Persistence.Memories.Retention.{is_stale, evicted, prune}
use atlas_the_agent.Persistence.Memories.Counted.{IsAbsent, IsKeyed}
use atlas_the_agent.Persistence.Memories.Pruned.{
  expire_row, is_pinned, evicted-IsHeld, unpinned-All, pinned_is_fresh,
}
use atlas_the_agent.Api.Routes.{
  Response, body, memory_not_found, if_found, deleted, get_memory, pin_memory, delete_memory,
}

find_memory-pin :
    (i : ℕ) (pinned : Bool) (now : ℕ) (ms : List MemoryView) (m : MemoryView)
    → find_memory (has_id i) ms ≡ some m
    → find_memory (has_id i) (update_where (has_id i) (pin_row pinned now) ms)
      ≡ some (pin_row pinned now m)
unfolding find_memory update_where
find_memory-pin i pinned now [] m h = ground (arith, h)
find_memory-pin i pinned now (n ∷ ms) m h = elim (Bool-cases (has_id i n)) [
  | inl e ↦ rw e (rw e (ap (λ o. pinned_of o) (rw e at h)))
  | inr e ↦ rw e (rw e (find_memory-pin i pinned now ms m (rw e at h)))
]
  where
    pinned_of : Option MemoryView → Option MemoryView
    pinned_of none = none
    pinned_of (some x) = some (pin_row pinned now x)

IsAbsent-pin :
    (i j : ℕ) (pinned : Bool) (now : ℕ) (ms : List MemoryView)
    → IsAbsent j ms
    → IsAbsent j (update_where (has_id i) (pin_row pinned now) ms)
unfolding update_where
IsAbsent-pin i j pinned now [] h = tt
IsAbsent-pin i j pinned now (m ∷ ms) h = elim (Bool-cases (has_id i m)) [
  | inl e ↦ rw e (h.0, IsAbsent-pin i j pinned now ms h.1)
  | inr e ↦ rw e (h.0, IsAbsent-pin i j pinned now ms h.1)
]

IsKeyed-pin :
    (i : ℕ) (pinned : Bool) (now : ℕ) (ms : List MemoryView)
    → IsKeyed ms
    → IsKeyed (update_where (has_id i) (pin_row pinned now) ms)
unfolding update_where
IsKeyed-pin i pinned now [] h = tt
IsKeyed-pin i pinned now (m ∷ ms) h = elim (Bool-cases (has_id i m)) [
  | inl e ↦ rw e (IsAbsent-pin i m.id pinned now ms h.0, IsKeyed-pin i pinned now ms h.1)
  | inr e ↦ rw e (IsAbsent-pin i m.id pinned now ms h.0, IsKeyed-pin i pinned now ms h.1)
]

find_memory_skip :
    (i : ℕ) (q : MemoryView → Bool) (m : MemoryView) (ms : List MemoryView)
    → has_id i m ≡ false
    → find_memory (has_id i) (filter q (m ∷ ms)) ≡ find_memory (has_id i) (filter q ms)
unfolding find_memory
find_memory_skip i q m ms h = elim (Bool-cases (q m)) [
  | inl e ↦ rw e (rw h refl)
  | inr e ↦ rw e refl
]

other_row :
    (b : Bool) (now i : ℕ) (m : MemoryView)
    → has_id i m ≡ false
    → has_id i (expire_row b now m) ≡ false
other_row true now i m h = h
other_row false now i m h = h

-- A pinned row that is active is found where it was after the update and the deletion of `prune`.
find_memory-pruned :
    (ar : Arithmetic) (gone : List ℕ) (days now i : ℕ) (ms : List MemoryView) (m : MemoryView)
    → All (λ n. is_pinned n ≡ true → any (λ j. n.id == j) gone ≡ false) ms
    → find_memory (has_id i) ms ≡ some m
    → is_pinned m ≡ true
    → find_memory (has_id i) (
        filter
          (λ n. not (is_stale ar days now n))
          (update_where
            (λ n. any (λ j. n.id == j) gone)
            (λ n. record n { status = expired; updated_at = now })
            ms))
      ≡ some m
unfolding find_memory update_where
find_memory-pruned ar gone days now i [] m h f p = ground (arith, f)
find_memory-pruned ar gone days now i (n ∷ ms) m h f p = elim (Bool-cases (has_id i n)) [
  | inl e ↦
      let same : some n ≡ some m = rw e at f in
      let pinned : is_pinned n ≡ true = subst is_pinned_row (sym same) p in
      rw (h.0 pinned) (rw (pinned_is_fresh ar days now n pinned) (rw e same))
  | inr e ↦
      find_memory_skip i (λ x. not (is_stale ar days now x))
        (expire_row (any (λ j. n.id == j) gone) now n)
        (update_where (λ x. any (λ j. x.id == j) gone)
          (λ x. record x { status = expired; updated_at = now }) ms)
        (other_row (any (λ j. n.id == j) gone) now i n e)
      ∙ find_memory-pruned ar gone days now i ms m h.1 (rw e at f) p
]
  where
    is_pinned_row : Option MemoryView → Type 0
    is_pinned_row none = ⊥
    is_pinned_row (some x) = is_pinned x ≡ true

body_inj : {A : Type 0} (a b : A) → ◌≡◌ {A = Response A} (body a) (body b) → a ≡ b
body_inj a b h = cc

find_memory-filter :
    (i j : ℕ) (ms : List MemoryView)
    → find_memory (has_id j) (filter (λ n. not (n.id == i)) ms)
      ≡ (if j == i then none else find_memory (has_id j) ms)
unfolding find_memory
find_memory-filter i j [] = ground arith
find_memory-filter i j (m ∷ ms) = ground (arith, find_memory-filter i j ms)

module _ (ar : Arithmetic) (i now : ℕ) (db : Database) (keyed : IsKeyed db.memories) where
  -- What `prune` does behind `set_pinned`, the row being `n` before.
  pruned_lem :
      (max_records expiry_days later : ℕ) (n m : MemoryView)
      → find_memory (has_id i) db.memories ≡ some n
      → pin_row true now n ≡ m
      → is_active m ≡ true
      → get_memory i (prune ar max_records expiry_days later (pin_found i true now db (some n)).1).1
        ≡ body m
  unfolding get_memory Memories.get_memory prune
  pruned_lem max_records expiry_days later n m e same live =
      let left : Database = (pin_found i true now db (some n)).1 in
      let ids : IsKeyed left.memories = IsKeyed-pin i true now db.memories keyed in
      ap (if_found memory_not_found (λ x. x)) (
        find_memory-pruned ar (evicted ar max_records later left) expiry_days later i left.memories
          m
          (unpinned-All (evicted ar max_records later left) left.memories ids
            (evicted-IsHeld ar later max_records expiry_days left ids))
          (find_memory-pin i true now db.memories n e ∙ ap some same)
          (subst (λ x. is_active x ≡ true → is_pinned x ≡ true) same (λ h. ground (arith, h)) live))

  -- A memory that was pinned through its route, and is active, is there as it was after a `prune`,
  -- whatever its bounds and its time. Memories have ids of their own.
  pub get_memory-prune :
      (max_records expiry_days later : ℕ) (m : MemoryView)
      → (pin_memory i true now db).0 ≡ body m
      → is_active m ≡ true
      → get_memory i (prune ar max_records expiry_days later (pin_memory i true now db).1).1
        ≡ body m
  unfolding pin_memory set_pinned
  get_memory-prune max_records expiry_days later m pinned live =
      from_found (find_memory (has_id i) db.memories) refl pinned
    where
      from_found :
          (o : Option MemoryView)
          → find_memory (has_id i) db.memories ≡ o
          → if_found memory_not_found (λ x. x) (pin_found i true now db o).0 ≡ body m
          → get_memory i (prune ar max_records expiry_days later (pin_found i true now db o).1).1
            ≡ body m
      from_found none e h = ground (arith, h)
      from_found (some n) e h =
          pruned_lem max_records expiry_days later n m e (body_inj (pin_row true now n) m h) live

same_lem : (i j : ℕ) → (j == i) ≡ true → i ≡ j
same_lem i j e = ground arith

self_lem : {A : Type 0} (i : ℕ) (a b : A) → (if i == i then a else b) ≡ a
self_lem i a b = ground arith

absent_lem :
    (i j : ℕ) (ms : List MemoryView)
    → find_memory (has_id i) ms ≡ none
    → find_memory (has_id j) ms ≡ (if j == i then none else find_memory (has_id j) ms)
absent_lem i j ms h = elim (Bool-cases (j == i)) [
  | inl e ↦ rw e (subst (λ k. find_memory (has_id k) ms ≡ none) (same_lem i j e) h)
  | inr e ↦ rw e refl
]

module _ (i : ℕ) (db : Database) where
  -- What the routes find behind a deletion, the row being `o` before.
  deleted_lem :
      (o : Option MemoryView)
      → find_memory (has_id i) db.memories ≡ o
      → (j : ℕ)
      → find_memory (has_id j) (deleted (delete_found i db o)).1.memories
        ≡ (if j == i then none else find_memory (has_id j) db.memories)
  deleted_lem none h j = absent_lem i j db.memories h
  deleted_lem (some n) h j = find_memory-filter i j db.memories

  answer_lem :
      (o : Option MemoryView)
      → (deleted (delete_found i db o)).0 ≡ if_found memory_not_found (λ m. tt) o
  answer_lem none = refl
  answer_lem (some n) = refl

  -- The route that deletes a memory answers 204 if the memory is there and 404 if not, and 404 if it is
  -- asked once more; behind it, the memory is not found, and every other one is found as it was.
  pub get_memory-delete_memory :
      (j : ℕ)
      → let left = (delete_memory i db).1 in
        ((delete_memory i db).0 ≡ if_found memory_not_found (λ m. tt) (Memories.get_memory i db))
        × ((delete_memory i left).0 ≡ memory_not_found)
        × (get_memory j left ≡ (if j == i then memory_not_found else get_memory j db))
  unfolding delete_memory Memories.delete_memory Memories.get_memory get_memory
  get_memory-delete_memory j =
      let o = find_memory (has_id i) db.memories in
      let left = (deleted (delete_found i db o)).1 in
      let gone : find_memory (has_id i) left.memories ≡ none =
        deleted_lem o refl i ∙ self_lem i none (find_memory (has_id i) db.memories) in
      (answer_lem o, rw gone refl, rw (deleted_lem o refl j) (cond_lem j))
    where
      cond_lem :
          (j : ℕ)
          → if_found memory_not_found
              (λ m. m)
              (if j == i then none else find_memory (has_id j) db.memories)
            ≡ (if j == i
                then memory_not_found
                else if_found memory_not_found (λ m. m) (find_memory (has_id j) db.memories))
      cond_lem j = elim (Bool-cases (j == i)) [ inl e ↦ rw e refl | inr e ↦ rw e refl ]
