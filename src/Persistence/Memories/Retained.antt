-- ===== src/Persistence/Memories/Retained.antt =====
-- The order of retention: what sorting the candidates of `prune` keeps.
use atlas_the_agent.Base.{
  ℕ, suc, ◌≡◌, refl, ap, ◌∙◌, false, Bool-cases, inl, inr, List, [], ◌∷◌, All, length, ◌==◌, arith,
}
use atlas_the_agent.Core.Json.{ltb_float}
use atlas_the_agent.Core.Arithmetic.{Arithmetic}
use atlas_the_agent.Memory.Schemas.{MemoryView}
use atlas_the_agent.Persistence.Memories.Retention.{insert_retained, by_retention, retention_key}
use atlas_the_agent.Persistence.Memories.Counted.{IsAbsent, IsKeyed}

module _ (ar : Arithmetic) (now : ℕ) where
  pub All-insert_retained :
      (P : MemoryView → Type 0) (m : MemoryView) (ns : List MemoryView)
      → P m
      → All P ns
      → All P (insert_retained ar now m ns)
  unfolding insert_retained
  All-insert_retained P m [] h k = (h, tt)
  All-insert_retained P m (n ∷ ns) h k =
      elim (Bool-cases (ltb_float (retention_key ar now n) (retention_key ar now m))) [
        | inl e ↦ rw e (k.0, All-insert_retained P m ns h k.1)
        | inr e ↦ rw e (h, k)
      ]

  pub All-by_retention :
      (P : MemoryView → Type 0) (ms : List MemoryView) → All P ms → All P (by_retention ar now ms)
  unfolding by_retention
  All-by_retention P [] h = tt
  All-by_retention P (m ∷ ms) h =
      All-insert_retained P m (by_retention ar now ms) h.0 (All-by_retention P ms h.1)

  pub insert_retained-IsKeyed :
      (m : MemoryView) (ns : List MemoryView)
      → IsAbsent m.id ns
      → IsKeyed ns
      → IsKeyed (insert_retained ar now m ns)
  unfolding insert_retained
  insert_retained-IsKeyed m [] a k = (tt, tt)
  insert_retained-IsKeyed m (n ∷ ns) a k =
      elim (Bool-cases (ltb_float (retention_key ar now n) (retention_key ar now m))) [
        | inl e ↦ rw e (
          All-insert_retained (λ x. (x.id == n.id) ≡ false) m ns (ground (arith, a.0)) k.0,
          insert_retained-IsKeyed m ns a.1 k.1,
        )
        | inr e ↦ rw e (a, k)
      ]

  pub by_retention-IsKeyed : (ms : List MemoryView) → IsKeyed ms → IsKeyed (by_retention ar now ms)
  unfolding by_retention
  by_retention-IsKeyed [] k = tt
  by_retention-IsKeyed (m ∷ ms) k =
      insert_retained-IsKeyed m (by_retention ar now ms)
        (All-by_retention (λ n. (n.id == m.id) ≡ false) ms k.0) (by_retention-IsKeyed ms k.1)

  pub length-insert_retained :
      (m : MemoryView) (ns : List MemoryView)
      → length (insert_retained ar now m ns) ≡ suc (length ns)
  unfolding insert_retained
  length-insert_retained m [] = refl
  length-insert_retained m (n ∷ ns) =
      elim (Bool-cases (ltb_float (retention_key ar now n) (retention_key ar now m))) [
        | inl e ↦ rw e (ap suc (length-insert_retained m ns))
        | inr e ↦ rw e refl
      ]

  pub length-by_retention : (ms : List MemoryView) → length (by_retention ar now ms) ≡ length ms
  unfolding by_retention
  length-by_retention [] = refl
  length-by_retention (m ∷ ms) =
      length-insert_retained m (by_retention ar now ms) ∙ ap suc (length-by_retention ms)
