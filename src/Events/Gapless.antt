-- ===== src/Events/Gapless.antt =====
-- The sequence numbers of a run's ledger are 1, 2, 3, … without a gap, and `emit` keeps them so.
use atlas_the_agent.Base.{
  ℕ, ◌+◌, ◌≡◌, refl, max, true, false, ◌&&◌, List, [], ◌∷◌, ◌++◌, map, filter, length, Bool-cases,
  ltb, inl, inr, ◌==◌, arith,
}
use atlas_the_agent.Core.Json.{Fields}
use atlas_the_agent.Events.Types.{EventType, Event}
use atlas_the_agent.Persistence.Tables.{Database, order_by}
use atlas_the_agent.Persistence.Ledger.{max_seq, list_after}
use atlas_the_agent.Recovery.Replay.{unpack, seqs, counts_from, sequence_is_intact}
use atlas_the_agent.Process.{emit_to}

-- The events of a run, in the order of the table.
abbrev pub of_run : ℕ → List Event → List Event
of_run r es = filter (λ e. e.run_id == r) es

-- Numbered from `n` on.
abbrev pub Numbered : ℕ → List Event → Type 0
Numbered n [] = Unit
Numbered n (e ∷ es) = (e.seq ≡ n) × Numbered (n + 1) es

abbrev pub IsGapless : ℕ → List Event → Type 0
IsGapless r es = Numbered 1 (of_run r es)

-- The largest number of a run, if its events are numbered from `n + 1` on.
pub max_seq-Numbered :
    (r n : ℕ) (es : List Event)
    → Numbered (n + 1) (of_run r es)
    → max n (max_seq r es) ≡ n + length (of_run r es)
unfolding max_seq
max_seq-Numbered r n [] h = omega arith
max_seq-Numbered r n (e ∷ es) h = elim (Bool-cases (e.run_id == r)) [
  | inl mine ↦ rw mine (
      let k : (e.seq ≡ n + 1) × Numbered (n + 1 + 1) (of_run r es) = rw mine at h in
      omega (arith, k.0, max_seq-Numbered r (n + 1) es k.1))
  | inr other ↦ rw other (max_seq-Numbered r n es (rw other at h))
]

Numbered-append :
    (n : ℕ) (xs : List Event) (y : Event)
    → Numbered n xs
    → y.seq ≡ n + length xs
    → Numbered n (xs ++ y ∷ [])
Numbered-append n [] y h e = (omega (arith, e), tt)
Numbered-append n (x ∷ xs) y h e = (h.0, Numbered-append (n + 1) xs y h.1 (omega (arith, e)))

pub of_run-append_mine :
    (r : ℕ) (es : List Event) (y : Event)
    → (y.run_id == r) ≡ true
    → of_run r (es ++ y ∷ []) ≡ of_run r es ++ y ∷ []
of_run-append_mine r [] y h = rw h
of_run-append_mine r (e ∷ es) y h = ground (arith, of_run-append_mine r es y h)

pub of_run-append_other :
    (r : ℕ) (es : List Event) (y : Event)
    → (y.run_id == r) ≡ false
    → of_run r (es ++ y ∷ []) ≡ of_run r es
of_run-append_other r [] y h = rw h
of_run-append_other r (e ∷ es) y h = ground (arith, of_run-append_other r es y h)

-- An event emitted for any run leaves the ledger of every run without a gap.
pub emit-IsGapless :
    (q r : ℕ) (type : EventType) (payload : Fields) (db : Database)
    → IsGapless r db.events
    → IsGapless r (emit_to q type payload db).1.events
unfolding emit_to
emit-IsGapless q r type payload db h = elim (Bool-cases (q == r)) [
  | inl mine ↦ rw (of_run-append_mine r db.events (emit_to q type payload db).0 mine) (
      Numbered-append 1 (of_run r db.events) (emit_to q type payload db).0 h
        (ground (arith, mine, max_seq-Numbered r 0 db.events h)))
  | inr other ↦ rw (of_run-append_other r db.events (emit_to q type payload db).0 other) h
]

-- The rows that `list_after` picks, as long as the numbers are positive.
positive-of_run :
    (r n : ℕ) (es : List Event)
    → Numbered (n + 1) (of_run r es)
    → filter (λ e. e.run_id == r && ltb 0 e.seq) es ≡ of_run r es
positive-of_run r n [] h = refl
positive-of_run r n (e ∷ es) h = elim (Bool-cases (e.run_id == r)) [
  | inl mine ↦
      (let k : (e.seq ≡ n + 1) × Numbered (n + 1 + 1) (of_run r es) = rw mine at h in
        ground (arith, mine, k.0, positive-of_run r (n + 1) es k.1))
  | inr other ↦ ground (arith, other, positive-of_run r n es (rw other at h))
]

pub order_by-Numbered : (n : ℕ) (es : List Event) → Numbered n es → order_by (λ e. e.seq) es ≡ es
unfolding order_by
order_by-Numbered n [] h = refl
order_by-Numbered n (e ∷ []) h = refl
order_by-Numbered n (e ∷ f ∷ es) h =
    rw (order_by-Numbered (n + 1) (f ∷ es) h.1) (ground (arith, h.0, h.1.0))

seqs-Numbered :
    (n : ℕ) (es : List Event) → Numbered n es → counts_from n (seqs (map unpack es)) ≡ true
unfolding seqs counts_from
seqs-Numbered n [] h = refl
seqs-Numbered n (e ∷ es) h = ground (arith, h.0, seqs-Numbered (n + 1) es h.1)

-- What `list_after` returns of a ledger without a gap: the run's events as they were appended.
pub list_after-IsGapless :
    (r : ℕ) (db : Database) → IsGapless r db.events → list_after r 0 db ≡ of_run r db.events
unfolding list_after
list_after-IsGapless r db h =
    rw (positive-of_run r 0 db.events h) (order_by-Numbered 1 (of_run r db.events) h)

-- A ledger without a gap passes the check of the replay.
pub IsGapless-intact :
    (r : ℕ) (db : Database)
    → IsGapless r db.events
    → sequence_is_intact (map unpack (list_after r 0 db)) ≡ true
unfolding sequence_is_intact
IsGapless-intact r db h = rw (list_after-IsGapless r db h) (seqs-Numbered 1 (of_run r db.events) h)
