-- ===== src/Api/Stream/Windows.antt =====
-- Windows of a numbered ledger: the events behind one cursor and up to another.
use atlas_the_agent.Base.{
  ℕ, ◌+◌, ◌-◌, ◌≤◌, ◌<◌, ◌≡◌, refl, sym, max, subst, ◌∙◌, ap, Bool, Bool-cases, inl, inr, List, [],
  ◌∷◌, ◌++◌, filter, length, leb, ltb, ◌&&◌, ◌==◌, arith,
}
use atlas_the_agent.Events.Types.{Event}
use atlas_the_agent.Events.Gapless.{Numbered, of_run, IsGapless, order_by-Numbered}
use atlas_the_agent.Persistence.Tables.{Database}
use atlas_the_agent.Persistence.Ledger.{list_after}

-- `seq > a`
abbrev pub behind : ℕ → List Event → List Event
behind a es = filter (λ e. ltb a e.seq) es

abbrev pub up_to : ℕ → List Event → List Event
up_to b es = filter (λ e. leb e.seq b) es

abbrev pub window : ℕ → ℕ → List Event → List Event
window a b es = up_to b (behind a es)

filter-append :
    {A : Type 0} (p : A → Bool) (xs ys : List A) → filter p (xs ++ ys) ≡ filter p xs ++ filter p ys
filter-append p [] ys = refl
filter-append p (x ∷ xs) ys = elim (Bool-cases (p x)) [
  | inl e ↦ rw (e, filter-append p xs ys) refl
  | inr e ↦ rw (e, filter-append p xs ys) refl
]

pub window-append :
    (a b : ℕ) (xs ys : List Event) → window a b (xs ++ ys) ≡ window a b xs ++ window a b ys
window-append a b xs ys =
    rw (filter-append (λ e. ltb a e.seq) xs ys)
      (filter-append (λ e. leb e.seq b) (behind a xs) (behind a ys))

-- Nothing lies behind its end, or before its beginning.
pub window_beyond : (a b n : ℕ) (es : List Event) → Numbered n es → b < n → window a b es ≡ []
window_beyond a b n [] h lt = refl
window_beyond a b n (e ∷ es) h lt =
    ground (arith, h.0, lt, window_beyond a b (n + 1) es h.1 (omega (arith, lt)))

pub window_whole :
    (a b n : ℕ) (es : List Event)
    → Numbered n es
    → n + length es ≤ b + 1
    → window a b es ≡ behind a es
window_whole a b n [] h le = refl
window_whole a b n (e ∷ es) h le =
    ground (arith, h.0, le, window_whole a b (n + 1) es h.1 (omega (arith, le)))

pub up_to_beyond : (b n : ℕ) (es : List Event) → Numbered n es → b < n → up_to b es ≡ []
up_to_beyond b n [] h lt = refl
up_to_beyond b n (e ∷ es) h lt =
    ground (arith, h.0, lt, up_to_beyond b (n + 1) es h.1 (omega (arith, lt)))

-- The part of a numbered ledger behind a cursor is numbered.
behind-Numbered :
    (a n : ℕ) (es : List Event) → Numbered n es → Numbered (max n (a + 1)) (behind a es)
behind-Numbered a n [] h = tt
behind-Numbered a n (e ∷ es) h =
    let later = behind-Numbered a (n + 1) es h.1 in
    elim (Bool-cases (ltb a e.seq)) [
      | inl k ↦ rw k (
        (ground (arith, h.0, k)),
        subst (λ m. Numbered m (behind a es)) (ground (arith, h.0, k)) later,
      )
      | inr k ↦ rw k (subst (λ m. Numbered m (behind a es)) (ground (arith, h.0, k)) later)
    ]

pub ledger_behind : (a : ℕ) (es : List Event) → Numbered 1 es → Numbered (a + 1) (behind a es)
ledger_behind a es h =
    subst (λ m. Numbered m (behind a es)) (ground arith) (behind-Numbered a 1 es h)

picked :
    (r a : ℕ) (es : List Event)
    → filter (λ e. e.run_id == r && ltb a e.seq) es ≡ behind a (of_run r es)
picked r a [] = refl
picked r a (e ∷ es) = ground (arith, picked r a es)

-- What `list_after` returns of a ledger without a gap.
pub list_after-behind :
    (r a : ℕ) (db : Database)
    → IsGapless r db.events
    → list_after r a db ≡ behind a (of_run r db.events)
unfolding list_after
list_after-behind r a db h = rw (picked r a db.events) (
    order_by-Numbered (a + 1) (behind a (of_run r db.events))
      (ledger_behind a (of_run r db.events) h))

-- The event at the end of a part of the ledger has the number behind it.
pub Numbered-next :
    (n : ℕ) (xs : List Event) (e : Event) (ys : List Event)
    → Numbered n (xs ++ e ∷ ys)
    → (e.seq ≡ n + length xs) × Numbered n xs × Numbered (n + length xs + 1) ys
Numbered-next n [] e ys h = (omega (arith, h.0), tt, subst (λ m. Numbered m ys) (omega arith) h.1)
Numbered-next n (x ∷ xs) e ys h =
    let k = Numbered-next (n + 1) xs e ys h.1 in
    (omega (arith, k.0), (h.0, k.1), subst (λ m. Numbered m ys) (omega arith) k.2)

append_nil : (xs : List Event) → xs ++ [] ≡ xs
append_nil [] = refl
append_nil (x ∷ xs) = ap (λ l. x ∷ l) (append_nil xs)

-- Moving the end of a window over the next event adds that event.
module _ (a : ℕ) (xs : List Event) (e : Event) (ys : List Event) (h : Numbered 1 (xs ++ e ∷ ys))
    (le : a ≤ length xs) where
  head_now : window a e.seq (e ∷ ys) ≡ e ∷ []
  head_now =
      let k = Numbered-next 1 xs e ys h in
      ground (arith, le, k.0, window_beyond a e.seq (1 + length xs + 1) ys k.2 (omega (arith, k.0)))

  head_before : window a (length xs) (e ∷ ys) ≡ []
  head_before =
      let k = Numbered-next 1 xs e ys h in
      ground (arith, k.0, window_beyond a (length xs) (1 + length xs + 1) ys k.2 (omega arith))

  now : window a e.seq (xs ++ e ∷ ys) ≡ behind a xs ++ e ∷ []
  now =
      let k = Numbered-next 1 xs e ys h in
      let whole = window_whole a e.seq 1 xs k.1 (omega (arith, k.0)) in
      window-append a e.seq xs (e ∷ ys) ∙ (λ i. whole i ++ head_now i)

  before : window a (length xs) (xs ++ e ∷ ys) ≡ behind a xs
  before =
      let k = Numbered-next 1 xs e ys h in
      let whole = window_whole a (length xs) 1 xs k.1 (omega arith) in
      window-append a (length xs) xs (e ∷ ys)
      ∙ (λ i. whole i ++ head_before i)
      ∙ append_nil (behind a xs)

  pub window_next : window a e.seq (xs ++ e ∷ ys) ≡ window a (length xs) (xs ++ e ∷ ys) ++ e ∷ []
  window_next = now ∙ ap (λ l. l ++ e ∷ []) (sym before)

length-behind_from :
    (a n : ℕ) (es : List Event)
    → Numbered n es
    → length (behind a es) ≡ n + length es - max n (a + 1)
length-behind_from a n [] h = omega arith
length-behind_from a n (e ∷ es) h = ground (arith, h.0, length-behind_from a (n + 1) es h.1)

pub length-behind : (a : ℕ) (es : List Event) → Numbered 1 es → length (behind a es) ≡ length es - a
length-behind a es h = omega (arith, length-behind_from a 1 es h)
