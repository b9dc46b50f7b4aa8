-- ===== src/Runtime/Manager/Once/Rules.antt =====
-- How an action ends a run at most once: rules, one for each way to build an action.
use atlas_the_agent.Base.{
  ℕ, ◌+◌, ◌≡◌, refl, sym, subst, ap, ◌∙◌, Bool, true, false, Bool-cases, inl, inr, Option, none,
  some, List, [], ◌∷◌, ◌++◌, filter, length, on_option, ◌==◌, if◌then◌else◌, arith,
}
use atlas_the_agent.Core.Json.{Fields}
use atlas_the_agent.Events.Types.{EventType, Event}
use atlas_the_agent.Events.Gapless.{of_run, of_run-append_mine, of_run-append_other}
use atlas_the_agent.Persistence.Tables.{Database}
use atlas_the_agent.Persistence.Ledger.{append}
use atlas_the_agent.Api.Stream.{ends_stream}
use atlas_the_agent.Process.{
  Exc, Result, ok, err, World, Action, pure, raise, ◌>>=◌, catch, emit_to,
}
use atlas_the_agent.Process.Keeps.{Keeps, IsAside, BearsSessions, is_turning}
use atlas_the_agent.Process.Triple.{
  Post, Triple, Triple-if, Triple-bind, Triple-catch, Triple-pure, Triple-raise,
}

-- The events that end a run: how many there are of the run.
abbrev pub endings : ℕ → List Event → ℕ
endings r es = length (filter (λ e. ends_stream e.type) (of_run r es))

abbrev pub HasEndings : ℕ → ℕ → World → Type 0
HasEndings r n w = endings r w.db.events ≡ n

ending-append :
    (es : List Event) (e : Event)
    → length (filter (λ e. ends_stream e.type) (es ++ e ∷ []))
      ≡ length (filter (λ e. ends_stream e.type) es) + (if ends_stream e.type then 1 else 0)
ending-append [] e = ground arith
ending-append (f ∷ es) e = ground (arith, ending-append es e)

-- An event that ends the run is one more, and one that does not turn a run changes nothing.
pub endings-emit_to :
    (r : ℕ) (type : EventType) (payload : Fields) (db : Database)
    → ends_stream type ≡ true
    → endings r (emit_to r type payload db).1.events ≡ endings r db.events + 1
unfolding emit_to append
endings-emit_to r type payload db ends =
    let e = (emit_to r type payload db).0 in
    ap (λ l. length (filter (λ e. ends_stream e.type) l))
      (of_run-append_mine r db.events e (ground arith))
    ∙ ground (arith, ends, ending-append (of_run r db.events) e)

ends_calm : (type : EventType) → is_turning type ≡ false → ends_stream type ≡ false
ends_calm EventType.run_completed h = ground (arith, h)
ends_calm EventType.run_failed h = ground (arith, h)
ends_calm EventType.run_cancelled h = ground (arith, h)
ends_calm _ h = refl

pub endings_calm :
    (r q : ℕ) (type : EventType) (payload : Fields) (db : Database)
    → ends_stream type ≡ false
    → endings r (emit_to q type payload db).1.events ≡ endings r db.events
unfolding emit_to append
endings_calm r q type payload db calm =
    let e = (emit_to q type payload db).0 in
    elim (Bool-cases (q == r)) [
      | inl mine ↦
          ap (λ l. length (filter (λ e. ends_stream e.type) l))
            (of_run-append_mine r db.events e mine)
          ∙ ground (arith, calm, ending-append (of_run r db.events) e)
      | inr other ↦
          ap (λ l. length (filter (λ e. ends_stream e.type) l))
            (of_run-append_other r db.events e other)
    ]

module _ (r n : ℕ) where
  pub HasEndings-aside : IsAside (HasEndings r n)
  HasEndings-aside = record {
    at_emit =
        λ q type payload w calm h. endings_calm r q type payload w.db (ends_calm type calm) ∙ h;
    at_model = λ c b w e h. h;
    at_tool = λ b w e h. h;
    at_retry = λ t w h. h;
    at_replan = λ w h. h;
    at_tick = λ n w h. h;
    at_memories = λ ms w h. h;
    at_lessons = λ l w h. h;
  }

  pub HasEndings-sessions : BearsSessions (HasEndings r n)
  HasEndings-sessions = record { at_session = λ d w e h. ap (endings r) e ∙ h }

-- No event has ended the run, or one has.
abbrev pub After : ℕ → Bool → World → Type 0
After r false = HasEndings r 0
After r true = HasEndings r 1

-- From where no event has ended the run, `m` returns where one has exactly if `closed` holds of its
-- value, and raises where none has.
pub record Closes {A : Type 0} (r : ℕ) (closed : A → Bool) (m : Action A) : Type 0 where
  pub run : Triple (HasEndings r 0) m (λ a. After r (closed a)) (λ e. HasEndings r 0)

abbrev pub always : {A : Type 0} → A → Bool
always a = true

abbrev pub option_closes : {A : Type 0} → Option A → Bool
option_closes none = true
option_closes (some a) = false

module _ (r : ℕ) where
  Post-kept :
      {A : Type 0} (x : Result A × World)
      → HasEndings r 0 x.1
      → Post (λ a. HasEndings r 0) (λ e. HasEndings r 0) x
  Post-kept (ok a, w) h = h
  Post-kept (err e, w) h = h

  kept :
      {A : Type 0} (m : Action A)
      → Keeps (HasEndings r 0) m
      → Triple (HasEndings r 0) m (λ a. HasEndings r 0) (λ e. HasEndings r 0)
  kept m k = record { at = λ w h. Post-kept (m w) (k.at w h) }

  module _ {A : Type 0} {c : A → Bool} where
    pub Closes-pure : (a : A) → c a ≡ false → Closes r c (pure a)
    Closes-pure a e = record { run = Triple-pure a (λ w h. subst (λ b. After r b w) (sym e) h) }

    pub Closes-raise : (e : Exc) → Closes r c (raise e)
    Closes-raise e = record { run = Triple-raise e (λ w h. h) }

    pub Closes-if :
        (b : Bool) (m n : Action A) → Closes r c m → Closes r c n → Closes r c (if b then m else n)
    Closes-if b m n hm hn = record { run = Triple-if b m n hm.run hn.run }

    pub Closes-catch :
        (m : Action A) (h : Exc → Action A)
        → Closes r c m
        → ((e : Exc) → Closes r c (h e))
        → Closes r c (catch m h)
    Closes-catch m h hm hh = record { run = Triple-catch m h hm.run (λ e. (hh e).run) }

    pub Closes-on_option :
        {B : Type 0} (n : Action A) (s : B → Action A) (o : Option B)
        → Closes r c n
        → ((b : B) → Closes r c (s b))
        → Closes r c (on_option n s o)
    Closes-on_option n s none hn hs = hn
    Closes-on_option n s (some b) hn hs = hs b

  module _ {A B : Type 0} {c : B → Bool} where
    -- First an action that ends no run.
    pub Closes-bind :
        (m : Action A) (f : A → Action B)
        → Keeps (HasEndings r 0) m
        → ((a : A) → Closes r c (f a))
        → Closes r c (m >>= f)
    Closes-bind m f k hf = record { run = Triple-bind m f (kept m k) (λ a. (hf a).run) }

    -- First an action that may end the run; `f` follows in both cases.
    pub Closes-both :
        {d : A → Bool} (m : Action A) (f : A → Action B)
        → Closes r d m
        → ((a : A) → Triple (After r (d a)) (f a) (λ b. After r (c b)) (λ e. HasEndings r 0))
        → Closes r c (m >>= f)
    Closes-both m f hm hf = record { run = Triple-bind m f hm.run hf }

    -- First an action that ends the run, then a value that says so.
    pub Closes-end :
        (m : Action A) (b : B) → c b ≡ true → Closes r always m → Closes r c (m >>= λ a. pure b)
    Closes-end m b e hm =
        Closes-both m _ hm (λ a. Triple-pure b (λ w h. subst (λ x. After r x w) (sym e) h))

pub ruleset closes_rules = (
  Closes-pure, Closes-raise, Closes-if, Closes-catch, Closes-on_option, Closes-bind, Closes-end,
  refl,
)
