-- ===== src/Process/Stays.antt =====
-- Actions that keep an invariant, and raise only exceptions of one set.
use atlas_the_agent.Base.{ℕ, ◌+◌, ◌≡◌, refl, Bool, true, false, List, Text, if◌then◌else◌}
use atlas_the_agent.Core.Json.{Fields}
use atlas_the_agent.Events.Types.{EventType}
use atlas_the_agent.Runtime.Budget.{
  BudgetCategory, BudgetExceeded, RunBudget, Charge, charged, exceeded, charge_model_call,
  charge_tool_call,
}
use atlas_the_agent.Llm.{LlmMessage, Reply}
use atlas_the_agent.Tools.Registry.{execute}
use atlas_the_agent.Process.Monad.{
  Exc, budget_exceeded, llm_error, handle, proceed, Env, World, Result, ok, err, Action, pure,
  raise, ◌>>=◌, catch, reads,
}
use atlas_the_agent.Process.Effects.{
  settle, reply_of, emit, tick, call_model, call_tool, is_set, complete_as, execute_tool,
}
use atlas_the_agent.Process.Keeps.{Keeps, IsAside, is_turning}
use atlas_the_agent.Process.Triple.{Post, Triple}

-- From a state with `P` the action `m` ends in one with `P`, and what it raises is in `S`.
pub record Stays {A : Type 0} (P : World → Type 0) (S : Exc → Type 0) (m : Action A) : Type 0 where
  pub at : (w : World) → P w → Post (λ a. P) (λ e v. S e × P v) (m w)

module _ {A : Type 0} {P : World → Type 0} {S : Exc → Type 0} where
  pub Stays-pure : (a : A) → Stays P S (pure a)
  Stays-pure a = record { at = λ w h. h }

  pub Stays-raise : (e : Exc) → S e → Stays P S (raise {A = A} e)
  Stays-raise e s = record { at = λ w h. (s, h) }

  pub Stays-reads : (f : World → A) → Stays P S (reads f)
  Stays-reads f = record { at = λ w h. h }

  pub Stays-if :
      (b : Bool) (m n : Action A) → Stays P S m → Stays P S n → Stays P S (if b then m else n)
  Stays-if true m n km kn = km
  Stays-if false m n km kn = kn

  Stays-handle :
      {F : Exc → Type 0} (h : Exc → Action A) (x : Result A × World)
      → ((e : Exc) → F e → Stays P S (h e))
      → Post (λ a. P) (λ e v. F e × P v) x
      → Post (λ a. P) (λ e v. S e × P v) (handle h x)
  Stays-handle h (ok a, w) kh p = p
  Stays-handle h (err e, w) kh (f, p) = (kh e f).at w p

  pub Stays-catch :
      {F : Exc → Type 0} (m : Action A) (h : Exc → Action A)
      → Stays P F m
      → ((e : Exc) → F e → Stays P S (h e))
      → Stays P S (catch m h)
  Stays-catch m h km kh = record { at = λ w p. Stays-handle h (m w) kh (km.at w p) }

  -- What raises only exceptions of `S` may be used where `E` expects them.
  Post-stays :
      {Q : A → World → Type 0} {E : Exc → World → Type 0} (x : Result A × World)
      → ((a : A) (w : World) → P w → Q a w)
      → ((e : Exc) (w : World) → S e → P w → E e w)
      → Post (λ a. P) (λ e v. S e × P v) x
      → Post Q E x
  Post-stays (ok a, w) hq he h = hq a w h
  Post-stays (err e, w) hq he (s, h) = he e w s h

  pub Triple-stays :
      {Q : A → World → Type 0} {E : Exc → World → Type 0} (m : Action A)
      → Stays P S m
      → ((a : A) (w : World) → P w → Q a w)
      → ((e : Exc) (w : World) → S e → P w → E e w)
      → Triple P m Q E
  Triple-stays m k hq he = record { at = λ w h. Post-stays (m w) hq he (k.at w h) }

pub Triple-quiet :
    {A : Type 0} {P : World → Type 0} {E : Exc → World → Type 0} {m : Action A}
    → Stays P (λ e. ⊥) m
    → Triple P m (λ a. P) E
Triple-quiet {m = m} k = Triple-stays m k (λ a w h. h) (λ e w s h. absurd s)

-- What stays in an invariant keeps it.
Post-kept :
    {A : Type 0} (P : World → Type 0) (S : Exc → Type 0) (x : Result A × World)
    → Post (λ a. P) (λ e v. S e × P v) x
    → P x.1
Post-kept P S (ok a, w) h = h
Post-kept P S (err e, w) h = h.1

pub Keeps-Stays :
    {A : Type 0} {P : World → Type 0} {S : Exc → Type 0} (m : Action A) → Stays P S m → Keeps P m
Keeps-Stays {P = P} {S = S} m k = record { at = λ w h. Post-kept P S (m w) (k.at w h) }

module _ {A B : Type 0} {P : World → Type 0} {S : Exc → Type 0} where
  Stays-proceed :
      (f : A → Action B) (x : Result A × World)
      → ((a : A) → Stays P S (f a))
      → Post (λ a. P) (λ e v. S e × P v) x
      → Post (λ b. P) (λ e v. S e × P v) (proceed f x)
  Stays-proceed f (ok a, w) kf p = (kf a).at w p
  Stays-proceed f (err e, w) kf p = p

  pub Stays-bind :
      (m : Action A) (f : A → Action B)
      → Stays P S m
      → ((a : A) → Stays P S (f a))
      → Stays P S (m >>= f)
  Stays-bind m f km kf = record { at = λ w p. Stays-proceed f (m w) kf (km.at w p) }

module _ {P : World → Type 0} {S : Exc → Type 0} (aside : IsAside P) where
  pub Stays-emit :
      (r : ℕ) (type : EventType) (payload : Fields)
      → is_turning type ≡ false
      → Stays P S (emit r type payload)
  unfolding emit
  Stays-emit r type payload e = record { at = λ w h. aside.at_emit r type payload w e h }

  pub Stays-tick : Stays P S tick
  unfolding tick
  Stays-tick = record { at = λ w h. aside.at_tick (w.clock + 1) w h }

  pub Stays-is_set : (env : Env) → Stays P S (is_set env)
  unfolding is_set
  Stays-is_set env = Stays-bind tick _ Stays-tick (λ n. Stays-pure _)

module _ {P : World → Type 0} (S : Exc → Type 0) (aside : IsAside P)
    (broke : (be : BudgetExceeded) → S (budget_exceeded be)) where
  -- What follows a charge: nothing, or an action that may count on it.
  settle-stays :
      {A : Type 0} (x : Charge) (w : World) (m : Action A)
      → ((b : RunBudget)
          → x ≡ charged b
          → Post (λ a. P) (λ e v. S e × P v) (m (record w { budget = b })))
      → P w
      → Post (λ a. P) (λ e v. S e × P v) (proceed (λ _. m) (settle x w))
  settle-stays (charged b) w m step h = step b refl
  settle-stays (exceeded e) w m step h = (broke e, h)

  pub Stays-execute_tool :
      (env : Env) (name : Text) (arguments : Fields) → Stays P S (execute_tool env name arguments)
  unfolding execute_tool call_tool
  Stays-execute_tool env name arguments = record {
    at = λ w h.
        settle-stays (charge_tool_call w.budget) w
          (call_tool >>= λ n. pure (execute env.py env.tool_timeout env.tools n name arguments))
          (λ b e. aside.at_tool b w e h) h;
  }

  module _ (failed : (m : Text) → S (llm_error m)) where
    Stays-reply_of : (r : Reply) → Stays P S (reply_of r)
    Stays-reply_of (Reply.text s) = Stays-pure s
    Stays-reply_of (Reply.llm_error e) = Stays-raise _ (failed e)

    pub Stays-complete_as :
        (env : Env) (c : BudgetCategory) (messages : List LlmMessage)
        → Stays P S (complete_as env c messages)
    unfolding complete_as call_model
    Stays-complete_as env c messages = record {
      at = λ w h.
          settle-stays (charge_model_call c w.budget) w
            (call_model >>= λ n. reply_of (env.complete n messages))
            (λ b e.
              (Stays-reply_of (env.complete w.clock messages)).at _ (aside.at_model c b w e h))
            h;
    }

pub ruleset stays_rules = (
  Stays-pure, Stays-raise, Stays-reads, Stays-if, Stays-bind, Stays-catch, Stays-emit, refl,
  Stays-is_set, Stays-complete_as, Stays-execute_tool,
)
