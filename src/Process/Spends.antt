-- ===== src/Process/Spends.antt =====
-- How many calls of the provider and of the tools an action makes, one rule for each way to build one.
use atlas_the_agent.Base.{ℕ, ◌+◌, ◌≤◌, Bool, true, false, List, Text, if◌then◌else◌, arith}
use atlas_the_agent.Core.Json.{Fields}
use atlas_the_agent.Events.Types.{EventType}
use atlas_the_agent.Runtime.Budget.{
  BudgetCategory, Charge, charged, exceeded, charge_model_call, charge_tool_call,
}
use atlas_the_agent.Llm.{LlmMessage, Reply}
use atlas_the_agent.Tools.Registry.{execute}
use atlas_the_agent.Process.Monad.{
  proceed, Exc, Env, World, Result, ok, err, Action, pure, raise, ◌>>=◌,
}
use atlas_the_agent.Process.Effects.{
  settle, reply_of, emit, tick, call_model, call_tool, is_set, complete_as, execute_tool,
}

-- From `w` to `v`, at most `models` calls have reached the provider and at most `tools` the tools.
pub record MakesAtMost (models tools : ℕ) (w v : World) : Type 0 where
  pub at_models : v.model_called ≤ w.model_called + models
  pub at_tools : v.tool_called ≤ w.tool_called + tools

-- `m` makes at most so many calls, whether it returns or raises.
pub record Spends {A : Type 0} (models tools : ℕ) (m : Action A) : Type 0 where
  pub at : (w : World) → MakesAtMost models tools w (m w).1

MakesAtMost-trans :
    (i j k l : ℕ) (u v w : World)
    → MakesAtMost i j u v
    → MakesAtMost k l v w
    → MakesAtMost (i + k) (j + l) u w
MakesAtMost-trans i j k l u v w g h = record {
  at_models = omega (arith, g.at_models, h.at_models);
  at_tools = omega (arith, g.at_tools, h.at_tools);
}

MakesAtMost-more :
    (i j k l : ℕ) (w v : World) → i ≤ k → j ≤ l → MakesAtMost i j w v → MakesAtMost k l w v
MakesAtMost-more i j k l w v m t h = record {
  at_models = omega (arith, m, h.at_models);
  at_tools = omega (arith, t, h.at_tools);
}

MakesAtMost-here : (i j : ℕ) (w : World) → MakesAtMost i j w w
MakesAtMost-here i j w = record { at_models = omega arith; at_tools = omega arith }

module _ {A : Type 0} (i j : ℕ) where
  pub Spends-pure : (a : A) → Spends i j (pure a)
  Spends-pure a = record { at = MakesAtMost-here i j }

  pub Spends-raise : (e : Exc) → Spends i j (raise {A = A} e)
  Spends-raise e = record { at = MakesAtMost-here i j }

  pub Spends-if :
      (b : Bool) (m n : Action A) → Spends i j m → Spends i j n → Spends i j (if b then m else n)
  Spends-if true m n km kn = km
  Spends-if false m n km kn = kn

module _ {A B : Type 0} (i j k l most_models most_tools : ℕ) (models : i + k ≤ most_models)
    (tools : j + l ≤ most_tools) where
  Spends-proceed :
      (f : A → Action B) (u : World) (x : Result A × World)
      → ((a : A) → Spends k l (f a))
      → MakesAtMost i j u x.1
      → MakesAtMost most_models most_tools u (proceed f x).1
  Spends-proceed f u (ok a, w) kf h =
      MakesAtMost-more (i + k) (j + l) most_models most_tools u (f a w).1 models tools
        (MakesAtMost-trans i j k l u w (f a w).1 h ((kf a).at w))
  Spends-proceed f u (err e, w) kf h =
      MakesAtMost-more i j most_models most_tools u w (omega (arith, models)) (omega (arith, tools))
        h

  -- One action after another.
  pub Spends-bind :
      (m : Action A) (f : A → Action B)
      → Spends i j m
      → ((a : A) → Spends k l (f a))
      → Spends most_models most_tools (m >>= f)
  Spends-bind m f km kf = record { at = λ w. Spends-proceed f w (m w) kf (km.at w) }

-- An action that makes no call, in front of one that may.
pub Spends-behind :
    {A B : Type 0} (k l : ℕ) (m : Action A) (f : A → Action B)
    → Spends 0 0 m
    → ((a : A) → Spends k l (f a))
    → Spends k l (m >>= f)
Spends-behind k l = Spends-bind 0 0 k l k l (omega arith) (omega arith)

pub Spends-emit : (r : ℕ) (type : EventType) (payload : Fields) → Spends 0 0 (emit r type payload)
unfolding emit
Spends-emit r type payload = record {
  at = λ w. record { at_models = omega arith; at_tools = omega arith };
}

module _ (env : Env) where
  pub Spends-is_set : Spends 0 0 (is_set env)
  unfolding is_set tick
  Spends-is_set = record { at = λ w. record { at_models = omega arith; at_tools = omega arith } }

  -- A call that is charged is one call, and one that the budget refuses is none.
  charged-model :
      (x : Charge) (w : World) (messages : List LlmMessage)
      → MakesAtMost 1 0 w
          (proceed (λ _. call_model >>= λ n. reply_of (env.complete n messages)) (settle x w)).1
  unfolding call_model
  charged-model (exceeded e) w messages = MakesAtMost-here 1 0 w
  charged-model (charged b) w messages = replied (env.complete w.clock messages)
    where
      replied :
          (r : Reply)
          → MakesAtMost 1 0 w
              (reply_of r
                (record w { budget = b; clock = w.clock + 1; model_called = w.model_called + 1 })).1
      replied (Reply.text s) = record { at_models = omega arith; at_tools = omega arith }
      replied (Reply.llm_error e) = record { at_models = omega arith; at_tools = omega arith }

  pub Spends-complete_as :
      (c : BudgetCategory) (messages : List LlmMessage) → Spends 1 0 (complete_as env c messages)
  unfolding complete_as
  Spends-complete_as c messages = record {
    at = λ w. charged-model (charge_model_call c w.budget) w messages;
  }

  charged-tool :
      (x : Charge) (w : World) (name : Text) (arguments : Fields)
      → MakesAtMost 0 1 w
          (proceed
            (λ _.
              call_tool >>= λ n. pure (execute env.py env.tool_timeout env.tools n name arguments))
            (settle x w)).1
  unfolding call_tool
  charged-tool (exceeded e) w name arguments = MakesAtMost-here 0 1 w
  charged-tool (charged b) w name arguments = record {
    at_models = omega arith;
    at_tools = omega arith;
  }

  pub Spends-execute_tool :
      (name : Text) (arguments : Fields) → Spends 0 1 (execute_tool env name arguments)
  unfolding execute_tool
  Spends-execute_tool name arguments = record {
    at = λ w. charged-tool (charge_tool_call w.budget) w name arguments;
  }
