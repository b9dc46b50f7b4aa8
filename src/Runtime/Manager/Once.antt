-- ===== src/Runtime/Manager/Once.antt =====
-- A run is ended by one event.
pub mod Rules
mod Finalizers
mod Attempts
mod Generations
use atlas_the_agent.Runtime.Manager.Once.Rules.{
  endings, HasEndings, HasEndings-aside, HasEndings-sessions, endings_calm, After, Closes, always,
  option_closes, Closes-pure, Closes-raise, Closes-bind, Closes-both, Closes-if, Closes-catch,
  Closes-on_option, closes_rules,
}
use atlas_the_agent.Runtime.Manager.Once.Finalizers.{
  Closes-finalize_done, Closes-finalize_failed, Closes-finalize_cancelled,
  Closes-finalize_cancelled_run, Closes-finalize_budget_exceeded,
}
use atlas_the_agent.Runtime.Manager.Once.Attempts.{write_memory-Triple, Closes-run_task}
use atlas_the_agent.Base.{
  ℕ, zero, suc, ◌+◌, ◌≡◌, refl, ap, ◌∙◌, Bool, true, false, Option, none, some, List, [], ◌∷◌, ◌++◌,
  Text, on_option,
}
use atlas_the_agent.Core.Json.{end}
use atlas_the_agent.Core.Settings.{Settings}
use atlas_the_agent.Events.Types
use atlas_the_agent.Agent.Schemas.{TaskView, PlannedTask, PriorTaskOutput, ReflectionResult}
use atlas_the_agent.Persistence.Runs.{set_status}
use atlas_the_agent.Persistence.Tasks.{bulk_skip, bulk_create, append_generation}
use atlas_the_agent.Persistence.Tasks.Status.{IsSettled}
use atlas_the_agent.Runtime.Manager.Finalize.{finalize_cancelled_run}
use atlas_the_agent.Runtime.Manager.Replan.{
  emit_plan_replanned, replan_reason, fail_replan, no_plan, plan_rest, swap_generation, adopt_plan,
  do_replan,
}
use atlas_the_agent.Runtime.Manager.Tasks.{
  Turn, ran, closed, swapped, Pass, completed, stopped, replanned, on_turn, on_pass,
  swapped_or_closed, on_signal, turn, pass, generations, run_tasks,
}
use atlas_the_agent.Runtime.Manager.Execute
use atlas_the_agent.Runtime.Manager.Execute.{
  open_budget, recall_lessons, plan_tasks, plan_run, stream_words, stream_answer, split_words,
  deliver, synthesize, phases, execute,
}
use atlas_the_agent.Runtime.Manager.Kept.Rules.{method_rules, Keeps-charging_replan}
use atlas_the_agent.Runtime.Manager.Outcome.Ends.{HasConcluded, execute-HasConcluded}
use atlas_the_agent.Memory.{MemoryService, ServiceKeeps, IsBestEffort, IsBestEffort→ServiceKeeps}
use atlas_the_agent.Memory.Schemas.{done}
use atlas_the_agent.Process.{
  Exc, cancelled, budget_exceeded, run_cancelled, llm_error, executor_error, planner_error, Result,
  ok, err, Env, World, Action, pure, ◌>>=◌, emit, is_set,
}
use atlas_the_agent.Process.Keeps.{
  Keeps, IsAside, BearsSessions, Keeps-session, Keeps-is_set, Keeps-bind, Keeps-if, Keeps-pure,
  Keeps-emit,
}
use atlas_the_agent.Process.Triple.{Post, Triple, Triple-pure}
use atlas_the_agent.Runtime.Manager.Once.Generations.{Closes-run_tasks}

module _ (r : ℕ) (aside : IsAside (HasEndings r 0)) (sessions : BearsSessions (HasEndings r 0))
    (env : Env) (settings : Settings) (goal : Text) (memory : MemoryService)
    (best : IsBestEffort memory) (service : ServiceKeeps (HasEndings r 0) memory) where
  Keeps-started : Keeps (HasEndings r 0) (emit r Types.run_started end)
  unfolding emit
  Keeps-started = record { at = λ w h. endings_calm r r Types.run_started end w.db refl ∙ h }

  Closes-plan_run : Closes r option_closes (plan_run env settings memory r goal)
  unfolding plan_run plan_tasks recall_lessons set_status bulk_create
  Closes-plan_run =
      search
        (
          closes_rules, method_rules, Keeps-started, service.at_recall, Closes-finalize_cancelled,
          Closes-finalize_cancelled_run,
        )
        depth 14

  Keeps-stream_words :
      (first : Bool) (words : List Text)
      → Keeps (HasEndings r 0) (stream_words env settings memory r goal first words)
  unfolding stream_words
  Keeps-stream_words first [] = Keeps-pure _
  Keeps-stream_words first (word ∷ words) = Keeps-bind _ _ (Keeps-is_set aside env) λ stop.
      Keeps-if stop _ _ (Keeps-pure _) (
        Keeps-bind (emit r Types.answer_token _) _ (Keeps-emit aside r _ _ refl)
          (λ _. Keeps-stream_words false words))

  Closes-deliver : (text : Text) → Closes r always (deliver env settings memory r goal text)
  unfolding deliver stream_answer
  Closes-deliver text =
      Closes-bind r (stream_answer env settings memory r goal text) _
        (Keeps-stream_words true (split_words text))
        λ stop. Closes-if r stop _ _ (Closes-finalize_cancelled r aside sessions) (
          Closes-both r _ _ (Closes-finalize_done r aside sessions text)
            (λ x. write_memory-Triple r aside sessions env settings memory best goal done text))

  Closes-synthesize :
      (os : List PriorTaskOutput) → Closes r always (synthesize env settings memory r goal os)
  unfolding synthesize
  Closes-synthesize os =
      search (closes_rules, method_rules, Closes-deliver, Closes-finalize_cancelled)

  synthesized-Triple :
      (o : Option (List PriorTaskOutput))
      → Triple
          (After r (option_closes o))
          (on_option (pure tt) (synthesize env settings memory r goal) o)
          (λ u. HasEndings r 1)
          (λ e. HasEndings r 0)
  synthesized-Triple none = Triple-pure tt (λ w h. h)
  synthesized-Triple (some os) = (Closes-synthesize os).run

  executed-Triple :
      (o : Option (List TaskView))
      → Triple
          (After r (option_closes o))
          (on_option
            (pure tt)
            (λ tasks. do
              outputs ← run_tasks env settings memory r goal tasks
              on_option (pure tt) (synthesize env settings memory r goal) outputs)
            o)
          (λ u. HasEndings r 1)
          (λ e. HasEndings r 0)
  executed-Triple none = Triple-pure tt (λ w h. h)
  executed-Triple (some ts) =
      (Closes-both r {c = always} (run_tasks env settings memory r goal ts) _
        (Closes-run_tasks r aside sessions env settings goal memory best service ts)
        synthesized-Triple).run

  Closes-phases : Closes r always (phases env settings memory r goal)
  unfolding phases
  Closes-phases = Closes-both r _ _ Closes-plan_run executed-Triple

  Closes-handler : (e : Exc) → Closes r always (Execute.on_exception env settings memory r goal e)
  unfolding Execute.on_exception
  Closes-handler (cancelled t phase) = Closes-finalize_failed r aside sessions _
  Closes-handler (Exc.replan t v) = Closes-finalize_failed r aside sessions _
  Closes-handler run_cancelled = Closes-finalize_cancelled r aside sessions
  Closes-handler (budget_exceeded be) = Closes-finalize_budget_exceeded r aside sessions env be none
  Closes-handler (planner_error m) = Closes-finalize_failed r aside sessions _
  Closes-handler (llm_error m) = Closes-finalize_failed r aside sessions _
  Closes-handler (executor_error m) = Closes-finalize_failed r aside sessions _
  Closes-handler (Exc.unexpected m) = Closes-finalize_failed r aside sessions _
  Closes-handler Exc.out_of_fuel = Closes-raise r _

  Closes-execute : Closes r always (execute env settings memory r goal)
  unfolding execute
  Closes-execute =
      Closes-bind r (open_budget settings) _ (record { at = λ w h. h })
        λ u. Closes-catch r (phases env settings memory r goal) _ Closes-phases Closes-handler

-- What never raises has the postcondition of a return.
returned :
    {A : Type 0} (r : ℕ) (Q R : World → Type 0) (x : Result A × World)
    → Post (λ a. Q) (λ e v. ⊥) x
    → Post (λ a. R) (λ e. HasEndings r 0) x
    → Post (λ a. R) (λ e v. ⊥) x
returned r Q R (ok a, w) h k = k
returned r Q R (err e, w) h k = h

-- A run ends once: started where no task of the run is open and no event of the run is
-- run.completed, run.failed or run.cancelled, `_execute` returns, and exactly one event of the run is
-- one of these. The memory service is asked to raise nothing and to write no row of a run, a task or
-- an attempt.
pub execute-HasEndings :
    (env : Env) (settings : Settings) (memory : MemoryService)
    → IsBestEffort memory
    → (r : ℕ) (goal : Text) (w : World) → IsSettled r w.db.tasks
    → endings r w.db.events ≡ 0
    → Post (λ u. HasEndings r 1) (λ e v. ⊥) (execute env settings memory r goal w)
execute-HasEndings env settings memory best r goal w settled none_yet =
    let aside = HasEndings-aside r 0 in
    returned r (HasConcluded r) (HasEndings r 1) (execute env settings memory r goal w)
      (execute-HasConcluded env settings memory best r goal w settled)
      ((Closes-execute r aside (HasEndings-sessions r 0) env settings goal memory best
          (IsBestEffort→ServiceKeeps (HasEndings r 0) memory aside best)).run.at
        w none_yet)
