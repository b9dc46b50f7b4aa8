-- ===== src/Runtime/Manager/Outcome/Delivered.antt =====
-- How `_synthesize` and `_stream_answer` end.
use atlas_the_agent.Runtime.Manager.Outcome.Stages.{phase_aside, tables_aside, IsClosed}
use atlas_the_agent.Runtime.Manager.Outcome.Passes.{FromTasks}
use atlas_the_agent.Runtime.Manager.Outcome.Attempts.{write_memory-Stays}
use atlas_the_agent.Base.{ℕ, ◌≡◌, refl, true, All, inl, inr, ◌⊎◌, Bool, List, [], ◌∷◌, Text, ◌==◌}
use atlas_the_agent.Core.Settings.{Settings}
use atlas_the_agent.Core.Json.{str, field, end}
use atlas_the_agent.Events.Types
use atlas_the_agent.Recovery.Track.{step}
use atlas_the_agent.Agent.Schemas.{RunStatus, PriorTaskOutput}
use atlas_the_agent.Agent.Synthesizer.{answer}
use atlas_the_agent.Agent.Raises.{FromModel, FromPlanner, Stays-answer}
use atlas_the_agent.Persistence.Ledger.{append}
use atlas_the_agent.Persistence.Runs.{set_status, set_answer}
use atlas_the_agent.Persistence.Tasks.Status.{IsIdle, IsSettled}
use atlas_the_agent.Runtime.Manager.Finalize.{finalize_done, finalize_cancelled}
use atlas_the_agent.Runtime.Manager.Settled.{HasEnded, ended-HasStatus, finalize_cancelled-Triple}
use atlas_the_agent.Runtime.Manager.Execute.{
  stream_words, stream_answer, split_words, deliver, synthesize,
}
use atlas_the_agent.Memory.{MemoryService, IsBestEffort}
use atlas_the_agent.Memory.Schemas.{done}
use atlas_the_agent.Process.{
  Exc, cancelled, replan, run_cancelled, budget_exceeded, planner_error, llm_error, executor_error,
  unexpected, out_of_fuel, Env, World, is_set, emit, emit_to,
}
use atlas_the_agent.Process.Keeps.{IsAside}
use atlas_the_agent.Process.Triple.{Triple, Triple-if, Triple-bind, Triple-weaken}
use atlas_the_agent.Process.Stays.{
  Stays, Stays-emit, Stays-bind, Stays-if, Stays-pure, Stays-is_set, Triple-quiet, Triple-stays,
}

-- How a run ends when no handler of `_execute` has to end it.
abbrev pub Over : ℕ → World → Type 0
Over r w = IsClosed r w ⊎ HasEnded r RunStatus.done w

-- What reaches the handlers of `_execute`.
abbrev pub FromPhases : ℕ → Exc → World → Type 0
FromPhases r (budget_exceeded be) w = IsIdle r w.db.tasks
FromPhases r (planner_error m) w = IsIdle r w.db.tasks
FromPhases r (llm_error m) w = IsIdle r w.db.tasks
FromPhases r (unexpected m) w = Unit
FromPhases r (cancelled t p) w = ⊥
FromPhases r (replan t v) w = ⊥
FromPhases r run_cancelled w = ⊥
FromPhases r (executor_error m) w = ⊥
FromPhases r out_of_fuel w = ⊥

module _ (r : ℕ) (w : World) where
  pub from_tasks : (e : Exc) → FromTasks r e w → FromPhases r e w
  from_tasks (llm_error m) h = h.0
  from_tasks (unexpected m) h = tt
  from_tasks (cancelled t p) h = h
  from_tasks (replan t v) h = h
  from_tasks run_cancelled h = h
  from_tasks (budget_exceeded be) h = absurd h
  from_tasks (planner_error m) h = absurd h
  from_tasks (executor_error m) h = h
  from_tasks out_of_fuel h = h

  pub from_planner : (e : Exc) → FromPlanner e → IsIdle r w.db.tasks → FromPhases r e w
  from_planner (planner_error m) s h = h
  from_planner (unexpected m) s h = tt
  from_planner (budget_exceeded be) s h = h
  from_planner (llm_error m) s h = h
  from_planner (cancelled t p) s h = s
  from_planner (replan t v) s h = s
  from_planner run_cancelled s h = s
  from_planner (executor_error m) s h = s
  from_planner out_of_fuel s h = s

  pub from_model : (e : Exc) → FromModel e → IsIdle r w.db.tasks → FromPhases r e w
  from_model (budget_exceeded be) s h = h
  from_model (llm_error m) s h = h
  from_model (unexpected m) s h = tt
  from_model (planner_error m) s h = absurd s
  from_model (cancelled t p) s h = s
  from_model (replan t v) s h = s
  from_model run_cancelled s h = s
  from_model (executor_error m) s h = s
  from_model out_of_fuel s h = s

module _ (env : Env) (settings : Settings) (memory : MemoryService) (best : IsBestEffort memory)
    (r : ℕ) (goal : Text) where
  abbrev Settled : World → Type 0
  Settled w = IsSettled r w.db.tasks

  Settled-aside : IsAside Settled
  Settled-aside = tables_aside (λ rs ts. IsSettled r ts)

  done_aside : IsAside (HasEnded r RunStatus.done)
  done_aside = phase_aside r (λ rs ts p.
      (All (λ row. (row.id == r) ≡ true → row.status ≡ RunStatus.done) rs
        × (p ≡ (RunStatus.done, true)))
      × IsSettled r ts)

  cancel-Triple : {E : Exc → World → Type 0} → Triple Settled (finalize_cancelled r) (λ u. Over r) E
  cancel-Triple = Triple-weaken (λ u w h. inl (inl h)) (finalize_cancelled-Triple r (IsSettled r))

  finalize_done-Triple :
      {E : Exc → World → Type 0} (text : Text)
      → Triple Settled (finalize_done r text) (λ u. HasEnded r RunStatus.done) E
  unfolding finalize_done emit emit_to append set_status set_answer step
  finalize_done-Triple text = record {
    at = λ w h. (
      ended-HasStatus r RunStatus.done Types.run_completed end
          (record w {
            db =
                (emit_to r Types.answer_completed (field "text" (str text) end)
                  (set_answer r text w.db)).1;
          })
          (λ p. refl),
      h,
    );
  }

  stream_words-Stays :
      (first : Bool) (words : List Text)
      → Stays Settled (λ e. ⊥) (stream_words env settings memory r goal first words)
  unfolding stream_words
  stream_words-Stays first [] = Stays-pure _
  stream_words-Stays first (word ∷ words) = Stays-bind _ _ (Stays-is_set Settled-aside env) λ stop.
      Stays-if stop _ _ (Stays-pure _) (
        Stays-bind _ _ (Stays-emit Settled-aside r Types.answer_token _ refl)
          (λ u. stream_words-Stays _ words))

  deliver-Triple :
      (text : Text)
      → Triple Settled (deliver env settings memory r goal text) (λ u. Over r) (FromPhases r)
  unfolding deliver stream_answer
  deliver-Triple text =
      Triple-bind (stream_answer env settings memory r goal text) _
        (Triple-quiet (stream_words-Stays true (split_words text)))
        λ stopped. Triple-if stopped _ _ cancel-Triple (
          Triple-bind (finalize_done r text) _ (finalize_done-Triple text) λ u.
            Triple-weaken (λ v w h. inr h)
              (Triple-quiet
                (write_memory-Stays env settings memory best r goal _ done_aside done text)))

  pub synthesize-Triple :
      (outputs : List PriorTaskOutput)
      → Triple Settled (synthesize env settings memory r goal outputs) (λ u. Over r) (FromPhases r)
  unfolding synthesize
  synthesize-Triple outputs =
      Triple-bind (is_set env) _ (Triple-quiet (Stays-is_set Settled-aside env)) λ stop.
        Triple-if stop _ _ cancel-Triple (
          Triple-bind (answer env settings goal outputs) _
            (Triple-stays _ (Stays-answer Settled-aside env settings goal outputs) (λ o w h. h)
              (λ e w s h. from_model r w e s h.0))
            deliver-Triple)
