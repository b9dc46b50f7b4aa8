-- ===== src/Runtime/Manager/Once/Generations.antt =====
-- A replan, the turns of the tasks and the generations end the run at most once.
use atlas_the_agent.Runtime.Manager.Once.Rules.{
  HasEndings, After, Closes, option_closes, Closes-pure, Closes-raise, Closes-bind, Closes-both,
  Closes-if, Closes-catch, closes_rules,
}
use atlas_the_agent.Runtime.Manager.Once.Finalizers.{
  Closes-finalize_failed, Closes-finalize_cancelled_run, Closes-finalize_budget_exceeded,
}
use atlas_the_agent.Runtime.Manager.Once.Attempts.{Closes-run_task}
use atlas_the_agent.Base.{
  ℕ, zero, suc, refl, Bool, true, false, Option, none, some, List, [], ◌∷◌, ◌++◌, Text, on_option,
}
use atlas_the_agent.Core.Settings.{Settings}
use atlas_the_agent.Agent.Schemas.{TaskView, PlannedTask, PriorTaskOutput, ReflectionResult}
use atlas_the_agent.Persistence.Runs.{set_status}
use atlas_the_agent.Persistence.Tasks.{bulk_skip, append_generation}
use atlas_the_agent.Runtime.Manager.Replan.{
  emit_plan_replanned, replan_reason, fail_replan, no_plan, plan_rest, swap_generation, adopt_plan,
  do_replan,
}
use atlas_the_agent.Runtime.Manager.Tasks.{
  Turn, ran, closed, swapped, Pass, completed, stopped, replanned, on_turn, on_pass,
  swapped_or_closed, on_signal, turn, pass, generations, run_tasks,
}
use atlas_the_agent.Runtime.Manager.Kept.Rules.{method_rules, Keeps-charging_replan}
use atlas_the_agent.Memory.{MemoryService, ServiceKeeps, IsBestEffort}
use atlas_the_agent.Process.{
  Exc, cancelled, budget_exceeded, llm_error, planner_error, Env, Action, pure, is_set,
}
use atlas_the_agent.Process.Keeps.{Keeps, IsAside, BearsSessions, Keeps-is_set}
use atlas_the_agent.Process.Triple.{Triple, Triple-pure}

abbrev turn_closes : Turn → Bool
turn_closes (ran none) = true
turn_closes (ran (some output)) = false
turn_closes closed = true
turn_closes (swapped ts) = false

abbrev pass_closes : Pass → Bool
pass_closes (completed all) = false
pass_closes stopped = true
pass_closes (replanned ts os) = false

module _ (r : ℕ) (aside : IsAside (HasEndings r 0)) (sessions : BearsSessions (HasEndings r 0))
    (env : Env) (settings : Settings) (goal : Text) where
  Closes-no_plan :
      (t : TaskView) (e : Exc) → Closes r option_closes (no_plan env settings r goal t e)
  unfolding fail_replan
  Closes-no_plan t (budget_exceeded be) =
      search (closes_rules, method_rules, Closes-finalize_budget_exceeded)
  Closes-no_plan t (planner_error m) = search (closes_rules, method_rules, Closes-finalize_failed)
  Closes-no_plan t (llm_error m) = search (closes_rules, method_rules, Closes-finalize_failed)
  Closes-no_plan t _ = Closes-raise r _

  Closes-plan_rest :
      (t : TaskView) (os : List PriorTaskOutput) (reason : Text)
      → Closes r option_closes (plan_rest env settings r goal t os reason)
  unfolding plan_rest
  Closes-plan_rest t os reason = search (closes_rules, method_rules, Closes-no_plan)

  Keeps-swap_generation :
      (ts : List TaskView) (reason : Text) (ps : List PlannedTask)
      → Keeps (HasEndings r 0) (swap_generation env settings r goal ts reason ps)
  unfolding swap_generation bulk_skip append_generation emit_plan_replanned
  Keeps-swap_generation ts reason ps = search method_rules depth 9

  Closes-adopt_plan :
      (t : TaskView) (v : Option ReflectionResult) (ts : List TaskView) (ps : List PlannedTask)
      → Closes r option_closes (adopt_plan env settings r goal t v ts ps)
  unfolding adopt_plan
  Closes-adopt_plan t v ts ps =
      search (closes_rules, method_rules, Closes-finalize_cancelled_run, Keeps-swap_generation)
        depth 8

  planned-Triple :
      (t : TaskView) (v : Option ReflectionResult) (ts : List TaskView)
      (o : Option (List PlannedTask))
      → Triple
          (After r (option_closes o))
          (on_option (pure none) (adopt_plan env settings r goal t v ts) o)
          (λ x. After r (option_closes x))
          (λ e. HasEndings r 0)
  planned-Triple t v ts none = Triple-pure none (λ w h. h)
  planned-Triple t v ts (some ps) = (Closes-adopt_plan t v ts ps).run

  Closes-do_replan :
      (t : TaskView) (v : Option ReflectionResult) (ts : List TaskView) (os : List PriorTaskOutput)
      → Closes r option_closes (do_replan env settings r goal t v ts os)
  unfolding do_replan
  Closes-do_replan t v ts os = Closes-bind r (is_set env) _ (Keeps-is_set aside env) λ stop.
      Closes-if r stop _ _ (search (closes_rules, Closes-finalize_cancelled_run)) (
        Closes-bind r _ _ (Keeps-charging_replan aside sessions)
          λ u. Closes-both r _ _ (Closes-plan_rest t os (replan_reason v)) (planned-Triple t v ts))

  module _ (memory : MemoryService) (best : IsBestEffort memory)
      (service : ServiceKeeps (HasEndings r 0) memory) where
    closing-Triple :
        (o : Option (List TaskView))
        → Triple
            (After r (option_closes o))
            (pure (swapped_or_closed o))
            (λ x. After r (turn_closes x))
            (λ e. HasEndings r 0)
    closing-Triple none = Triple-pure closed (λ w h. h)
    closing-Triple (some ts) = Triple-pure (swapped ts) (λ w h. h)

    Closes-on_signal :
        (t : TaskView) (ts : List TaskView) (os : List PriorTaskOutput) (e : Exc)
        → Closes r turn_closes (on_signal env settings memory r goal t ts os e)
    unfolding on_signal
    Closes-on_signal t ts os (cancelled u phase) =
        search (closes_rules, Closes-finalize_cancelled_run)
    Closes-on_signal t ts os (budget_exceeded be) =
        search (closes_rules, Closes-finalize_budget_exceeded)
    Closes-on_signal t ts os (Exc.replan u v) =
        Closes-both r _ _ (Closes-do_replan u v ts os) closing-Triple
    Closes-on_signal t ts os _ = Closes-raise r _

    ran-Triple :
        (o : Option PriorTaskOutput)
        → Triple
            (After r (option_closes o))
            (pure (ran o))
            (λ x. After r (turn_closes x))
            (λ e. HasEndings r 0)
    ran-Triple none = Triple-pure _ (λ w h. h)
    ran-Triple (some output) = Triple-pure _ (λ w h. h)

    Closes-turn :
        (total : ℕ) (t : TaskView) (ts : List TaskView) (os : List PriorTaskOutput)
        → Closes r turn_closes (turn env settings memory r goal total t ts os)
    unfolding turn
    Closes-turn total t ts os =
        Closes-catch r _ _
          (Closes-both r _ _
            (Closes-run_task r aside sessions env settings memory best goal t os total) ran-Triple)
          (Closes-on_signal t ts os)

    turned-Triple :
        (os : List PriorTaskOutput) (next : PriorTaskOutput → Action Pass) (x : Turn)
        → ((o : PriorTaskOutput) → Closes r pass_closes (next o))
        → Triple
            (After r (turn_closes x))
            (on_turn os next x)
            (λ p. After r (pass_closes p))
            (λ e. HasEndings r 0)
    turned-Triple os next (ran none) k = Triple-pure stopped (λ w h. h)
    turned-Triple os next (ran (some o)) k = (k o).run
    turned-Triple os next closed k = Triple-pure stopped (λ w h. h)
    turned-Triple os next (swapped ts) k = Triple-pure _ (λ w h. h)

    Closes-pass :
        (total : ℕ) (ts : List TaskView) (os : List PriorTaskOutput)
        → Closes r pass_closes (pass env settings memory r goal total ts os)
    unfolding pass
    Closes-pass total [] os = Closes-pure r _ refl
    Closes-pass total (t ∷ ts) os = Closes-bind r (is_set env) _ (Keeps-is_set aside env) λ stop.
        Closes-if r stop _ _ (search (closes_rules, Closes-finalize_cancelled_run)) (
          Closes-both r _ _ (Closes-turn total t (t ∷ ts) os)
            λ x. turned-Triple os _ x (λ o. Closes-pass total ts (os ++ o ∷ [])))

    passed-Triple :
        (next : List TaskView → List PriorTaskOutput → Action (Option (List PriorTaskOutput)))
        (x : Pass)
        → ((ts : List TaskView) (os : List PriorTaskOutput) → Closes r option_closes (next ts os))
        → Triple
            (After r (pass_closes x))
            (on_pass next x)
            (λ o. After r (option_closes o))
            (λ e. HasEndings r 0)
    passed-Triple next (completed all) k = Triple-pure _ (λ w h. h)
    passed-Triple next stopped k = Triple-pure none (λ w h. h)
    passed-Triple next (replanned ts os) k = (k ts os).run

    Closes-generations :
        (fuel : ℕ) (ts : List TaskView) (os : List PriorTaskOutput)
        → Closes r option_closes (generations env settings memory r goal fuel ts os)
    unfolding generations
    Closes-generations zero [] os = Closes-pure r _ refl
    Closes-generations zero (t ∷ ts) os = Closes-raise r _
    Closes-generations (suc fuel) [] os = Closes-pure r _ refl
    Closes-generations (suc fuel) (t ∷ ts) os =
        Closes-both r _ _ (Closes-pass _ (t ∷ ts) os)
          (λ x. passed-Triple _ x (Closes-generations fuel))

    pub Closes-run_tasks :
        (ts : List TaskView) → Closes r option_closes (run_tasks env settings memory r goal ts)
    unfolding run_tasks set_status
    Closes-run_tasks ts = search (closes_rules, method_rules, Closes-generations)
