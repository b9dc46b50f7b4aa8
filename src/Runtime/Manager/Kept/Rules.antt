-- ===== src/Runtime/Manager/Kept/Rules.antt =====
-- The rules by which the methods of the manager keep an invariant.
use atlas_the_agent.Runtime.Manager.Kept.Finalizers.{finalizer_rules}
use atlas_the_agent.Base.{Option, none, some, List, Text}
use atlas_the_agent.Agent.Schemas.{TaskView, PriorTaskOutput}
use atlas_the_agent.Agent.Kept.{
  Keeps-plan, Keeps-plan_again, Keeps-reflect, Keeps-answer, Keeps-run,
}
use atlas_the_agent.Runtime.Manager.Attempt.{Round, finished, again, on_round, charging_retry}
use atlas_the_agent.Runtime.Manager.Replan.{charging_replan}
use atlas_the_agent.Runtime.Manager.Tasks.{
  Turn, ran, closed, swapped, Pass, completed, stopped, replanned, on_turn, on_pass,
}
use atlas_the_agent.Runtime.Manager.Execute.{keep_lessons}
use atlas_the_agent.Process.{World, Action}
use atlas_the_agent.Process.Keeps.{Keeps, IsAside, BearsSessions, Keeps-pure}

module _ {P : World → Type 0} (aside : IsAside P) (sessions : BearsSessions P) where
  pub Keeps-charging_retry : (t : TaskView) → Keeps P (charging_retry t)
  Keeps-charging_retry t = record { at = λ w h. aside.at_retry t.id w h }

  pub Keeps-charging_replan : Keeps P charging_replan
  Keeps-charging_replan = record { at = λ w h. aside.at_replan w h }

  pub Keeps-keep_lessons : (text : Text) → Keeps P (keep_lessons text)
  Keeps-keep_lessons text = record { at = λ w h. aside.at_lessons _ w h }

  pub Keeps-on_round :
      (next : Text → Text → Action (Option PriorTaskOutput)) (x : Round)
      → ((a b : Text) → Keeps P (next a b))
      → Keeps P (on_round next x)
  Keeps-on_round next (finished result) k = Keeps-pure _
  Keeps-on_round next (again a b) k = k a b

  pub Keeps-on_turn :
      (outputs : List PriorTaskOutput) (next : PriorTaskOutput → Action Pass) (x : Turn)
      → ((o : PriorTaskOutput) → Keeps P (next o))
      → Keeps P (on_turn outputs next x)
  Keeps-on_turn outputs next (ran none) k = Keeps-pure _
  Keeps-on_turn outputs next (ran (some o)) k = k o
  Keeps-on_turn outputs next closed k = Keeps-pure _
  Keeps-on_turn outputs next (swapped ts) k = Keeps-pure _

  pub Keeps-on_pass :
      (next : List TaskView → List PriorTaskOutput → Action (Option (List PriorTaskOutput)))
      (x : Pass)
      → ((ts : List TaskView) (os : List PriorTaskOutput) → Keeps P (next ts os))
      → Keeps P (on_pass next x)
  Keeps-on_pass next (completed all) k = Keeps-pure _
  Keeps-on_pass next stopped k = Keeps-pure _
  Keeps-on_pass next (replanned ts os) k = k ts os

pub ruleset method_rules = (
  finalizer_rules, Keeps-plan, Keeps-plan_again, Keeps-reflect, Keeps-answer, Keeps-run,
  Keeps-charging_retry, Keeps-charging_replan, Keeps-keep_lessons, Keeps-on_round, Keeps-on_turn,
  Keeps-on_pass,
)
