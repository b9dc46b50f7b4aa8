-- ===== src/Events/Hub.antt =====
-- `EventHub` of backend/atlas/events/hub.py: the queues of the subscribers. The sets of one run's
-- subscriptions are one list, each subscription with a number of its own.
pub mod Queues
use atlas_the_agent.Base.{
  ℕ, ◌+◌, ◌≡◌, refl, Bool, true, false, not, Option, none, some, List, [], ◌∷◌, ◌++◌, filter,
  length, ◌==◌, if◌then◌else◌,
}
use atlas_the_agent.Events.Types.{Event}
use atlas_the_agent.Persistence.Tables.{update_where}

pub record Subscription : Type 0 where
  pub id : ℕ
  pub run_id : ℕ
  pub queue : List Event

abbrev pub Hub : Type 0
Hub = List Subscription

-- `subscribe`
unfoldable pub subscribe : ℕ → ℕ → Hub → Hub
subscribe id run_id hub = hub ++ (record { id = id; run_id = run_id; queue = [] }) ∷ []

-- `unsubscribe`
unfoldable pub unsubscribe : ℕ → Hub → Hub
unsubscribe id hub = filter (λ s. not (s.id == id)) hub

-- `Subscription.put_nowait`
abbrev pub put_nowait : Event → Subscription → Subscription
put_nowait e s = record s { queue = s.queue ++ e ∷ [] }

-- `publish`: to every subscriber of the event's run.
unfoldable pub publish : Event → Hub → Hub
publish e hub = update_where (λ s. s.run_id == e.run_id) (put_nowait e) hub

-- What a subscription's queue holds.
unfoldable pub find_subscription : ℕ → Hub → Option Subscription
find_subscription id [] = none
find_subscription id (s ∷ hub) = if s.id == id then some s else find_subscription id hub

-- `Subscription.get` once the queue is not empty: the rest of the queue stays.
unfoldable pub set_queue : ℕ → List Event → Hub → Hub
set_queue id q hub = update_where (λ s. s.id == id) (λ s. record s { queue = q }) hub

-- `subscriber_count`
unfoldable pub subscriber_count : Hub → ℕ
subscriber_count hub = length hub
