-- ===== src/Events/Hub/Queues.antt =====
-- What the operations of the hub do to one subscription.
use atlas_the_agent.Base.{
  ℕ, ◌≡◌, refl, false, Bool-cases, inl, inr, none, some, List, [], ◌∷◌, ◌++◌, ◌==◌, arith,
  if◌then◌else◌,
}
use atlas_the_agent.Events.Types.{Event}
use atlas_the_agent.Events.Hub.{Hub, subscribe, unsubscribe, publish, find_subscription, set_queue}
use atlas_the_agent.Persistence.Tables.{update_where}

pub find_subscription-subscribe_new :
    (id run : ℕ) (hub : Hub)
    → find_subscription id hub ≡ none
    → find_subscription id (subscribe id run hub)
      ≡ some (record { id = id; run_id = run; queue = [] })
unfolding find_subscription subscribe
find_subscription-subscribe_new id run [] h = ground arith
find_subscription-subscribe_new id run (s ∷ hub) h = elim (Bool-cases (s.id == id)) [
  | inl e ↦ ground (arith, h, e)
  | inr e ↦ rw e (find_subscription-subscribe_new id run hub (rw e at h))
]

pub find_subscription-subscribe_other :
    (id other run : ℕ) (hub : Hub)
    → (other == id) ≡ false
    → find_subscription id (subscribe other run hub) ≡ find_subscription id hub
unfolding find_subscription subscribe
find_subscription-subscribe_other id other run [] h = rw h refl
find_subscription-subscribe_other id other run (s ∷ hub) h = elim (Bool-cases (s.id == id)) [
  | inl e ↦ rw e refl
  | inr e ↦ rw e (find_subscription-subscribe_other id other run hub h)
]

pub find_subscription-unsubscribe :
    (id other : ℕ) (hub : Hub)
    → (other == id) ≡ false
    → find_subscription id (unsubscribe other hub) ≡ find_subscription id hub
unfolding find_subscription unsubscribe
find_subscription-unsubscribe id other [] h = refl
find_subscription-unsubscribe id other (s ∷ hub) h =
    let later = find_subscription-unsubscribe id other hub h in
    elim (Bool-cases (s.id == other)) [
      | inl e ↦ ground (arith, h, e, later)
      | inr e ↦ ground (arith, h, e, later)
    ]

pub find_subscription-publish :
    (id : ℕ) (e : Event) (hub : Hub) (run : ℕ) (q : List Event)
    → find_subscription id hub ≡ some (record { id = id; run_id = run; queue = q })
    → find_subscription id (publish e hub)
      ≡ some (record { id = id; run_id = run; queue = if run == e.run_id then q ++ e ∷ [] else q })
unfolding find_subscription publish update_where
find_subscription-publish id e [] run q h = ground (arith, h)
find_subscription-publish id e (s ∷ hub) run q h =
    ground (arith, h, find_subscription-publish id e hub run q)

pub find_subscription-set_queue :
    (id : ℕ) (new : List Event) (hub : Hub) (run : ℕ) (q : List Event)
    → find_subscription id hub ≡ some (record { id = id; run_id = run; queue = q })
    → find_subscription id (set_queue id new hub)
      ≡ some (record { id = id; run_id = run; queue = new })
unfolding find_subscription set_queue update_where
find_subscription-set_queue id new [] run q h = ground (arith, h)
find_subscription-set_queue id new (s ∷ hub) run q h =
    ground (arith, h, find_subscription-set_queue id new hub run q)
