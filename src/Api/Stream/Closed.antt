-- ===== src/Api/Stream/Closed.antt =====
-- A stream returns behind the first terminal event that it sends, and only there.
use atlas_the_agent.Base.{
  ℕ, ◌≡◌, refl, sym, subst, ap, Bool, true, false, Bool-cases, inl, inr, List, [], ◌∷◌, ◌++◌, All,
  All-append, leb, if◌then◌else◌,
}
use atlas_the_agent.Events.Types.{Event}
use atlas_the_agent.Persistence.Ledger.{list_after}
use atlas_the_agent.Api.Stream.{
  ends_stream, Stream, open_at, send, backfill, deliver, Phase, outside, subscribed, streaming,
  Server, Step, commit, announce, write, join, leave, enter, fill, receive, Reaches, here, next,
}

-- The last event is one that ends a run.
abbrev pub EndsRun : List Event → Type 0
EndsRun l =
    (early : List Event) × ((last : Event) × ((l ≡ early ++ last ∷ [])
        × (ends_stream last.type ≡ true)))

-- No event ends a run.
abbrev pub IsOngoing : List Event → Type 0
IsOngoing = All (λ e. ends_stream e.type ≡ false)

-- What a stream has sent, once it has returned and before.
abbrev pub IsClosedBy : Bool → List Event → Type 0
IsClosedBy true = EndsRun
IsClosedBy false = IsOngoing

abbrev pub IsClosed : Stream → Type 0
IsClosed st = IsClosedBy st.returned st.sent

send_ending : (e : Event) (st : Stream) → ends_stream e.type ≡ true → IsClosed (send e st)
unfolding send
send_ending e st t = subst (λ b. IsClosedBy b (st.sent ++ e ∷ [])) (sym t) (st.sent, (e, (refl, t)))

send_ongoing :
    (e : Event) (st : Stream)
    → ends_stream e.type ≡ false
    → IsOngoing st.sent
    → IsOngoing (send e st).sent
unfolding send
send_ongoing e st f h = All-append _ st.sent (e ∷ []) h (f, tt)

send-IsClosed : (e : Event) (st : Stream) → IsOngoing st.sent → IsClosed (send e st)
unfolding send
send-IsClosed e st h = elim (Bool-cases (ends_stream e.type)) [
  | inl t ↦ send_ending e st t
  | inr f ↦ subst (λ b. IsClosedBy b (st.sent ++ e ∷ [])) (sym f) (send_ongoing e st f h)
]

backfill-IsClosed :
    (es : List Event) (st : Stream)
    → st.returned ≡ false
    → IsOngoing st.sent
    → IsClosed (backfill es st)
unfolding backfill send
backfill-IsClosed [] st live h = subst (λ b. IsClosedBy b st.sent) (sym live) h
backfill-IsClosed (e ∷ es) st live h =
    let taken : Bool → Stream = λ b. if b then send e st else backfill es (send e st) in
    elim (Bool-cases (ends_stream e.type)) [
      | inl t ↦ subst IsClosed (sym (ap taken t)) (send_ending e st t)
      | inr f ↦
          subst IsClosed (sym (ap taken f))
            (backfill-IsClosed es (send e st) f (send_ongoing e st f h))
    ]

if-IsClosed : (b : Bool) (x y : Stream) → IsClosed x → IsClosed y → IsClosed (if b then x else y)
if-IsClosed true x y hx hy = hx
if-IsClosed false x y hx hy = hy

deliver-IsClosed :
    (e : Event) (st : Stream) → st.returned ≡ false → IsClosed st → IsClosed (deliver e st)
unfolding deliver
deliver-IsClosed e st live h =
    if-IsClosed (leb e.seq st.last_seq) st (send e st) h
      (send-IsClosed e st (subst (λ b. IsClosedBy b st.sent) live h))

abbrev pub IsClosedIn : Phase → Type 0
IsClosedIn outside = Unit
IsClosedIn subscribed = Unit
IsClosedIn (streaming st) = IsClosed st

module _ (id run after : ℕ) where
  step-IsClosedIn : (s t : Server) → Step id run after s t → IsClosedIn s.phase → IsClosedIn t.phase
  step-IsClosedIn _ _ (commit db hub p r type payload) h = h
  step-IsClosedIn _ _ (announce db hub p e) h = h
  step-IsClosedIn _ _ (write s db e) h = h
  step-IsClosedIn _ _ (join s other r e) h = h
  step-IsClosedIn _ _ (leave s other e) h = h
  step-IsClosedIn _ _ (enter db hub u e) h = tt
  step-IsClosedIn _ _ (fill db hub u) h =
      backfill-IsClosed (list_after run after db) (open_at after) refl tt
  step-IsClosedIn _ _ (receive db hub u st e q live found) h = deliver-IsClosed e st live h

  pub reached-IsClosedIn :
      (s t : Server) → Reaches id run after s t → IsClosedIn s.phase → IsClosedIn t.phase
  reached-IsClosedIn s _ here h = h
  reached-IsClosedIn s _ (next m t r step) h = step-IsClosedIn m t step (reached-IsClosedIn s m r h)
