-- ===== src/Api/Stream/Backlog.antt =====
-- What the backfill of a stream sends.
use atlas_the_agent.Base.{
  append_nil, append_assoc, ℕ, ◌+◌, ◌≤◌, ◌≡◌, refl, sym, subst, ◌∙◌, ap, Bool, true, false, List,
  [], ◌∷◌, ◌++◌, length, arith, if◌then◌else◌,
}
use atlas_the_agent.Events.Types.{Event}
use atlas_the_agent.Events.Gapless.{Numbered}
use atlas_the_agent.Api.Stream.{ends_stream, Stream, send, backfill}
use atlas_the_agent.Api.Stream.Windows.{up_to, up_to_beyond}

-- What the backfill sends of events that are numbered behind the cursor.
pub record IsFilled (es : List Event) (from to : Stream) : Type 0 where
  pub sent : to.sent ≡ from.sent ++ up_to to.last_seq es
  pub onward : from.last_seq ≤ to.last_seq
  pub bounded : to.last_seq ≤ from.last_seq + length es
  pub whole : to.returned ≡ false → to.last_seq ≡ from.last_seq + length es

up_to_first : (b : ℕ) (e : Event) (es : List Event) → e.seq ≤ b → up_to b (e ∷ es) ≡ e ∷ up_to b es
up_to_first b e es h = ground (arith, h)

-- After the event `e`, the handler returns or goes on with `later`.
module _ (e : Event) (es : List Event) (st later : Stream)
    (h : Numbered (st.last_seq + 1) (e ∷ es)) where
  after_first :
      (b : Bool)
      → ends_stream e.type ≡ b
      → (b ≡ false → IsFilled es (send e st) later)
      → IsFilled (e ∷ es) st (if b then send e st else later)
  unfolding send
  after_first true t rest = record {
    sent =
        ap (λ l. st.sent ++ l)
          (sym (
            up_to_first e.seq e es (omega arith)
            ∙ ap (λ l. e ∷ l)
                (up_to_beyond e.seq (st.last_seq + 1 + 1) es h.1 (omega (arith, h.0)))));
    onward = omega (arith, h.0);
    bounded = omega (arith, h.0);
    whole = λ u. ground (arith, t, u);
  }
  after_first false t rest =
      let k = rest refl in
      record {
        sent =
            k.sent
            ∙ append_assoc st.sent (e ∷ []) (up_to later.last_seq es)
            ∙ ap (λ l. st.sent ++ l) (sym (up_to_first later.last_seq e es k.onward));
        onward = omega (arith, h.0, k.onward);
        bounded = omega (arith, h.0, k.bounded);
        whole = λ u. omega (arith, h.0, k.whole u);
      }

pub backfill-IsFilled :
    (es : List Event) (st : Stream)
    → Numbered (st.last_seq + 1) es
    → st.returned ≡ false
    → IsFilled es st (backfill es st)
unfolding backfill send
backfill-IsFilled [] st h r = record {
  sent = sym (append_nil st.sent);
  onward = omega arith;
  bounded = omega arith;
  whole = λ u. omega arith;
}
backfill-IsFilled (e ∷ es) st h r =
    after_first e es st (backfill es (send e st)) h (ends_stream e.type) refl
      λ t. backfill-IsFilled es (send e st) (subst (λ m. Numbered m es) (omega (arith, h.0)) h.1) t
