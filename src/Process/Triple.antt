-- ===== src/Process/Triple.antt =====
-- Total-correctness triples: from a state with `P` an action that returns ends in `Q`, and one
-- that raises ends in `E`.
use atlas_the_agent.Base.{◌≡◌, Bool, true, false, if◌then◌else◌}
use atlas_the_agent.Persistence.Tables.{Database}
use atlas_the_agent.Process.Monad.{
  Exc, World, Result, ok, err, proceed, handle, Action, pure, raise, ◌>>=◌, catch, reads, session,
  session_value,
}

abbrev pub Post :
    {A : Type 0} → (A → World → Type 0) → (Exc → World → Type 0) → Result A × World → Type 0
Post Q E (ok a, w) = Q a w
Post Q E (err e, w) = E e w

pub record Triple {A : Type 0} (P : World → Type 0) (m : Action A) (Q : A → World → Type 0)
    (E : Exc → World → Type 0) : Type 0 where
  pub at : (w : World) → P w → Post Q E (m w)

pub Post-weaken :
    {A : Type 0} {Q R : A → World → Type 0} (E : Exc → World → Type 0) (x : Result A × World)
    → ((a : A) (w : World) → Q a w → R a w)
    → Post Q E x
    → Post R E x
Post-weaken E (ok a, w) f h = f a w h
Post-weaken E (err e, w) f h = h

pub Post-raises :
    {A : Type 0} (Q : A → World → Type 0) {E F : Exc → World → Type 0} (x : Result A × World)
    → ((e : Exc) (w : World) → E e w → F e w)
    → Post Q E x
    → Post Q F x
Post-raises Q (ok a, w) f h = h
Post-raises Q (err e, w) f h = f e w h

module _ {A : Type 0} {P : World → Type 0} {Q : A → World → Type 0} {E : Exc → World → Type 0} where
  pub Triple-pure : (a : A) → ((w : World) → P w → Q a w) → Triple P (pure a) Q E
  Triple-pure a h = record { at = h }

  pub Triple-raise : (e : Exc) → ((w : World) → P w → E e w) → Triple P (raise e) Q E
  Triple-raise e h = record { at = h }

  pub Triple-if :
      (b : Bool) (m n : Action A)
      → Triple P m Q E
      → Triple P n Q E
      → Triple P (if b then m else n) Q E
  Triple-if true m n hm hn = hm
  Triple-if false m n hm hn = hn

  -- The same, where a branch needs to know that it is taken.
  pub Triple-if_known :
      (b : Bool) (m n : Action A)
      → (b ≡ true → Triple P m Q E)
      → (b ≡ false → Triple P n Q E)
      → Triple P (if b then m else n) Q E
  Triple-if_known true m n hm hn = hm (λ i. true)
  Triple-if_known false m n hm hn = hn (λ i. false)

  -- What the precondition says of values other than the state.
  pub Triple-given :
      {X : Type 0} (m : Action A) → ((w : World) → P w → X) → (X → Triple P m Q E) → Triple P m Q E
  Triple-given m f t = record { at = λ w h. (t (f w h)).at w h }

  pub Triple-weaken :
      {R : A → World → Type 0} {m : Action A}
      → ((a : A) (w : World) → Q a w → R a w)
      → Triple P m Q E
      → Triple P m R E
  Triple-weaken {m = m} f t = record { at = λ w p. Post-weaken E (m w) f (t.at w p) }

  pub Triple-from :
      {R : World → Type 0} {m : Action A}
      → ((w : World) → R w → P w)
      → Triple P m Q E
      → Triple R m Q E
  Triple-from f t = record { at = λ w h. t.at w (f w h) }

  pub Triple-raises :
      {F : Exc → World → Type 0} {m : Action A}
      → ((e : Exc) (w : World) → E e w → F e w)
      → Triple P m Q E
      → Triple P m Q F
  Triple-raises {m = m} f t = record { at = λ w h. Post-raises Q (m w) f (t.at w h) }

module _ {A B : Type 0} {Q : A → World → Type 0} {R : B → World → Type 0}
    {E : Exc → World → Type 0} where
  Post-proceed :
      (f : A → Action B) (x : Result A × World)
      → Post Q E x
      → ((a : A) → Triple (Q a) (f a) R E)
      → Post R E (proceed f x)
  Post-proceed f (ok a, w) h hf = (hf a).at w h
  Post-proceed f (err e, w) h hf = h

  pub Triple-bind :
      {P : World → Type 0} (m : Action A) (f : A → Action B)
      → Triple P m Q E
      → ((a : A) → Triple (Q a) (f a) R E)
      → Triple P (m >>= f) R E
  Triple-bind m f hm hf = record { at = λ w p. Post-proceed f (m w) (hm.at w p) hf }

module _ {A : Type 0} {Q : A → World → Type 0} {E F : Exc → World → Type 0} where
  Post-handle :
      (h : Exc → Action A) (x : Result A × World)
      → Post Q F x
      → ((e : Exc) → Triple (F e) (h e) Q E)
      → Post Q E (handle h x)
  Post-handle h (ok a, w) p hh = p
  Post-handle h (err e, w) p hh = (hh e).at w p

  pub Triple-catch :
      {P : World → Type 0} (m : Action A) (h : Exc → Action A)
      → Triple P m Q F
      → ((e : Exc) → Triple (F e) (h e) Q E)
      → Triple P (catch m h) Q E
  Triple-catch m h hm hh = record { at = λ w p. Post-handle h (m w) (hm.at w p) hh }

module _ {P Q : World → Type 0} {E : Exc → World → Type 0} where
  pub Triple-session :
      (f : Database → Database)
      → ((w : World) → P w → Q (record w { db = f w.db }))
      → Triple P (session f) (λ u. Q) E
  Triple-session f h = record { at = h }

pub Triple-session_value :
    {A : Type 0} {P : World → Type 0} {Q : A → World → Type 0} {E : Exc → World → Type 0}
    (f : Database → A × Database)
    → ((w : World) → P w → Q (f w.db).0 (record w { db = (f w.db).1 }))
    → Triple P (session_value f) Q E
Triple-session_value f h = record { at = h }

pub Triple-reads :
    {A : Type 0} {P : World → Type 0} {Q : A → World → Type 0} {E : Exc → World → Type 0}
    (f : World → A)
    → ((w : World) → P w → Q (f w) w)
    → Triple P (reads f) Q E
Triple-reads f h = record { at = h }
