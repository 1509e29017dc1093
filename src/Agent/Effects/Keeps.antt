-- ===== src/Agent/Effects/Keeps.antt =====
-- What the actions of a run keep: from a state with the invariant an action leads to one that has it
-- too, whether it fails or not, and a value it returns has the property that goes with it.
use secretagent_rust_agent.Base.{Outcome, ok, err}
use secretagent_rust_agent.Agent.Effects.{State, M, continue, ◌>>=◌, pure, attempt}

abbrev pub Post : {A : Type 0} → (A → Type 0) → Outcome A → Type 0
Post Q (ok a) = Q a
Post Q (err e) = Unit {0}

abbrev pub Anything : {A : Type 0} → A → Type 0
Anything a = Unit {0}

module _ {Value World : Type 0} (I : State Value World → Type 0) where
  abbrev pub Holds : {A : Type 0} → (A → Type 0) → Outcome A × State Value World → Type 0
  Holds Q r = I r.1 × Post Q r.0

  pub record Keeps {A : Type 0} (Q : A → Type 0) (m : M Value World A) : Type 0 where
    pub at : (s : State Value World) → I s → Holds Q (m s)

  Holds-continue :
      {A B : Type 0} (Q : A → Type 0) (P : B → Type 0) (f : A → M Value World B)
      (r : Outcome A × State Value World)
      → ((a : A) → Q a → Keeps P (f a))
      → Holds Q r
      → Holds P (continue f r)
  Holds-continue Q P f (ok a, s) k (i, q) = (k a q).at s i
  Holds-continue Q P f (err e, s) k (i, q) = (i, tt)

  pub Keeps-bind :
      {A B : Type 0} {Q : A → Type 0} {P : B → Type 0} {m : M Value World A}
      (f : A → M Value World B)
      → Keeps Q m
      → ((a : A) → Q a → Keeps P (f a))
      → Keeps P (m >>= f)
  Keeps-bind {Q = Q} {P = P} {m = m} f km kf = record {
    at = λ s i. Holds-continue Q P f (m s) kf (km.at s i);
  }

  -- The common case, where nothing is known of the value that is passed on.
  pub Keeps-then :
      {A B : Type 0} {P : B → Type 0} {m : M Value World A} (f : A → M Value World B)
      → Keeps Anything m
      → ((a : A) → Keeps P (f a))
      → Keeps P (m >>= f)
  Keeps-then f first then_ = Keeps-bind f first (λ a q. then_ a)

  pub Keeps-attempt :
      {A : Type 0} {m : M Value World A} → Keeps Anything m → Keeps Anything (attempt m)
  Keeps-attempt km = record { at = λ s i. ((km.at s i).0, tt) }

  pub Keeps-pure :
      {A : Type 0} {Q : A → Type 0} (a : A) → Q a → Keeps Q (pure {Value = Value} {World = World} a)
  Keeps-pure a q = record { at = λ s i. (i, q) }
