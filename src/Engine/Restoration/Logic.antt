-- ===== src/Engine/Restoration/Logic.antt =====
-- Conditions before and after an action, one rule for each way to build an action.
use aqualinkd_validator.Prelude.{String, ◌≡◌, refl, List, [], ◌∷◌, ◌⊎◌, inl, inr}
use aqualinkd_validator.Equipment.{Failure, Res, ok, failed, cancelled}
use aqualinkd_validator.Engine.Restoration.Action.{State, Act, M, pure, lift, get, attempt, ◌>>=◌}
use aqualinkd_validator.Engine.Restoration.Restore.{Progress, for_each}

-- `Q` after a return, `E` after an exception or a cancellation.
abbrev pub Post : {S A : Type 0} → (A → S → Type 0) → (S → Type 0) → Res A × S → Type 0
Post Q E (ok a, s) = Q a s
Post Q E (failed f, s) = E s
Post Q E (cancelled, s) = E s

pub record Triple {S A : Type 0} (P : S → Type 0) (m : Act S A) (Q : A → S → Type 0)
    (E : S → Type 0) : Type 0 where
  pub at : (s : S) → P s → Post Q E (m s)

-- After a `try`.
abbrev pub Attempted : {S A : Type 0} → (A → S → Type 0) → (S → Type 0) → A ⊎ Failure → S → Type 0
Attempted Q E (inl a) = Q a
Attempted Q E (inr f) = E

module _ {S A : Type 0} (Q : A → S → Type 0) (E : S → Type 0) where
  Post-attempt : (r : Res A × S) → Post Q E r → Post (Attempted Q E) E (attempt (λ _. r) r.1)
  Post-attempt (ok a, s) h = h
  Post-attempt (failed f, s) h = h
  Post-attempt (cancelled, s) h = h

  -- From what holds after a return and what holds however the action ended.
  pub Post-intro : (r : Res A × S) → ((a : A) → r.0 ≡ ok a → Q a r.1) → E r.1 → Post Q E r
  Post-intro (ok a, s) h e = h a refl
  Post-intro (failed f, s) h e = e
  Post-intro (cancelled, s) h e = e

-- What holds however an action ended.
pub Post-any : {S A : Type 0} (E : S → Type 0) (r : Res A × S) → Post (λ _. E) E r → E r.1
Post-any E (ok a, s) h = h
Post-any E (failed f, s) h = h
Post-any E (cancelled, s) h = h

module _ {S A : Type 0} {P : S → Type 0} {E : S → Type 0} where
  pub Triple-pure : (a : A) (Q : A → S → Type 0) → ((s : S) → P s → Q a s) → Triple P (pure a) Q E
  Triple-pure a Q h = record { at = h }

  -- A failure leaves the state as it was.
  pub Triple-lift :
      (r : Res A) → ((s : S) → P s → E s) → Triple P (lift r) (λ a s. P s × (r ≡ ok a)) E
  Triple-lift (ok a) h = record { at = λ s p. (p, refl) }
  Triple-lift (failed f) h = record { at = h }
  Triple-lift cancelled h = record { at = h }

  pub Triple-attempt :
      {m : Act S A} {Q : A → S → Type 0} → Triple P m Q E → Triple P (attempt m) (Attempted Q E) E
  Triple-attempt {m} {Q} t = record { at = λ s p. Post-attempt Q E (m s) (t.at s p) }

module _ {S A B : Type 0} {E : S → Type 0} where
  Post-bind :
      (Q : A → S → Type 0) (R : B → S → Type 0) (f : A → Act S B) (r : Res A × S)
      → ((a : A) → Triple (Q a) (f a) R E)
      → Post Q E r
      → Post R E (((λ _. r) >>= f) r.1)
  unfolding ◌>>=◌
  Post-bind Q R f (ok a, s) t h = (t a).at s h
  Post-bind Q R f (failed e, s) t h = h
  Post-bind Q R f (cancelled, s) t h = h

  pub Triple-bind :
      {P : S → Type 0} {m : Act S A} {f : A → Act S B} (Q : A → S → Type 0) {R : B → S → Type 0}
      → Triple P m Q E
      → ((a : A) → Triple (Q a) (f a) R E)
      → Triple P (m >>= f) R E
  unfolding ◌>>=◌
  Triple-bind {m} {f} Q {R} t u = record { at = λ s p. Post-bind Q R f (m s) u (t.at s p) }

Post-weaken :
    {S A : Type 0} (Q : A → S → Type 0) (E E' : S → Type 0) (r : Res A × S)
    → ((s : S) → E s → E' s)
    → Post Q E r
    → Post Q E' r
Post-weaken Q E E' (ok a, s) w h = h
Post-weaken Q E E' (failed f, s) w h = w s h
Post-weaken Q E E' (cancelled, s) w h = w s h

module _ {S A : Type 0} {P : S → Type 0} {m : Act S A} {Q : A → S → Type 0} where
  pub Triple-weaken :
      {E E' : S → Type 0} → ((s : S) → E s → E' s) → Triple P m Q E → Triple P m Q E'
  Triple-weaken {E} {E'} w t = record { at = λ s p. Post-weaken Q E E' (m s) w (t.at s p) }

Post-after :
    {S A : Type 0} (Q R : A → S → Type 0) (E : S → Type 0) (r : Res A × S)
    → ((a : A) (s : S) → Q a s → R a s)
    → Post Q E r
    → Post R E r
Post-after Q R E (ok a, s) w h = w a s h
Post-after Q R E (failed f, s) w h = h
Post-after Q R E (cancelled, s) w h = h

pub Triple-after :
    {S A : Type 0} {P : S → Type 0} {m : Act S A} (Q : A → S → Type 0) {R : A → S → Type 0}
    {E : S → Type 0}
    → ((a : A) (s : S) → Q a s → R a s)
    → Triple P m Q E
    → Triple P m R E
Triple-after {m} Q {R} {E} w t = record { at = λ s p. Post-after Q R E (m s) w (t.at s p) }

pub Triple-get :
    {S : Type 0} {P : S → Type 0} {E : S → Type 0} → Triple P get (λ a s. P s × (a ≡ s)) E
Triple-get = record { at = λ s p. (p, refl) }

module _ {W : Type 0} {E : State W → Type 0} where
  -- A loop that does not look back: an invariant of each round.
  pub Triple-for_each :
      {body : String → Progress → M W Progress} (I : Progress → State W → Type 0)
      → ((id : String) (p : Progress) → Triple (I p) (body id p) I E)
      → (ids : List String) (p : Progress) → Triple (I p) (for_each body ids p) I E
  unfolding for_each
  Triple-for_each I t [] p = Triple-pure p I (λ s h. h)
  Triple-for_each I t (id ∷ ids) p = Triple-bind I (t id p) (λ p'. Triple-for_each I t ids p')
