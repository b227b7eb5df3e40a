-- ===== src/Engine/Restoration/Keeping.antt =====
-- Actions that keep an invariant, however they end.
use aqualinkd_validator.Prelude.{Bool, true, false, ◌⊎◌, inl, inr, if◌then◌else◌}
use aqualinkd_validator.Equipment.{Failure, Res, ok, failed, cancelled}
use aqualinkd_validator.Engine.Restoration.Action.{Act, pure, lift, attempt, ◌>>=◌}
use aqualinkd_validator.Engine.Restoration.Logic.{
  Post, Attempted, Triple, Triple-pure, Triple-attempt, Triple-bind,
}

abbrev pub Keeping : {S A : Type 0} → (S → Type 0) → Act S A → Type 0
Keeping I m = Triple I m (λ _. I) I

keep_either :
    {S A : Type 0} (I : S → Type 0) (o : A ⊎ Failure) (s : S) → Attempted (λ _. I) I o s → I s
keep_either I (inl a) s h = h
keep_either I (inr f) s h = h

module _ {S : Type 0} {I : S → Type 0} where
  pub keep_pure : {A : Type 0} (a : A) → Keeping I (pure a)
  keep_pure a = record { at = λ s h. h }

  pub keep_lift : {A : Type 0} (r : Res A) → Keeping I (lift r)
  keep_lift (ok a) = record { at = λ s h. h }
  keep_lift (failed f) = record { at = λ s h. h }
  keep_lift cancelled = record { at = λ s h. h }

  pub keep_bind :
      {A B : Type 0} {m : Act S A} {f : A → Act S B}
      → Keeping I m
      → ((a : A) → Keeping I (f a))
      → Keeping I (m >>= f)
  keep_bind t u = Triple-bind (λ _. I) t u

  pub keep_try :
      {A B : Type 0} {m : Act S A} (after : A ⊎ Failure → B)
      → Keeping I m
      → Keeping I (attempt m >>= λ o. pure (after o))
  keep_try after t =
      Triple-bind (Attempted (λ _. I) I) (Triple-attempt t)
        (λ o. Triple-pure (after o) (λ _. I) (keep_either I o))

  pub keep_if :
      {A : Type 0} {m n : Act S A} (b : Bool)
      → Keeping I m
      → Keeping I n
      → Keeping I (if b then m else n)
  keep_if true t u = t
  keep_if false t u = u

keep_end :
    {S A : Type 0} (I J : S → Type 0) (r : Res A × S)
    → ((s : S) → I s → J s)
    → Post (λ _. I) I r
    → Post (λ _. J) J r
keep_end I J (ok a, s) w h = w s h
keep_end I J (failed f, s) w h = w s h
keep_end I J (cancelled, s) w h = w s h

-- What follows from a condition that holds at any end.
pub keep_weaken :
    {S A : Type 0} {P I J : S → Type 0} {m : Act S A}
    → ((s : S) → I s → J s)
    → Triple P m (λ _. I) I
    → Triple P m (λ _. J) J
keep_weaken {I} {J} {m} w t = record { at = λ s h. keep_end I J (m s) w (t.at s h) }
