-- ===== src/Engine/Restoration/Action.antt =====
-- The state of a restoration and the callbacks that it runs: an action may raise or be cancelled,
-- and a callback may change the session too.
use aqualinkd_validator.Prelude.{String, Bool, Option, List, ◌⊎◌, inl, inr}
use aqualinkd_validator.Equipment.{ℤ, Failure, Res, ok, failed, cancelled, EquipmentSnapshot}

pub record RestorationSession : Type 0 where
  pub initial_snapshot : Option EquipmentSnapshot
  pub touched_devices : List String
  pub touched_setpoints : List String
  pub requested_states : List (String × Bool)

pub record State (W : Type 0) : Type 0 where
  pub session : RestorationSession
  pub world : W

-- Actions on a state, and those of a restoration.
abbrev pub Act : Type 0 → Type 0 → Type 0
Act S A = S → Res A × S

abbrev pub M : Type 0 → Type 0 → Type 0
M W A = Act (State W) A

pub record Callbacks (W : Type 0) : Type 0 where
  pub read_snapshot : M W EquipmentSnapshot
  pub restore_setpoint : String → ℤ → M W (Unit {0})
  pub restore_device : String → Bool → M W (Unit {0})

abbrev outcome : {A : Type 0} → Res A → Res (A ⊎ Failure)
outcome (ok a) = ok (inl a)
outcome (failed f) = ok (inr f)
outcome cancelled = cancelled

module _ {S A : Type 0} where
  abbrev pub pure : A → Act S A
  pure a s = (ok a, s)

  abbrev pub lift : Res A → Act S A
  lift r s = (r, s)

  -- `try … except Exception`: a cancellation is not caught.
  abbrev pub attempt : Act S A → Act S (A ⊎ Failure)
  attempt m s = let (r, s') = m s in (outcome r, s')

abbrev pub get : {S : Type 0} → Act S S
get s = (ok s, s)

module _ {S A B : Type 0} where
  abbrev continue : Res A → (A → Act S B) → Act S B
  continue (ok a) f s = f a s
  continue (failed e) f s = (failed e, s)
  continue cancelled f s = (cancelled, s)

  infixl 10 ◌>>=◌ ◌>>◌
  unfoldable pub ◌>>=◌ : Act S A → (A → Act S B) → Act S B
  ◌>>=◌ m f s = let (r, s') = m s in continue r f s'

  abbrev pub ◌>>◌ : Act S A → Act S B → Act S B
  m >> n = m >>= λ _. n
