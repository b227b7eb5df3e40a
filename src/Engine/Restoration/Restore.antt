-- ===== src/Engine/Restoration/Restore.antt =====
-- `RestorationSession.restore`: the three loops and the end.
use aqualinkd_validator.Prelude.{
  String, Bool, true, false, not, ◌&&◌, Option, none, some, List, [], ◌∷◌, ◌++◌, ◌⊎◌, inl, inr, map,
  if◌then◌else◌, contains, add_key, text_le,
}
use aqualinkd_validator.Prelude.Sorting.{sort}
use aqualinkd_validator.Equipment.{
  ℤ, eq_ℤ, Failure, ok, enabled, setpoint, EquipmentSnapshot, require_device,
}
use aqualinkd_validator.Engine.Restoration.Action.{
  Callbacks, M, pure, lift, get, attempt, ◌>>=◌, ◌>>◌,
}
use aqualinkd_validator.Engine.Restoration.{
  is_heater, Restored, state, setpoint_value, RestorationAction, RestorationError,
  safety_disable_error, setpoint_error, state_error, RestorationResult, begin_case,
  initial_device_enabled, require_original_setpoint, Key, key_le, keys_of,
}

-- `s & _HEATERS`
abbrev pub heaters_of : List String → List String
heaters_of [] = []
heaters_of (id ∷ ids) = let rest = heaters_of ids in if is_heater id then id ∷ rest else rest

-- The local variables of `restore`.
pub record Progress : Type 0 where
  pub actions : List RestorationAction
  pub errors : List RestorationError
  pub predisabled : List String
  pub unsafe : List String

abbrev pub no_progress : Progress
no_progress = record { actions = []; errors = []; predisabled = []; unsafe = [] }

abbrev pub add_action : String → Restored → String → Progress → Progress
add_action id restored status p = record p {
  actions = p.actions ++ (record { target = id; restored = restored; status = status } ∷ []);
}

abbrev pub add_error : RestorationError → Progress → Progress
add_error error p = record p { errors = p.errors ++ (error ∷ []) }

-- A `for` loop over identifiers.
unfoldable pub for_each :
    {W : Type 0} → (String → Progress → M W Progress) → List String → Progress → M W Progress
for_each body [] p = pure p
for_each body (id ∷ ids) p = do p' ← body id p; for_each body ids p'

abbrev pub same_setpoint : ℤ → Option ℤ → Bool
same_setpoint original none = false
same_setpoint original (some n) = eq_ℤ n original

module _ {W : Type 0} (cb : Callbacks W) where
  -- The first `try`: whether the heater had to be disabled.
  unfoldable pub disable_heater : String → M W Bool
  disable_heater id = do
    snapshot ← cb.read_snapshot
    device ← lift (require_device snapshot id)
    on ← lift (enabled device)
    if on then (cb.restore_device id false >> pure true) else pure false

  abbrev pub after_disable : String → Progress → Bool ⊎ Failure → Progress
  after_disable id p (inl true) =
      add_action id (state false) "safety-disabled"
        (record p { predisabled = add_key p.predisabled id })
  after_disable id p (inl false) = p
  after_disable id p (inr f) =
      add_error (safety_disable_error id f) (record p { unsafe = add_key p.unsafe id })

  unfoldable pub safety_step : String → Progress → M W Progress
  safety_step id p = do r ← attempt (disable_heater id); pure (after_disable id p r)

  -- The second `try`: the setpoint that was restored.
  unfoldable pub write_setpoint : String → M W ℤ
  write_setpoint id = do
    now ← get
    original ← lift (require_original_setpoint now.session id)
    snapshot ← cb.read_snapshot
    device ← lift (require_device snapshot id)
    current ← lift (setpoint device)
    if same_setpoint original current
        then pure original
        else (cb.restore_setpoint id original >> pure original)

  abbrev pub after_setpoint : String → Progress → ℤ ⊎ Failure → Progress
  after_setpoint id p (inl original) = add_action id (setpoint_value original) "restored" p
  after_setpoint id p (inr f) = add_error (setpoint_error id f) p

  unfoldable pub setpoint_step : String → Progress → M W Progress
  setpoint_step id p =
      if contains p.unsafe id
      then pure p
      else (do r ← attempt (write_setpoint id); pure (after_setpoint id p r))

  -- The third `try`: the state that was restored, `None` where the heater was left disabled.
  unfoldable pub write_state : List String → String → M W (Option Bool)
  write_state predisabled id = do
    now ← get
    expected ← lift (initial_device_enabled now.session id)
    if contains predisabled id && not expected
        then pure none
        else (cb.restore_device id expected >> pure (some expected))

  abbrev pub after_state : String → Progress → Option Bool ⊎ Failure → Progress
  after_state id p (inl none) = p
  after_state id p (inl (some expected)) = add_action id (state expected) "restored" p
  after_state id p (inr f) = add_error (state_error id f) p

  unfoldable pub state_step : String → Progress → M W Progress
  state_step id p = do r ← attempt (write_state p.predisabled id); pure (after_state id p r)

  abbrev pub no_errors : List RestorationError → Bool
  no_errors [] = true
  no_errors (e ∷ es) = false

  abbrev pub clear : M W (Unit {0})
  clear s = (ok tt, record s { session = begin_case s.session })

  abbrev pub key_id : Key → String
  key_id k = k.id

  -- From the third loop on.
  unfoldable pub restore_states : Progress → M W RestorationResult
  restore_states p₂ = do
    s₃ ← get
    keys ← lift (keys_of s₃.session s₃.session.touched_devices)
    p₃ ← for_each state_step (map key_id (sort key_le keys)) p₂
    if no_errors p₃.errors then clear else pure tt
    pure (record { actions = p₃.actions; errors = p₃.errors })

  -- From the second loop on.
  unfoldable pub restore_setpoints : Progress → M W RestorationResult
  restore_setpoints p₁ = do
    s₂ ← get
    p₂ ← for_each setpoint_step (sort text_le s₂.session.touched_setpoints) p₁
    restore_states p₂

  -- After the guard on the initial snapshot.
  unfoldable pub restore_all : M W RestorationResult
  restore_all = do
    s₁ ← get
    p₁ ← for_each safety_step (sort text_le (heaters_of s₁.session.touched_setpoints)) no_progress
    restore_setpoints p₁

  abbrev pub restore_from : Option EquipmentSnapshot → M W RestorationResult
  restore_from none s = (ok (record { actions = []; errors = [] }), s)
  restore_from (some snapshot) s = restore_all s

  unfoldable pub restore : M W RestorationResult
  restore s = restore_from s.session.initial_snapshot s
