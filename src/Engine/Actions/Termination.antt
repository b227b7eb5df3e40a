-- ===== src/Engine/Actions/Termination.antt =====
-- The waits of an action end before their fuel does.
use aqualinkd_validator.Prelude.{
  ℕ, zero, suc, ◌+◌, ◌*◌, ◌≤◌, String, Bool, true, false, ◌≡◌, refl, ap, sym, ◌∙◌, inl, inr,
  if◌then◌else◌, ltb, arith, Bool-cases, Option-cases, lookup,
}
use aqualinkd_validator.Equipment.{
  Failure, out_of_fuel, not_converged, Res, ok, failed, cancelled, DeviceState, int_status, enabled,
  transitioning, EquipmentSnapshot, require_device,
}
use aqualinkd_validator.Engine.Restoration.Action.{State, M, pure, lift, ◌>>=◌, ◌>>◌}
use aqualinkd_validator.Engine.Restoration.Logic.{Post-any}
use aqualinkd_validator.Engine.Restoration.Keeping.{Keeping, keep_pure}
use aqualinkd_validator.Engine.Runtime.{EquipmentRuntime}
use aqualinkd_validator.Engine.Actions.{
  poll, read_device, has_state, wait_until, wait_for_device_state,
}
use aqualinkd_validator.Engine.Actions.Keeps.{Keeps, has_state-keeps}

abbrev pub is_out : Failure → Bool
is_out out_of_fuel = true
is_out _ = false

-- The fuel of a loop ran out.
abbrev pub ran_out : {A : Type 0} → Res A → Bool
ran_out (ok a) = false
ran_out (failed f) = is_out f
ran_out cancelled = false

abbrev pub Ends : {W A : Type 0} → M W A → Type 0
Ends {W} m = (s : State W) → ran_out (m s).0 ≡ false

-- A clock that no call turns back, that `time` reads while it returns, and that a sleep advances.
-- No call reports that fuel ran out.
pub record IsTimed {W : Type 0} (clock : W → ℕ) (rt : EquipmentRuntime W) : Type 0 where
  pub later : (c : ℕ) → Keeps (λ s. c ≤ clock s.world) rt
  pub time_now :
      (s : State W) (now : ℕ)
      → (rt.time s).0 ≡ ok now
      → (clock s.world ≤ now) × (now ≤ clock (rt.time s).1.world)
  pub sleep_on :
      (s : State W) (n : ℕ)
      → (rt.sleep n s).0 ≡ ok tt
      → clock s.world + n ≤ clock (rt.sleep n s).1.world
  pub time_ends : Ends rt.time
  pub sleep_ends : (n : ℕ) → Ends (rt.sleep n)
  pub offset_ends : Ends rt.offset_ns
  pub devices_end : Ends rt.devices

Ends-after :
    {W A B : Type 0} (r : Res A × State W) (f : A → M W B)
    → ran_out r.0 ≡ false
    → ((a : A) → r.0 ≡ ok a → ran_out (f a r.1).0 ≡ false)
    → ran_out (((λ _. r) >>= f) r.1).0 ≡ false
unfolding ◌>>=◌
Ends-after (ok a, s) f h k = k a refl
Ends-after (failed e, s) f h k = h
Ends-after (cancelled, s) f h k = refl

-- An action that ends, and then one that ends.
Ends-then :
    {W A B : Type 0} (m : M W A) (f : A → M W B) (s : State W)
    → ran_out (m s).0 ≡ false
    → ((a : A) → (m s).0 ≡ ok a → ran_out (f a (m s).1).0 ≡ false)
    → ran_out ((m >>= f) s).0 ≡ false
unfolding ◌>>=◌
Ends-then m f s h k = Ends-after (m s) f h k

require_device_ends :
    (snapshot : EquipmentSnapshot) (id : String) → ran_out (require_device snapshot id) ≡ false
unfolding require_device
require_device_ends snapshot id = elim (Option-cases (lookup id snapshot.devices)) [
  | inl e ↦ rw (e, ran_out) refl
  | inr (device, e) ↦ rw (e, ran_out) refl
]

transitioning_ends : (device : DeviceState) → ran_out (transitioning device) ≡ false
unfolding transitioning int_status
transitioning_ends device = elim (Option-cases device.raw_int_status) [
  | inl e ↦ rw e refl
  | inr (n, e) ↦ rw e refl
]

enabled_ends : (device : DeviceState) → ran_out (enabled device) ≡ false
unfolding enabled int_status
enabled_ends device = elim (Option-cases device.raw_int_status) [
  | inl e ↦ rw e refl
  | inr (n, e) ↦ rw e refl
]

unit_eq : (u : Unit {0}) → tt ≡ u
unit_eq tt = refl

module _ {W : Type 0} (clock : W → ℕ) (rt : EquipmentRuntime W) (law : IsTimed clock rt) where
  -- A call after which it is no earlier.
  abbrev Later : {A : Type 0} → M W A → Type 0
  Later m = (c : ℕ) → Keeping (λ s. c ≤ clock s.world) m

  after_Later :
      {A : Type 0} (m : M W A) → Later m → (s : State W) → clock s.world ≤ clock (m s).1.world
  after_Later m later s =
      let c = clock s.world in
      Post-any (λ t. c ≤ clock t.world) (m s) ((later c).at s (omega arith))

  poll-Ends :
      (fuel deadline : ℕ) (interrupt : M W (Unit {0})) (check : M W Bool) (failure : Failure)
      → is_out failure ≡ false
      → Ends interrupt
      → Later interrupt
      → Ends check
      → Later check
      → (s : State W) → deadline ≤ clock s.world + fuel * rt.poll_seconds
      → ran_out (poll rt (suc fuel) interrupt deadline check failure s).0 ≡ false
  unfolding poll
  poll-Ends zero deadline interrupt check failure other ends later ends' later' s h =
      Ends-then rt.time _ s (law.time_ends s) λ now e.
        let (low, high) = law.time_now s now e in
        let late : ltb now deadline ≡ false = ground arith in rw late other
  poll-Ends (suc fuel) deadline interrupt check failure other ends later ends' later' s h =
      Ends-then rt.time _ s (law.time_ends s) λ now e.
        let (low, high) = law.time_now s now e in
        elim (Bool-cases (ltb now deadline)) [
          | inr late ↦ rw late other
          | inl early ↦ rw early (
              Ends-then check _ (rt.time s).1 (ends' (rt.time s).1) λ seen e'.
                again
                  (poll-Ends fuel deadline interrupt check failure other ends later ends' later')
                  seen (check (rt.time s).1).1
                  (omega (
                    arith,
                    after_Later rt.time time_Later s,
                    after_Later check later' (rt.time s).1,
                  )))
        ]
    where
      time_Later : Later rt.time
      time_Later c = (law.later c).time

      sleep_Later : Later (rt.sleep rt.poll_seconds)
      sleep_Later c = (law.later c).sleep rt.poll_seconds

      again :
          ((t : State W)
            → deadline ≤ clock t.world + fuel * rt.poll_seconds
            → ran_out (poll rt (suc fuel) interrupt deadline check failure t).0 ≡ false)
          → (seen : Bool) (t : State W) → clock s.world ≤ clock t.world
          → ran_out
              ((if seen
                  then rt.offset_ns
                  else (rt.sleep rt.poll_seconds
                      >> (interrupt >> poll rt (suc fuel) interrupt deadline check failure)))
                t).0
            ≡ false
      again rest true t up = law.offset_ends t
      again rest false t up =
          let t' = (rt.sleep rt.poll_seconds t).1 in
          Ends-then (rt.sleep rt.poll_seconds) _ t (law.sleep_ends rt.poll_seconds t) λ u e.
            Ends-then interrupt _ t' (ends t') λ v e'. rest (interrupt t').1 (
              omega (
                arith,
                h,
                up,
                law.sleep_on t rt.poll_seconds (e ∙ ap ok (sym (unit_eq u))),
                after_Later interrupt later t',
              ))

  read_device-Ends : (id : String) → Ends (read_device rt id)
  unfolding read_device
  read_device-Ends id s =
      Ends-then rt.devices _ s (law.devices_end s) λ snapshot e. require_device_ends snapshot id

  has_state-Ends : (id : String) (on : Bool) → Ends (has_state rt id on)
  unfolding has_state
  has_state-Ends id on s =
      let t = (read_device rt id s).1 in
      Ends-then (read_device rt id) _ s (read_device-Ends id s) λ device e.
        Ends-then (lift (transitioning device)) _ t (transitioning_ends device) λ moving e'.
          elim (Bool-cases moving) [
            | inl m ↦ rw m refl
            | inr m ↦
                rw m (Ends-then (lift (enabled device)) _ t (enabled_ends device) λ now e''. refl)
          ]

  -- With one round more than the timeout has polling intervals, the wait for a state does not run
  -- out of fuel: it sees the state, times out, or passes on what a call raised.
  pub wait_for_device_state-Ends :
      (fuel timeout : ℕ) (id : String) (on : Bool)
      → timeout ≤ fuel * rt.poll_seconds
      → Ends (wait_for_device_state rt (suc fuel) id on timeout)
  unfolding wait_for_device_state wait_until
  wait_for_device_state-Ends fuel timeout id on h s =
      Ends-then rt.time _ s (law.time_ends s) λ now e.
        poll-Ends fuel (now + timeout) (pure tt) (has_state rt id on) (not_converged id) refl
          (λ t. refl) (λ c. keep_pure tt) (has_state-Ends id on)
          (λ c. has_state-keeps rt (law.later c) id on) (rt.time s).1
          (omega (arith, h, (law.time_now s now e).1))
