-- ===== src/Engine/Actions/Performing.antt =====
-- Rules for the actions on equipment: what a command leads to, and what its check shows.
use aqualinkd_validator.Prelude.{
  ℕ, zero, suc, ◌+◌, String, Bool, true, false, ◌≡◌, Option, none, some, ◌⊎◌, inl, inr,
  if◌then◌else◌, ltb,
}
use aqualinkd_validator.Equipment.{Failure, not_converged, Res, ok, failed, cancelled, Res-cases}
use aqualinkd_validator.Monitor.{LineEvent}
use aqualinkd_validator.Engine.Restoration.Action.{RestorationSession, State, M, lift, ◌>>=◌, ◌>>◌}
use aqualinkd_validator.Engine.Restoration.Logic.{
  Post, Attempted, Triple, Triple-weaken, Triple-attempt, Triple-bind,
}
use aqualinkd_validator.Engine.Restoration.Keeping.{Keeping}
use aqualinkd_validator.Engine.Runtime.{Requested, Name, EquipmentRuntime, ensure, on_session}
use aqualinkd_validator.Pda.Programmer.{
  ProgrammerMarkers, check_errors, result_of, raise_event, wait_for_state_or_error,
}
use aqualinkd_validator.Engine.Actions.{Timeouts, poll, wait_until, perform}
use aqualinkd_validator.Engine.Actions.Keeps.{
  Keeps, Concludes, Shows, wait_for_active-keeps, wait_for_completion-keeps, check_errors-keeps,
}

module _ {W A : Type 0} {Q J : State W → Type 0} where
  Post-ensure :
      (last : Option A → M W (Unit {0})) (r : Res A × State W)
      → ((o : Option A) → Triple Q (last o) (λ _. Q) J)
      → ((o : Option A) → Keeping J (last o))
      → Post (λ _. Q) J r
      → Post (λ _. Q) J (ensure (λ _. r) last r.1)
  unfolding ensure
  Post-ensure last (ok a, s) keep fail h =
      (Triple-bind (λ _. Q) (keep (some a)) (λ _. record { at = λ s' h'. h' })).at s h
  Post-ensure last (failed f, s) keep fail h =
      (Triple-bind (λ _. J) {R = λ _. Q} (fail none) (λ _. record { at = λ s' h'. h' })).at s h
  Post-ensure last (cancelled, s) keep fail h =
      (Triple-bind (λ _. J) {R = λ _. Q} (fail none) (λ _. record { at = λ s' h'. h' })).at s h

  pub Triple-ensure :
      {P : State W → Type 0} {m : M W A} (last : Option A → M W (Unit {0}))
      → Triple P m (λ _. Q) J
      → ((o : Option A) → Triple Q (last o) (λ _. Q) J)
      → ((o : Option A) → Keeping J (last o))
      → Triple P (ensure m last) (λ _. Q) J
  unfolding ensure
  Triple-ensure {m} last t keep fail = record {
    at = λ s p. Post-ensure last (m s) keep fail (t.at s p);
  }

-- An action from a state in `I`: its command leads to `J`, and its check to `Q`.
module _ {W : Type 0} {Q J : State W → Type 0} (rt : EquipmentRuntime W) (keeps : Keeps J rt)
    (ends : Concludes Q J rt) where
  poll_lem :
      (fuel : ℕ) (interrupt : M W (Unit {0})) (deadline : ℕ) (check : M W Bool) (failure : Failure)
      → Keeping J interrupt
      → Triple J check (Shows Q J) J
      → Triple J (poll rt fuel interrupt deadline check failure) (λ _. Q) J
  unfolding poll
  poll_lem zero interrupt deadline check failure calm shows = record { at = λ s h. h }
  poll_lem (suc fuel) interrupt deadline check failure calm shows =
      Triple-bind (λ _. J) keeps.time
        λ now. round (poll_lem fuel interrupt deadline check failure calm shows) (ltb now deadline)
    where
      again :
          Triple J (poll rt fuel interrupt deadline check failure) (λ _. Q) J
          → (seen : Bool)
          → Triple
              (Shows Q J seen)
              (if seen
                then rt.offset_ns
                else (rt.sleep rt.poll_seconds
                    >> (interrupt >> poll rt fuel interrupt deadline check failure)))
              (λ _. Q)
              J
      again rest true = ends.offset_ns
      again rest false =
          Triple-bind (λ _. J) (keeps.sleep rt.poll_seconds)
            λ _. Triple-bind (λ _. J) calm λ _. rest

      round :
          Triple J (poll rt fuel interrupt deadline check failure) (λ _. Q) J
          → (early : Bool)
          → Triple J
              (if early
                then (check >>= (λ seen.
                    if seen
                    then rt.offset_ns
                    else (rt.sleep rt.poll_seconds
                        >> (interrupt >> poll rt fuel interrupt deadline check failure))))
                else lift (failed failure))
              (λ _. Q)
              J
      round rest true = Triple-bind (Shows Q J) shows (again rest)
      round rest false = record { at = λ s h. h }

  pub wait_until_lem :
      (fuel : ℕ) (interrupt : M W (Unit {0})) (timeout : ℕ) (check : M W Bool) (failure : Failure)
      → Keeping J interrupt
      → Triple J check (Shows Q J) J
      → Triple J (wait_until rt fuel interrupt timeout check failure) (λ _. Q) J
  unfolding wait_until
  wait_until_lem fuel interrupt timeout check failure calm shows =
      Triple-bind (λ _. J) keeps.time
        λ now. poll_lem fuel interrupt (now + timeout) check failure calm shows

  settle_result :
      (o : ℕ ⊎ Failure) → Triple (Attempted (λ _. Q) J o) (lift (result_of rt o)) (λ _. Q) J
  settle_result (inl n) = record { at = λ s h. h }
  settle_result (inr f) = record { at = λ s h. h }

  check_errors_lem : (task : String) (after : ℕ) → Triple Q (check_errors rt task after) (λ _. Q) J
  unfolding check_errors
  check_errors_lem task after =
      Triple-bind (λ _. Q) (ends.done_waiting _ after) λ found. raised found
    where
      raised : (found : Option LineEvent) → Triple Q (lift (raise_event found)) (λ _. Q) J
      raised none = record { at = λ s h. h }
      raised (some event) = record { at = λ s h. ends.weaker s h }

  pub wait_for_state_or_error_lem :
      (task : String) (after fuel timeout : ℕ) (check : M W Bool) (failure : Failure)
      → Triple J check (Shows Q J) J
      → Triple J
          (wait_for_state_or_error rt task after
            (λ interrupt. wait_until rt fuel interrupt timeout check failure))
          (λ _. Q)
          J
  unfolding wait_for_state_or_error
  wait_for_state_or_error_lem task after fuel timeout check failure shows =
      Triple-bind (Attempted (λ _. Q) J)
        (Triple-attempt (
          wait_until_lem fuel (check_errors rt task after) timeout check failure
            (check_errors-keeps rt keeps task after) shows))
        λ o. Triple-bind (λ _. Attempted (λ _. Q) J o) (still o) λ _. settle_result o
    where
      still :
          (o : ℕ ⊎ Failure)
          → Triple
              (Attempted (λ _. Q) J o)
              (check_errors rt task after)
              (λ _. Attempted (λ _. Q) J o)
              J
      still (inl n) = check_errors_lem task after
      still (inr f) = check_errors-keeps rt keeps task after

-- An action from a state in `I`: its command leads to `J`, and its check to `Q`.
module _ {W : Type 0} {I Q J : State W → Type 0} (rt : EquipmentRuntime W) (before : Keeps I rt)
    (keeps : Keeps J rt) (ends : Concludes Q J rt) (into : (s : State W) → I s → J s) where
  pub perform_lem :
      (fuel : ℕ) (name : Name) (category phase action id : String) (requested : Requested)
      (markers : ProgrammerMarkers) (times : Timeouts) (command : M W (Unit {0})) (check : M W Bool)
      → Triple I command (λ _. J) J
      → Triple J check (Shows Q J) J
      → Triple I
          (perform rt fuel name category phase action id requested markers times command check)
          (λ _. Q)
          J
  unfolding perform
  perform_lem fuel name category phase action id requested markers times command check sends shows =
      Triple-bind (λ _. I) (Triple-weaken into before.cursor)
        λ cursor.
          Triple-bind (λ _. I) (Triple-weaken into before.offset_ns)
            λ started.
              Triple-bind (λ _. I) (Triple-weaken into (before.write _))
                λ _.
                  Triple-bind (λ _. J) sends
                    λ _.
                      Triple-bind (λ _. J) keeps.offset_ns
                        λ acknowledged.
                          Triple-bind (λ _. J) (keeps.write _)
                            λ _.
                              Triple-bind (λ _. J) (wait_for_active-keeps rt keeps _ _ _ _ _)
                                λ active.
                                  Triple-bind (λ _. J)
                                    (wait_for_completion-keeps rt keeps _ _ active _)
                                    λ completed.
                                      Triple-ensure _
                                        (wait_for_state_or_error_lem rt keeps ends _ _ fuel _ check
                                          (not_converged id) shows)
                                        (λ o. ends.record_measurement _)
                                        (λ o. keeps.record_measurement _)

pub Keeps-Concludes :
    {W : Type 0} {I : State W → Type 0} {rt : EquipmentRuntime W} → Keeps I rt → Concludes I I rt
Keeps-Concludes keeps = record {
  weaker = λ s h. h;
  offset_ns = keeps.offset_ns;
  done_waiting = keeps.done_waiting;
  record_measurement = keeps.record_measurement;
  write = keeps.write;
  record_skip = keeps.record_skip;
}

-- A check that keeps a condition shows it.
pub keeps-Shows :
    {W : Type 0} {I : State W → Type 0} {check : M W Bool}
    → Keeping I check
    → Triple I check (Shows I I) I
keeps-Shows {I} {check} t = record { at = λ s h. shown I (check s) (t.at s h) }
  where
    seen_lem :
        {W : Type 0} (I : State W → Type 0) (seen : Bool) (s : State W) → I s → Shows I I seen s
    seen_lem I true s h = h
    seen_lem I false s h = h

    shown :
        {W : Type 0} (I : State W → Type 0) (r : Res Bool × State W)
        → Post (λ _. I) I r
        → Post (Shows I I) I r
    shown I (ok seen, s) h = seen_lem I seen s h
    shown I (failed f, s) h = h
    shown I (cancelled, s) h = h

-- A method of the session that gives a session leads from `P` to `R`.
pub on_session_lem :
    {W : Type 0} (P R : State W → Type 0) (update : RestorationSession → Res RestorationSession)
    → ((s : State W) (next : RestorationSession)
        → update s.session ≡ ok next
        → P s
        → R (record s { session = next }))
    → Triple P (on_session update) (λ _. R) P
unfolding on_session
on_session_lem P R update leads = record {
  at = λ s h. elim (Res-cases (update s.session)) [
    | inl (next, e) ↦ rw e (leads s next e h)
    | inr (inl (f, e)) ↦ rw e h
    | inr (inr e) ↦ rw e h
  ];
}
