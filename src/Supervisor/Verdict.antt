-- ===== src/Supervisor/Verdict.antt =====
-- The verdict of a run up to the end of its process.
use aqualinkd_validator.Prelude.{
  ℕ, String, Bool, true, false, not, ◌&&◌, ◌≡◌, refl, ap, sym, ◌∙◌, Option, none, some, ◌⊎◌, inl,
  inr, if◌then◌else◌, all, All, Bool-cases, Option-cases, ==_iff,
}
use aqualinkd_validator.Equipment.{ℤ, pos, negsuc, eq_ℤ, Failure, ok}
use aqualinkd_validator.Engine.Restoration.Action.{Act, pure, ◌>>=◌, ◌>>◌}
use aqualinkd_validator.Engine.Restoration.Logic.{
  Post-intro, Attempted, Triple, Triple-weaken, Triple-attempt, Triple-bind, Triple-after,
}
use aqualinkd_validator.Engine.Restoration.Keeping.{
  Keeping, keep_pure, keep_bind, keep_if, keep_weaken,
}
use aqualinkd_validator.Supervisor.{
  run_failed, Reason, duration_over, reported, child_exit, scenario_raised, scenario_timed_out,
  child_exit_during_scenario, child_exit_before_duration, sigterm, sigkill, Event,
  output_reader_error, output_observer_close_error, ScenarioOutcome, First, neither, scenario_first,
  process_first, Host, Config, Run, exit_status, verdict, set_returncode, on_world, kill_process,
  after_grace, terminate, stop_process, stop_and_note, cancel_scenario, conclude_scenario,
  after_first, run_scenario, after_duration, run_process, body, cancel_pending, interrupt,
  stop_leftover, is_running,
}

-- A process that has exited stays so, and a wait for it that returns tells its code.
module _ {W : Type 0} (host : Host W) where
  abbrev pub Stays : {A : Type 0} → Act W A → Type 0
  Stays m = (w : W) (code : ℤ) → host.returncode w ≡ some code → host.returncode (m w).1 ≡ some code

  pub record IsHost : Type 0 where
    pub wait_process :
        (w : W) (code : ℤ)
        → (host.wait_process w).0 ≡ ok code
        → host.returncode (host.wait_process w).1 ≡ some code
    pub wait_process_for :
        (w : W) (seconds : ℕ) (code : ℤ)
        → (host.wait_process_for seconds w).0 ≡ ok (some code)
        → host.returncode (host.wait_process_for seconds w).1 ≡ some code
    pub stop_sampler : Stays host.stop_sampler
    pub reader_results : Stays host.reader_results
    pub close_observers : All Stays host.close_observers

eq_ℤ_zero : (n : ℤ) → eq_ℤ n (pos 0) ≡ true → n ≡ pos 0
eq_ℤ_zero (pos n) h = let (same, _) = ==_iff n 0 in ap pos (same h)
eq_ℤ_zero (negsuc n) h = absurd (cc h)

abbrev pub is_output_error : Event → Bool
is_output_error (output_reader_error f) = true
is_output_error (output_observer_close_error f) = true
is_output_error _ = false

module _ {W : Type 0} (host : Host W) where
  -- No reader and no observer failed so far.
  abbrev pub Clean : Run W → Type 0
  Clean s = all (λ e. not (is_output_error e)) s.events ≡ true

  abbrev pub Exited : Run W → Type 0
  Exited s = (code : ℤ) × (host.returncode s.world ≡ some code)

  abbrev pub Allowed : Run W → Type 0
  Allowed s =
      (s.status ≡ run_failed)
      ⊎ (s.reason ≡ duration_over)
      ⊎ ((text : String) × (s.reason ≡ reported text))

  abbrev pub ExitedWell : Run W → Type 0
  ExitedWell s =
      (s.reason ≡ child_exit)
      × (s.returncode ≡ some (pos 0))
      × (host.returncode s.world ≡ some (pos 0))

  -- Whatever the process does next, and with its exit.
  abbrev pub Loose : Run W → Type 0
  Loose s = Clean s × Allowed s

  abbrev pub Sound : Run W → Type 0
  Sound s = Clean s × (Allowed s ⊎ ExitedWell s)

  pub Loose-Sound : (s : Run W) → Loose s → Sound s
  Loose-Sound s (c, a) = (c, inl a)

  on_world-Loose : {A : Type 0} (m : Act W A) → Keeping Loose (on_world m)
  on_world-Loose m = record {
    at = λ s h. Post-intro (λ _. Loose) Loose (on_world m s) (λ a e. h) h;
  }

  -- What a call of the host gives, and what it tells of the host.
  on_world_lem :
      {A : Type 0} (m : Act W A) (Q : A → W → Type 0)
      → ((w : W) (a : A) → (m w).0 ≡ ok a → Q a (m w).1)
      → Triple Loose (on_world m) (λ a s. Loose s × Q a s.world) Loose
  on_world_lem m Q tells = record {
    at = λ s h.
        Post-intro (λ a s'. Loose s' × Q a s'.world) Loose (on_world m s)
          (λ a e. (h, tells s.world a e)) h;
  }

  note-Loose : (code : Option ℤ) → Keeping Loose (set_returncode code)
  note-Loose code = record { at = λ s h. h }

  module _ (law : IsHost host) (config : Config) where
    kill_process-Exited : Triple Loose (kill_process host config) (λ _ s. Loose s × Exited s) Loose
    unfolding kill_process
    kill_process-Exited =
        Triple-bind (λ _. Loose) (record { at = λ s h. h })
          λ _.
            Triple-bind (λ _. Loose) (on_world-Loose (host.kill sigkill))
              λ _.
                Triple-bind (λ code s. Loose s × (host.returncode s.world ≡ some code))
                  (on_world_lem host.wait_process (λ code w. host.returncode w ≡ some code)
                    law.wait_process)
                  λ code. record { at = λ s h. (h.0, (code, h.1)) }

    after_grace-Exited :
        (code : Option ℤ)
        → Triple
            (λ s. Loose s × ((n : ℤ) → code ≡ some n → host.returncode s.world ≡ some n))
            (after_grace host config code)
            (λ _ s. Loose s × Exited s)
            Loose
    unfolding after_grace
    after_grace-Exited (some code) = record { at = λ s h. (h.0, (code, h.1 code refl)) }
    after_grace-Exited none = record { at = λ s h. kill_process-Exited.at s h.0 }

    terminate-Exited : Triple Loose (terminate host config) (λ _ s. Loose s × Exited s) Loose
    unfolding terminate
    terminate-Exited =
        Triple-bind (λ _. Loose) (record { at = λ s h. h })
          λ _.
            Triple-bind (λ _. Loose) (on_world-Loose (host.kill sigterm))
              λ _.
                Triple-bind
                  (λ code s. Loose s × ((n : ℤ) → code ≡ some n → host.returncode s.world ≡ some n))
                  (on_world_lem (host.wait_process_for config.terminate_grace_seconds)
                    (λ code w. (n : ℤ) → code ≡ some n → host.returncode w ≡ some n)
                    (λ w code e n same. law.wait_process_for w _ n (e ∙ ap ok same)))
                  after_grace-Exited

    stop_process-Exited : Triple Loose (stop_process host config) (λ _ s. Loose s × Exited s) Loose
    unfolding stop_process
    stop_process-Exited =
        Triple-bind (λ now s. Loose s × (now ≡ s)) (record { at = λ s h. (h, refl) })
          λ now. elim (Option-cases (host.returncode now.world)) [
            | inl e ↦ rw e (record { at = λ s h. terminate-Exited.at s h.0 })
            | inr (code, e) ↦ rw e (record {
              at = λ s h. (h.0, (code, ap (λ t. host.returncode t.world) (sym h.1) ∙ e));
            })
          ]

    stop_and_note-Exited :
        Triple Loose (stop_and_note host config) (λ _ s. Loose s × Exited s) Loose
    unfolding stop_and_note ◌>>=◌
    stop_and_note-Exited =
        Triple-bind (λ _ s. Loose s × Exited s) stop_process-Exited λ _. record { at = λ s h. h }

    stop_and_note-Loose : Keeping Loose (stop_and_note host config)
    stop_and_note-Loose =
        Triple-after (λ _ s. Loose s × Exited s) (λ a s h. h.0) stop_and_note-Exited

    cancel_scenario-Loose : (seconds : ℕ) → Keeping Loose (cancel_scenario host config seconds)
    unfolding cancel_scenario
    cancel_scenario-Loose seconds =
        keep_bind (record { at = λ s h. h })
          λ now.
            keep_if (host.scenario_done now.world) (keep_pure tt)
              (on_world-Loose (host.stop_scenario seconds))

    failed-Loose : (reason : Reason) → Keeping Loose (verdict run_failed reason)
    failed-Loose reason = record { at = λ s h. (h.0, inl refl) }

    conclude_scenario-Loose :
        (o : ScenarioOutcome ⊎ Failure) → Keeping Loose (conclude_scenario host config o)
    conclude_scenario-Loose (inl outcome) = record {
      at = λ s h. (h.0, inr (inr (outcome.reason, refl)));
    }
    conclude_scenario-Loose (inr f) =
        keep_bind (failed-Loose scenario_raised) λ _. record { at = λ s h. h }

    after_first-Loose : (first : First) → Keeping Loose (after_first host config first)
    unfolding after_first
    after_first-Loose neither = keep_bind (failed-Loose scenario_timed_out) λ _.
        keep_bind (record { at = λ s h. h })
          λ _.
            keep_bind (cancel_scenario-Loose config.scenario_cleanup_seconds)
              λ _. stop_and_note-Loose
    after_first-Loose (process_first code) = keep_bind (note-Loose (some code)) λ _.
        keep_bind (failed-Loose child_exit_during_scenario)
          λ _. cancel_scenario-Loose config.terminate_grace_seconds
    after_first-Loose scenario_first =
        Triple-bind (Attempted (λ _. Loose) Loose)
          (Triple-attempt (on_world-Loose host.scenario_result))
          λ o. record {
            at = λ s h.
                (keep_bind (conclude_scenario-Loose o) λ _. stop_and_note-Loose).at s
                  (either o s h);
          }
      where
        either :
            (o : ScenarioOutcome ⊎ Failure) (s : Run W) → Attempted (λ _. Loose) Loose o s → Loose s
        either (inl a) s h = h
        either (inr f) s h = h

    run_scenario-Loose : Keeping Loose (run_scenario host config)
    unfolding run_scenario
    run_scenario-Loose =
        keep_bind (record { at = λ s h. h })
          λ _.
            keep_bind (on_world-Loose (host.wait_first config.duration_seconds)) after_first-Loose

    after_duration-Loose : (code : Option ℤ) → Keeping Loose (after_duration host config code)
    unfolding after_duration
    after_duration-Loose (some code) =
        keep_bind (note-Loose (some code)) λ _. failed-Loose child_exit_before_duration
    after_duration-Loose none =
        keep_bind (record { at = λ s h. (h.0, inr (inl refl)) })
          λ _. keep_bind (record { at = λ s h. h }) λ _. stop_and_note-Loose

    -- An exit is the verdict only when no duration and no scenario were given.
    exit-Sound :
        (code : ℤ)
        → Triple
            (λ s. Loose s × (host.returncode s.world ≡ some code))
            (set_returncode (some code) >> verdict (exit_status code) child_exit)
            (λ _. Sound)
            Sound
    exit-Sound code =
        Triple-bind
          (λ _ s. Clean s × (s.returncode ≡ some code) × (host.returncode s.world ≡ some code))
          (record { at = λ s h. (h.0.0, refl, h.1) })
          λ _. elim (Bool-cases (eq_ℤ code (pos 0))) [
            | inl e ↦
                let zero : some code ≡ some (pos 0) = ap some (eq_ℤ_zero code e) in
                rw e (record { at = λ s h. (h.0, inr (refl, h.1 ∙ zero, h.2 ∙ zero)) })
            | inr e ↦ rw e (record { at = λ s h. (h.0, inl (inl refl)) })
          ]

    run_process-Sound :
        (duration : Option ℕ) → Triple Loose (run_process host config duration) (λ _. Sound) Sound
    unfolding run_process
    run_process-Sound none =
        Triple-bind (λ code s. Loose s × (host.returncode s.world ≡ some code))
          (Triple-weaken Loose-Sound (
            on_world_lem host.wait_process (λ code w. host.returncode w ≡ some code)
              law.wait_process))
          exit-Sound
    run_process-Sound (some seconds) =
        keep_weaken Loose-Sound
          (keep_bind (on_world-Loose (host.wait_process_for seconds)) after_duration-Loose)

    pub body-Sound : Triple Loose (body host config) (λ _. Sound) Sound
    unfolding body
    body-Sound =
        Triple-bind (λ _. Loose) (record { at = λ s h. h })
          λ _.
            Triple-bind (λ _. Loose) (Triple-weaken Loose-Sound (on_world-Loose host.spawn))
              λ _.
                Triple-bind (λ _. Loose) (record { at = λ s h. h })
                  λ _.
                    Triple-bind (λ _. Loose) (record { at = λ s h. h })
                      λ _. branch config.has_scenario
      where
        branch :
            (b : Bool)
            → Triple Loose
                (if b
                  then run_scenario host config
                  else run_process host config config.duration_seconds)
                (λ _. Sound)
                Sound
        branch true = keep_weaken Loose-Sound run_scenario-Loose
        branch false = run_process-Sound config.duration_seconds

    cancel_pending-Loose : (now : Run W) → Keeping Loose (cancel_pending host config now)
    cancel_pending-Loose now =
        keep_if now.scenario_task (cancel_scenario-Loose config.scenario_cleanup_seconds)
          (keep_pure tt)

    pub interrupt-Loose : Triple Sound (interrupt host config) (λ _. Loose) Loose
    unfolding interrupt
    interrupt-Loose =
        Triple-bind (λ _. Loose) (record { at = λ s h. (h.0, inl refl) })
          λ _.
            keep_bind (record { at = λ s h. h })
              λ now.
                keep_bind (cancel_pending-Loose now)
                  λ _. keep_if now.started stop_and_note-Loose (keep_pure tt)

    -- A started process has exited.
    abbrev pub Gone : Run W → Type 0
    Gone s = s.started ≡ true → Exited s

    abbrev pub Any : Run W → Type 0
    Any s = Unit {0}

    to_Any : (s : Run W) → Loose s → Any s
    to_Any s h = tt

    not_running : {A : Type 0} (b : Bool) → (b && false) ≡ true → A
    not_running true h = absurd (cc h)
    not_running false h = absurd (cc h)

    -- A run whose process goes on did not pass by its exit.
    to_Loose :
        (now s : Run W)
        → now.started && is_running (host.returncode now.world) ≡ true
        → now ≡ s
        → Sound s
        → Loose s
    to_Loose now s e same (c, inl a) = (c, a)
    to_Loose now s e same (c, inr (r, noted, x)) =
        let exit : host.returncode now.world ≡ some (pos 0) =
          ap (λ t. host.returncode t.world) same ∙ x in
        let no : (now.started && false) ≡ true = rw exit at e in not_running now.started no

    gone :
        (now s : Run W)
        → now.started && is_running (host.returncode now.world) ≡ false
        → now ≡ s
        → Gone s
    gone now s e same up = elim (Option-cases (host.returncode now.world)) [
      | inr (code, x) ↦ (code, ap (λ t. host.returncode t.world) (sym same) ∙ x)
      | inl x ↦
          let up' : now.started ≡ true = ap (λ t. t.started) same ∙ up in
          let no : true ≡ false = rw (x, up') at e in absurd (cc no)
    ]

    leftover :
        (now : Run W) (b : Bool)
        → now.started && is_running (host.returncode now.world) ≡ b
        → Triple
            (λ s. Sound s × (now ≡ s))
            (if b then (cancel_pending host config now >> stop_and_note host config) else pure tt)
            (λ _ s. Sound s × Gone s)
            Any
    leftover now true e = record {
      at = λ s h.
          (Triple-after (λ _ t. Loose t × Exited t) (λ u t k. (Loose-Sound t k.0, λ _. k.1))
              (Triple-bind {P = Loose} (λ _. Loose)
                (Triple-weaken to_Any (cancel_pending-Loose now))
                λ _. Triple-weaken to_Any stop_and_note-Exited)).at
            s (to_Loose now s e h.1 h.0);
    }
    leftover now false e = record { at = λ s h. (h.0, gone now s e h.1) }

    pub stop_leftover-Gone : Triple Sound (stop_leftover host config) (λ _ s. Sound s × Gone s) Any
    unfolding stop_leftover
    stop_leftover-Gone =
        Triple-bind (λ now s. Sound s × (now ≡ s)) (record { at = λ s h. (h, refl) })
          λ now. leftover now (now.started && is_running (host.returncode now.world)) refl

    -- After the process is gone: a run that passed is still sound.
    abbrev Done : Run W → Type 0
    Done s = Gone s × ((s.status ≡ run_failed) ⊎ Sound s)
