-- ===== src/Pda/Sleep/Cycle.antt =====
-- What an observed cycle of sleep has seen.
use aqualinkd_validator.Prelude.{
  ℕ, ◌<◌, String, ◌≡◌, refl, ap, ◌∙◌, true, Option, none, some, List, first, All,
}
use aqualinkd_validator.Equipment.{Failure, Res, ok, failed, cancelled, has_part}
use aqualinkd_validator.Monitor.{LineEvent}
use aqualinkd_validator.Engine.Restoration.Action.{State, M, lift}
use aqualinkd_validator.Engine.Restoration.Logic.{Post, Post-intro, Triple, Triple-bind}
use aqualinkd_validator.Engine.Runtime.{EquipmentRuntime, elapsed}
use aqualinkd_validator.Pda.Programmer.{
  single, or_raise, wait_for_marker, wait_for_active, wait_for_completion,
}
use aqualinkd_validator.Pda.Sleep.{
  pda_sleeping, wake_init_active, wake_init_finished, no_sleep, no_sleep_event, PdaSleepWakeService,
  current_sleep_event, sleep_or_wait, wait_for_sleep, record_cycle, observe_natural_cycle,
}
use aqualinkd_validator.Pda.Sleep.Logged.{
  Has, answers, IsLogged, IsCycle, first_found, answers_holds, Asleep, current_sleeps,
}

known :
    {W A : Type 0} (K : Type 0) (Q : A → Type 0) (r : Res A × State W)
    → K
    → Post (λ a _. Q a) (λ _. Unit {0}) r
    → Post (λ a _. K × Q a) (λ _. Unit {0}) r
known K Q (ok a, s) k h = (k, h)
known K Q (failed f, s) k h = tt
known K Q (cancelled, s) k h = tt

module _ {W : Type 0} (log : List LineEvent) (service : PdaSleepWakeService W)
    (law : IsLogged log service) where
  abbrev rt : EquipmentRuntime W
  rt = service.runtime

  abbrev Any : State W → Type 0
  Any s = Unit {0}

  -- An action of which only the value is known.
  told :
      {A : Type 0} (m : M W A) (Q : A → Type 0)
      → ((s : State W) (a : A) → (m s).0 ≡ ok a → Q a)
      → Triple Any m (λ a _. Q a) Any
  told m Q h = record { at = λ s p. Post-intro (λ a _. Q a) Any (m s) (h s) tt }

  -- An event of a wait, or an exception.
  abbrev Seen : String → ℕ → LineEvent → Type 0
  Seen text after e = first (answers text after) log ≡ some e

  abbrev SeenIf : String → ℕ → Option LineEvent → Type 0
  SeenIf text after o = (e : LineEvent) → o ≡ some e → Seen text after e

  raised :
      (text : String) (after : ℕ) (f : Failure) (o : Option LineEvent)
      → Triple (λ _. SeenIf text after o) (lift (or_raise f o)) (λ e _. Seen text after e) Any
  raised text after f none = record { at = λ s h. tt }
  raised text after f (some e) = record { at = λ s h. h e refl }

  waited :
      {P : State W → Type 0} (text : String) (after timeout : ℕ)
      → Triple P (rt.wait_for text after timeout) (λ o _. SeenIf text after o) Any
  waited text after timeout = record {
    at = λ s p.
        Post-intro (λ o _. SeenIf text after o) Any (rt.wait_for text after timeout s)
          (λ o e x same. law.waits text after timeout s x (e ∙ ap ok same)) tt;
  }

  -- An action that does not matter for what is known.
  aside : {A : Type 0} (K : Type 0) (m : M W A) → Triple (λ _. K) m (λ _ _. K) Any
  aside K m = record { at = λ s k. Post-intro (λ _ _. K) Any (m s) (λ a e. k) tt }

  -- What is known stays known.
  also :
      {A : Type 0} {m : M W A} (K : Type 0) {Q : A → Type 0}
      → Triple Any m (λ a _. Q a) Any
      → Triple (λ _. K) m (λ a _. K × Q a) Any
  also {m} K {Q} t = record { at = λ s k. known K Q (m s) k (t.at s tt) }

  split :
      {A : Type 0} {m : M W A} (K : Type 0) {P : Type 0} {Q : A → Type 0}
      → Triple (λ _. P) m (λ a _. Q a) Any
      → Triple (λ _. K × P) m (λ a _. K × Q a) Any
  split {m} K {P} {Q} t = record { at = λ s k. known K Q (m s) k.0 (t.at s k.1) }

  active-Seen :
      {P : State W → Type 0} (task text : String) (after requested timeout : ℕ)
      → Triple P
          (wait_for_active rt task (single text) after requested timeout)
          (λ e _. Seen text after e)
          Any
  unfolding wait_for_active wait_for_marker
  active-Seen task text after requested timeout =
      Triple-bind (λ o _. SeenIf text after o) (waited text after timeout)
        λ o.
          Triple-bind (λ e _. Seen text after e) (raised text after _ o)
            λ e.
              Triple-bind (λ _ _. Seen text after e) (aside (Seen text after e) (rt.write _))
                λ _. record { at = λ s h. h }

  completion-Seen :
      {P : State W → Type 0} (task text : String) (active : LineEvent) (timeout : ℕ)
      → Triple P
          (wait_for_completion rt task (single text) active timeout)
          (λ e _. Seen text active.sequence e)
          Any
  unfolding wait_for_completion wait_for_marker
  completion-Seen task text active timeout =
      let after = active.sequence in
      Triple-bind (λ o _. SeenIf text after o) (waited text after timeout)
        λ o.
          Triple-bind (λ e _. Seen text after e) (raised text after _ o)
            λ e.
              Triple-bind (λ _ _. Seen text after e) (aside (Seen text after e) (rt.write _))
                λ _. record { at = λ s h. h }

  Seen-holds :
      (text : String) (after : ℕ) (e : LineEvent)
      → Seen text after e
      → Has log e × (after < e.sequence) × (has_part text e.text ≡ true)
  Seen-holds text after e h =
      let (has, holds) = first_found (answers text after) log e h in
      let (later, told) = answers_holds text after e holds in (has, later, told)

  -- What is known beforehand can be used.
  from_All :
      {A : Type 0} {m : M W A} {Q : A → Type 0} (recent : List LineEvent)
      → (All (Has log) recent → Triple Any m (λ a _. Q a) Any)
      → Triple (λ _. All (Has log) recent) m (λ a _. Q a) Any
  from_All recent t = record { at = λ s h. (t h).at s tt }

  sleep_seen :
      (cursor started : ℕ) (o : Option LineEvent)
      → ((e : LineEvent) → o ≡ some e → Asleep log e)
      → Triple Any (sleep_or_wait service cursor started o) (λ entered _. Asleep log entered.0) Any
  unfolding sleep_or_wait
  sleep_seen cursor started (some e) asleep = record { at = λ s h. asleep e refl }
  sleep_seen cursor started none asleep =
      Triple-bind (λ o _. SeenIf pda_sleeping cursor o) (waited pda_sleeping cursor _)
        λ o.
          Triple-bind (λ e _. Seen pda_sleeping cursor e)
            (raised pda_sleeping cursor no_sleep_event o)
            λ e. record {
              at = λ s h. let (has, _, holds) = Seen-holds pda_sleeping cursor e h in (has, holds);
            }

  wait_for_sleep_seen :
      (phase name : String)
      → Triple Any (wait_for_sleep service phase name) (λ e _. Asleep log e) Any
  unfolding wait_for_sleep
  wait_for_sleep_seen phase name =
      Triple-bind (λ _. Any) (aside (Unit {0}) rt.cursor)
        λ cursor.
          Triple-bind (λ _. Any) (aside (Unit {0}) rt.offset_ns)
            λ started.
              Triple-bind (λ recent _. All (Has log) recent)
                (told service.recent_events (All (Has log)) law.recent)
                λ recent.
                  Triple-bind (λ entered _. Asleep log entered.0)
                    (from_All recent (λ all.
                      sleep_seen cursor started (current_sleep_event recent)
                        (λ e. current_sleeps log recent e all)))
                    λ entered.
                      Triple-bind (λ _ _. Asleep log entered.0)
                        (aside (Asleep log entered.0) (service.record_measurement _))
                        λ _. record { at = λ s h. h }

  cycle :
      {entered active finished returned : LineEvent}
      → Asleep log entered
      → Seen wake_init_active entered.sequence active
      → Seen wake_init_finished active.sequence finished
      → Seen pda_sleeping finished.sequence returned
      → IsCycle log (record {
        sleep = elapsed active.offset_ns entered.offset_ns;
        status_refresh = elapsed finished.offset_ns active.offset_ns;
        return_to_sleep = elapsed returned.offset_ns finished.offset_ns;
        awake = elapsed returned.offset_ns active.offset_ns;
        cycle = elapsed returned.offset_ns entered.offset_ns;
      })
  cycle {entered} {active} {finished} {returned} (has, asleep) a f r =
      let (_, a₁, a₂) = Seen-holds wake_init_active entered.sequence active a in
      let (_, f₁, f₂) = Seen-holds wake_init_finished active.sequence finished f in
      let (_, r₁, r₂) = Seen-holds pda_sleeping finished.sequence returned r in
      record {
        entered = entered;
        active = active;
        finished = finished;
        returned = returned;
        logged = has;
        firsts = (a, f, r);
        ordered = (a₁, f₁, r₁);
        texts = (asleep, a₂, f₂, r₂);
        durations = (refl, refl, refl, refl, refl);
      }

  natural_lem : Triple Any (observe_natural_cycle service) (λ report _. IsCycle log report) Any
  unfolding observe_natural_cycle
  natural_lem =
      Triple-bind (λ e _. Asleep log e) (wait_for_sleep_seen _ _)
        λ entered.
          Triple-bind
            (λ active _. (Asleep log entered) × Seen wake_init_active entered.sequence active)
            (also (Asleep log entered) (active-Seen _ wake_init_active entered.sequence _ _))
            λ active.
              let K₁ = (Asleep log entered) × Seen wake_init_active entered.sequence active in
              Triple-bind (λ finished _. K₁ × Seen wake_init_finished active.sequence finished)
                (also K₁ (completion-Seen _ wake_init_finished active _))
                λ finished.
                  let K₂ = K₁ × Seen wake_init_finished active.sequence finished in
                  Triple-bind (λ o _. K₂ × SeenIf pda_sleeping finished.sequence o)
                    (also K₂ (waited pda_sleeping finished.sequence _))
                    λ o.
                      Triple-bind (λ returned _. K₂ × Seen pda_sleeping finished.sequence returned)
                        (split K₂ (raised pda_sleeping finished.sequence no_sleep o))
                        λ returned.
                          let K₃ = K₂ × Seen pda_sleeping finished.sequence returned in
                          Triple-bind (λ _ _. K₃)
                            (aside K₃ (record_cycle service entered active finished returned))
                            λ _. record { at = λ s h. cycle h.0.0.0 h.0.0.1 h.0.1 h.1 }

  -- A cycle that is reported is one of four events of the log of the run: the entry into sleep, then
  -- the first start of the initialisation after it, the first end of that, and the first sleep after
  -- that end; each with its text and in the order of their sequences. The reported times are the
  -- differences of their offsets: of the sleep, the status refresh, the return to sleep, the time
  -- awake and the whole cycle. This holds where a wait gives the first event of the log after its
  -- cursor that has its text, and the recent events stand in the log.
  pub observe_natural_cycle-IsCycle :
      (s : State W)
      → Post (λ report _. IsCycle log report) (λ _. Unit {0}) (observe_natural_cycle service s)
  observe_natural_cycle-IsCycle s = natural_lem.at s tt
