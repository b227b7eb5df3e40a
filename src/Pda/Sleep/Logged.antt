-- ===== src/Pda/Sleep/Logged.antt =====
-- What a sleep service is told of the log of a run, and what a cycle of the log is.
use aqualinkd_validator.Prelude.{
  ℕ, ◌<◌, String, ◌≡◌, refl, ap, sym, ◌∙◌, Bool, true, ◌&&◌, Option, none, some, List, [], ◌∷◌, inl,
  inr, any, ◌++◌, ltb, first, All, subst, arith, Bool-cases, Option-cases,
}
use aqualinkd_validator.Equipment.{ok, has_part}
use aqualinkd_validator.Monitor.{LineEvent}
use aqualinkd_validator.Engine.Restoration.Action.{State}
use aqualinkd_validator.Engine.Runtime.{elapsed}
use aqualinkd_validator.Pda.Sleep.{
  pda_sleeping, wake_init_active, wake_init_finished, SleepCycle, PdaSleepWakeService, is_sleeping,
  is_waking, is_after, last, unless_woken, current_sleep_event,
}

-- The event stands in the log.
pub record Has (log : List LineEvent) (e : LineEvent) : Type 0 where
  pub earlier : List LineEvent
  pub later : List LineEvent
  pub place : log ≡ earlier ++ e ∷ later

-- The test of a wait: a later event than the cursor with the text.
abbrev pub answers : String → ℕ → LineEvent → Bool
answers text after e = ltb after e.sequence && has_part text e.text

-- The log of all events of a run: a wait for a text that gives an event gives the first one of the
-- log after the cursor with that text, and the recent events stand in the log.
pub record IsLogged {W : Type 0} (log : List LineEvent) (service : PdaSleepWakeService W)
    : Type 0 where
  pub waits :
      (text : String) (after timeout : ℕ) (s : State W) (e : LineEvent)
      → (service.runtime.wait_for text after timeout s).0 ≡ ok (some e)
      → first (answers text after) log ≡ some e
  pub recent :
      (s : State W) (events : List LineEvent)
      → (service.recent_events s).0 ≡ ok events
      → All (Has log) events

-- Four events of the log, in its order, each with its text, the last three each the first of its
-- text after the one before; and the durations between them.
pub record IsCycle (log : List LineEvent) (report : SleepCycle) : Type 0 where
  pub entered : LineEvent
  pub active : LineEvent
  pub finished : LineEvent
  pub returned : LineEvent
  pub logged : Has log entered
  pub firsts :
      (first (answers wake_init_active entered.sequence) log ≡ some active)
      × (first (answers wake_init_finished active.sequence) log ≡ some finished)
      × (first (answers pda_sleeping finished.sequence) log ≡ some returned)
  pub ordered :
      (entered.sequence < active.sequence)
      × (active.sequence < finished.sequence)
      × (finished.sequence < returned.sequence)
  pub texts :
      (has_part pda_sleeping entered.text ≡ true)
      × (has_part wake_init_active active.text ≡ true)
      × (has_part wake_init_finished finished.text ≡ true)
      × (has_part pda_sleeping returned.text ≡ true)
  pub durations :
      (report.sleep ≡ elapsed active.offset_ns entered.offset_ns)
      × (report.status_refresh ≡ elapsed finished.offset_ns active.offset_ns)
      × (report.return_to_sleep ≡ elapsed returned.offset_ns finished.offset_ns)
      × (report.awake ≡ elapsed returned.offset_ns active.offset_ns)
      × (report.cycle ≡ elapsed returned.offset_ns entered.offset_ns)

pub first_found :
    (p : LineEvent → Bool) (log : List LineEvent) (e : LineEvent)
    → first p log ≡ some e
    → Has log e × (p e ≡ true)
first_found p [] e h = absurd (cc h)
first_found p (x ∷ xs) e h = elim (Bool-cases (p x)) [
  | inl q ↦
      let same : some x ≡ some e = rw q at h in
      let same' : x ≡ e = cc same in
      (record { earlier = []; later = xs; place = ap (λ y. y ∷ xs) same' }, ap p (sym same') ∙ q)
  | inr q ↦
      let (has, holds) = first_found p xs e (rw q at h) in
      (
        record {
          earlier = x ∷ has.earlier;
          later = has.later;
          place = ap (λ ys. x ∷ ys) has.place;
        },
        holds,
      )
]

pub answers_holds :
    (text : String) (after : ℕ) (e : LineEvent)
    → answers text after e ≡ true
    → (after < e.sequence) × (has_part text e.text ≡ true)
answers_holds text after e h = both (ltb after e.sequence) (has_part text e.text) refl h
  where
    both :
        (b c : Bool)
        → ltb after e.sequence ≡ b
        → (b && c) ≡ true
        → (after < e.sequence) × (c ≡ true)
    both b c q h = ground arith

last_holds :
    {A : Type 0} (p : A → Bool) (Q : A → Type 0) (xs : List A) (x : A)
    → All Q xs
    → last p xs ≡ some x
    → Q x × (p x ≡ true)
last_holds p Q [] x qs h = absurd (cc h)
last_holds {A} p Q (y ∷ ys) x (q, qs) h = elim (Option-cases (last p ys)) [
  | inr (z, e) ↦ let same : some z ≡ some x = rw e at h in last_holds p Q ys x qs (e ∙ same)
  | inl e ↦ elim (Bool-cases (p y)) [
    | inl e' ↦
        let same : some y ≡ some x = rw (e, e') at h in
        (subst Q (some_eq same) q, ap p (sym (some_eq same)) ∙ e')
    | inr e' ↦ let no : none ≡ some x = rw (e, e') at h in absurd (cc no)
  ]
]
  where
    some_eq : {a b : A} → some a ≡ some b → a ≡ b
    some_eq h = cc

-- An event of the log that is a sleep.
abbrev pub Asleep : List LineEvent → LineEvent → Type 0
Asleep log e = Has log e × (is_sleeping e ≡ true)

pub current_sleeps :
    (log events : List LineEvent) (e : LineEvent)
    → All (Has log) events
    → current_sleep_event events ≡ some e
    → Asleep log e
unfolding current_sleep_event
current_sleeps log events e all h = found (last is_sleeping events) refl h
  where
    found :
        (o : Option LineEvent)
        → last is_sleeping events ≡ o
        → unless_woken events o ≡ some e
        → Asleep log e
    found none q h = absurd (cc h)
    found (some x) q h = elim (Bool-cases (any (λ y. is_after x y && is_waking y) events)) [
      | inl woke ↦ let no : none ≡ some e = rw woke at h in absurd (cc no)
      | inr asleep ↦
          let same : some x ≡ some e = rw asleep at h in
          last_holds is_sleeping (Has log) events e all (q ∙ same)
    ]
