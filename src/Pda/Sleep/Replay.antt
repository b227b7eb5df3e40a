-- ===== src/Pda/Sleep/Replay.antt =====
-- The search for the current sleep against a replay of the log.
use aqualinkd_validator.Prelude.{
  ℕ, zero, suc, ◌+◌, ◌-◌, ◌≤◌, ◌<◌, length, drop, select, ◌≡◌, refl, sym, ap, subst, ◌∙◌, Bool,
  true, false, ◌&&◌, Option, none, some, List, [], ◌∷◌, inl, inr, if◌then◌else◌, ltb, any, All,
  arith, lt→ltb, Bool-cases, Option-cases,
}
use aqualinkd_validator.Monitor.{LineEvent, Line, OutputMonitor, recent_events, keep_last}
use aqualinkd_validator.Monitor.Log.{number, IsLogOf}
use aqualinkd_validator.Pda.Sleep.{
  is_sleeping, is_waking, last, is_after, unless_woken, current_sleep_event,
}

-- The state of the PDA after one event: asleep since an event, or awake.
abbrev pub step : Option LineEvent → LineEvent → Option LineEvent
step state event = if is_sleeping event then some event else if is_waking event then none else state

-- The state after a log.
abbrev pub replay : Option LineEvent → List LineEvent → Option LineEvent
replay state [] = state
replay state (event ∷ events) = replay (step state event) events

-- Each event comes after those before it.
abbrev pub IsOrdered : List LineEvent → Type 0
IsOrdered [] = Unit
IsOrdered (event ∷ events) = All (λ e. event.sequence < e.sequence) events × IsOrdered events

module _ {A : Type 0} (p : A → Bool) where
  last-All : (P : A → Type 0) (xs : List A) (x : A) → last p xs ≡ some x → All P xs → P x
  last-All P [] x h ps = absurd (cc h)
  last-All P (y ∷ ys) x h (q, qs) = elim (Option-cases (last p ys)) [
    | inr (z, e) ↦ let same : some z ≡ some x = rw e at h in last-All P ys x (e ∙ same) qs
    | inl e ↦ elim (Bool-cases (p y)) [
      | inl e' ↦ let same : some y ≡ some x = rw (e, e') at h in subst P (some_eq same) q
      | inr e' ↦ let no : none ≡ some x = rw (e, e') at h in absurd (cc no)
    ]
  ]
    where
      some_eq : {a b : A} → some a ≡ some b → a ≡ b
      some_eq h = cc

woken : LineEvent → List LineEvent → Bool
woken sleeping events = any (λ event. is_after sleeping event && is_waking event) events

-- What is left of a state by a log in which nobody goes to sleep.
unless_waking : List LineEvent → Option LineEvent → Option LineEvent
unless_waking events state = if any is_waking events then none else state

woken_later :
    (x : LineEvent) (events : List LineEvent)
    → All (λ e. x.sequence < e.sequence) events
    → woken x events ≡ any is_waking events
unfolding woken
woken_later x [] h = refl
woken_later x (y ∷ ys) (h, hs) = rw (lt→ltb x.sequence y.sequence h, woken_later x ys hs) refl

-- A search's result, with a state for where it finds nothing.
settle : List LineEvent → Option LineEvent → Option LineEvent → Option LineEvent
settle events state none = unless_waking events state
settle events state (some e) = if woken e events then none else some e

abbrev awake_state : Option LineEvent
awake_state = none

none_either : (b : Bool) → awake_state ≡ (if b then awake_state else awake_state)
none_either true = refl
none_either false = refl

ltb_irrefl : (n : ℕ) → ltb n n ≡ false
ltb_irrefl n = ground arith

-- A replay from any state, by what the search finds.
replay-last :
    (state : Option LineEvent) (events : List LineEvent)
    → IsOrdered events
    → replay state events ≡ settle events state (last is_sleeping events)
unfolding woken unless_waking settle
replay-last state [] h = refl
replay-last state (x ∷ xs) (h, hs) =
    let rest = replay-last (step state x) xs hs in
    elim (Option-cases (last is_sleeping xs)) [
      | inr (e, found) ↦
          let up : x.sequence < e.sequence =
            last-All is_sleeping (λ e'. x.sequence < e'.sequence) xs e found h in
          let old : ltb e.sequence x.sequence ≡ false = ground arith in
          let rest' : replay (step state x) xs ≡ settle xs (step state x) (some e) =
            rw found at rest in
          let same : woken e (x ∷ xs) ≡ woken e xs = rw old refl in
          rw found (rest' ∙ ap (λ b. if b then none else some e) (sym same))
      | inl nobody ↦
          let rest' : replay (step state x) xs ≡ unless_waking xs (step state x) =
            rw nobody at rest in
          elim (Bool-cases (is_sleeping x)) [
            | inl sleeps ↦
                let same : woken x (x ∷ xs) ≡ any is_waking xs =
                  rw (ltb_irrefl x.sequence) (woken_later x xs h) in
                let asleep : step state x ≡ some x = rw sleeps refl in
                let found : last is_sleeping (x ∷ xs) ≡ some x = rw (nobody, sleeps) refl in
                rest'
                ∙ ap (unless_waking xs) asleep
                ∙ ap (λ b. if b then none else some x) (sym same)
                ∙ ap (settle (x ∷ xs) state) (sym found)
            | inr stays ↦
                let found : last is_sleeping (x ∷ xs) ≡ none = rw (nobody, stays) refl in
                rest' ∙ awake (is_waking x) stays refl ∙ ap (settle (x ∷ xs) state) (sym found)
          ]
    ]
  where
    awake :
        (b : Bool)
        → is_sleeping x ≡ false
        → is_waking x ≡ b
        → unless_waking xs (step state x) ≡ unless_waking (x ∷ xs) state
    awake true stays e = rw (stays, e) (sym (none_either (any is_waking xs)))
    awake false stays e = rw (stays, e) refl

-- Over events in the order of their sequence numbers, the search for the current sleep gives the
-- state of a replay of the log that starts awake: the last event of falling asleep, unless the PDA
-- woke after it.
current_sleep_event-replay :
    (events : List LineEvent) → IsOrdered events → current_sleep_event events ≡ replay none events
unfolding current_sleep_event settle woken unless_waking
current_sleep_event-replay events h =
    settled (last is_sleeping events) ∙ sym (replay-last none events h)
  where
    settled : (o : Option LineEvent) → unless_woken events o ≡ settle events none o
    settled none = none_either (any is_waking events)
    settled (some e) = refl

number-IsOrdered : (n : ℕ) (lines : List Line) → IsOrdered (number n lines)
number-IsOrdered n [] = tt
number-IsOrdered n (line ∷ lines) =
    (number_after (n + 1) n lines (omega arith), number-IsOrdered (n + 1) lines)
  where
    number_after :
        (m k : ℕ) (lines : List Line) → m ≤ k + 1 → All (λ e. m < e.sequence) (number (k + 1) lines)
    number_after m k [] h = tt
    number_after m k (line ∷ lines) h = (omega arith, number_after m (k + 1) lines (omega arith))

drop-IsOrdered : (k : ℕ) (events : List LineEvent) → IsOrdered events → IsOrdered (drop k events)
drop-IsOrdered zero events h = h
drop-IsOrdered (suc k) [] h = h
drop-IsOrdered (suc k) (event ∷ events) (h, hs) = drop-IsOrdered k events hs

recent_events_all : (m : OutputMonitor) → recent_events none m ≡ m.events
unfolding recent_events
recent_events_all m = select_all m.events
  where
    select_all : (events : List LineEvent) → select (λ e. true) events ≡ events
    select_all [] = refl
    select_all (e ∷ es) = ap (λ xs. e ∷ xs) (select_all es)

-- On a monitor, the search for the current sleep gives the state of a replay, from awake, of the
-- lines that it has kept.
pub current_sleep-replays :
    (lines : List Line) (m : OutputMonitor)
    → IsLogOf lines m
    → current_sleep_event (recent_events none m)
      ≡ replay none (keep_last m.history_size (number 0 lines))
current_sleep-replays lines m log =
    ap current_sleep_event (recent_events_all m ∙ log.kept)
    ∙ current_sleep_event-replay (keep_last m.history_size (number 0 lines)) (
        drop-IsOrdered (length (number 0 lines) - m.history_size) (number 0 lines)
          (number-IsOrdered 0 lines))
