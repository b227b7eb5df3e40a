-- ===== src/Monitor.antt =====
-- `OutputMonitor` of aqualinkd_validator/adapters/process.py: the ordered log of the supervised
-- process, and the waits on it. A wait is given with the batches of lines that are published
-- while it sleeps, one batch for each time that it wakes; it times out where they end.
pub mod Log
pub mod Waiting
use aqualinkd_validator.Prelude.{
  ℕ, ◌+◌, ◌-◌, String, Bool, true, false, ◌&&◌, Option, none, some, List, [], ◌∷◌, ◌++◌, length,
  drop, first, select, any, if◌then◌else◌, ltb,
}
use aqualinkd_validator.Equipment.{has_part}

pub record LineEvent : Type 0 where
  pub sequence : ℕ
  pub offset_ns : ℕ
  pub stream : String
  pub text : String

-- The arguments of `publish`.
pub record Line : Type 0 where
  pub offset_ns : ℕ
  pub stream : String
  pub text : String

pub record OutputMonitor : Type 0 where
  pub history_size : ℕ
  pub events : List LineEvent
  pub sequence : ℕ

abbrev pub new_monitor : ℕ → OutputMonitor
new_monitor history_size = record { history_size = history_size; events = []; sequence = 0 }

abbrev pub cursor : OutputMonitor → ℕ
cursor m = m.sequence

abbrev is_before : Option ℕ → LineEvent → Bool
is_before none event = true
is_before (some before) event = ltb event.sequence before

unfoldable pub recent_events : Option ℕ → OutputMonitor → List LineEvent
recent_events before m = select (is_before before) m.events

-- A deque of a maximal length drops its oldest items.
abbrev pub keep_last {ℓ} : {A : Type ℓ} → ℕ → List A → List A
keep_last n xs = drop (length xs - n) xs

abbrev pub event_of : ℕ → Line → LineEvent
event_of sequence line = record {
  sequence = sequence;
  offset_ns = line.offset_ns;
  stream = line.stream;
  text = line.text;
}

unfoldable pub publish : Line → OutputMonitor → LineEvent × OutputMonitor
publish line m =
    let event = event_of (m.sequence + 1) line in
    (
      event,
      record m {
        events = keep_last m.history_size (m.events ++ event ∷ []);
        sequence = m.sequence + 1;
      },
    )

unfoldable pub publish_all : List Line → OutputMonitor → OutputMonitor
publish_all [] m = m
publish_all (line ∷ lines) m = publish_all lines (publish line m).1

-- The search of one round of `wait`.
abbrev pub passes : (LineEvent → Bool) → ℕ → LineEvent → Bool
passes test cursor event = ltb cursor event.sequence && test event

abbrev pub max : ℕ → ℕ → ℕ
max a b = if ltb a b then b else a

-- `wait` under `wait_for_match`: the event, `none` on a timeout, and the monitor after it.
unfoldable pub wait_for_match :
    (LineEvent → Bool) → ℕ → OutputMonitor → List (List Line) → Option LineEvent × OutputMonitor
wait_for_match test cursor m [] = (first (passes test cursor) m.events, m)
wait_for_match test cursor m (batch ∷ batches) = elim (first (passes test cursor) m.events) [
  | some event ↦ (some event, m)
  | none ↦ wait_for_match test (max cursor m.sequence) (publish_all batch m) batches
]

unfoldable pub wait_for :
    String → ℕ → OutputMonitor → List (List Line) → Option LineEvent × OutputMonitor
unfolding wait_for_match
wait_for predicate after m batches =
    wait_for_match (λ event. has_part predicate event.text) after m batches

-- An empty tuple of markers is a `ValueError`.
pub data Awaited : Type 0 where
  value_error : Awaited
  awaited : Option LineEvent × OutputMonitor → Awaited

unfoldable pub wait_for_any : List String → ℕ → OutputMonitor → List (List Line) → Awaited
unfolding wait_for_match
wait_for_any [] after m batches = value_error
wait_for_any (p ∷ ps) after m batches = awaited (
    wait_for_match (λ event. any (λ predicate. has_part predicate event.text) (p ∷ ps)) after m
      batches)
