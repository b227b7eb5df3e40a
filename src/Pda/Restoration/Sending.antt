-- ===== src/Pda/Restoration/Sending.antt =====
-- A set_device of a restoration sends at most one command, and keeps the request.
use aqualinkd_validator.Prelude.{
  ℕ, ◌+◌, ◌≤◌, String, Bool, true, false, ◌&&◌, ◌≡◌, refl, sym, ap, ◌∙◌, Option, none, some, List,
  [], ◌∷◌, ◌⊎◌, inl, inr, if◌then◌else◌, arith, str_eq, add_key, lookup-insert_self, Bool-cases,
}
use aqualinkd_validator.Equipment.{Res, ok, failed, cancelled, enabled, Res-cases}
use aqualinkd_validator.Engine.Restoration.Action.{RestorationSession, State}
use aqualinkd_validator.Engine.Restoration.{
  requested_state, mark_requested_state, touch_device, require_initial_device,
}
use aqualinkd_validator.Engine.Restoration.Logic.{Triple, Triple-bind, Triple-weaken}
use aqualinkd_validator.Engine.Restoration.Keeping.{keep_lift, keep_weaken}
use aqualinkd_validator.Engine.Runtime.{EquipmentRuntime}
use aqualinkd_validator.Pda.Programmer.{ProgrammerMarkers}
use aqualinkd_validator.Engine.Actions.{Timeouts, eq_Bool, has_state, change_device, set_device}
use aqualinkd_validator.Engine.Actions.Keeps.{Keeps, has_state-keeps, settled_device-keeps}
use aqualinkd_validator.Engine.Actions.Performing.{
  Keeps-Concludes, keeps-Shows, perform_lem, on_session_lem,
}
use aqualinkd_validator.Engine.Actions.Commands.{
  Command, switched, written, IsRecorded, On, Sends_lem, IsRecorded-Keeps,
}
use aqualinkd_validator.Pda.Restoration.{is_requested}

abbrev is_switch : String → Bool → Command → Bool
is_switch id on (switched k v) = str_eq k id && eq_Bool v on
is_switch id on (written k n) = false

-- How often a device was switched to a state.
abbrev pub switches : String → Bool → List Command → ℕ
switches id on [] = 0
switches id on (c ∷ cs) = let n = switches id on cs in if is_switch id on c then 1 + n else n

-- The session holds a request for this state.
abbrev pub IsRequested : String → Bool → RestorationSession → Type 0
IsRequested id on session = requested_state id session ≡ some on

-- No command after the first `n`, or one for which the session holds a request.
abbrev pub AtMostOne : String → Bool → ℕ → RestorationSession → List Command → Type 0
AtMostOne id on n session cs =
    (switches id on cs ≤ n) ⊎ (IsRequested id on session × (switches id on cs ≤ n + 1))

abbrev pub Marked : String → Bool → ℕ → RestorationSession → List Command → Type 0
Marked id on n session cs = IsRequested id on session × (switches id on cs ≤ n)

requests_of : Res RestorationSession → List (String × Bool)
requests_of (ok session) = session.requested_states
requests_of _ = []

touch_device-requests :
    (id : String) (session next : RestorationSession)
    → touch_device id session ≡ ok next
    → next.requested_states ≡ session.requested_states
unfolding touch_device requests_of
touch_device-requests id session next e = elim (Res-cases (require_initial_device session id)) [
  | inl (device, r) ↦
      let same : ok (record session { touched_devices = add_key session.touched_devices id })
          ≡ ok next =
        rw (r, touch_device) at e in
      sym (ap requests_of same)
  | inr (inl (f, r)) ↦ let q : failed f ≡ ok next = rw (r, touch_device) at e in absurd (cc q)
  | inr (inr r) ↦ let q : cancelled ≡ ok next = rw (r, touch_device) at e in absurd (cc q)
]

switches_step :
    (id : String) (on : Bool) (cs : List Command) (n : ℕ)
    → switches id on cs ≤ n
    → switches id on (switched id on ∷ cs) ≤ n + 1
switches_step id on cs n h = elim (Bool-cases (is_switch id on (switched id on))) [
  | inl e ↦ rw e (omega arith)
  | inr e ↦ rw e (omega arith)
]

pub is_requested_eq : (on : Bool) (r : Option Bool) → is_requested on r ≡ true → r ≡ some on
is_requested_eq on none h = absurd (cc h)
is_requested_eq true (some true) h = refl
is_requested_eq true (some false) h = absurd (cc h)
is_requested_eq false (some true) h = absurd (cc h)
is_requested_eq false (some false) h = refl

pub is_requested_self : (on : Bool) → is_requested on (some on) ≡ true
is_requested_self true = refl
is_requested_self false = refl

pub requested_mark :
    (id : String) (on : Bool) (session : RestorationSession)
    → requested_state id (mark_requested_state id on session) ≡ some on
unfolding requested_state mark_requested_state
requested_mark id on session = lookup-insert_self id on session.requested_states

requested_ap :
    (id : String) (a b : RestorationSession)
    → a.requested_states ≡ b.requested_states
    → requested_state id a ≡ requested_state id b
unfolding requested_state
requested_ap id a b e = rw e refl

module _ {W : Type 0} (commands : W → List Command) (rt : EquipmentRuntime W)
    (law : IsRecorded commands rt) (fuel : ℕ) (id : String) (on : Bool) (n : ℕ) where
  -- Before the command, and after it.
  abbrev pub Before : State W → Type 0
  Before = On commands (Marked id on n)

  abbrev pub After : State W → Type 0
  After = On commands (Marked id on (n + 1))

  Before-After : (s : State W) → Before s → After s
  Before-After s (r, h) = (r, omega arith)

  before : Keeps Before rt
  before = IsRecorded-Keeps commands (Marked id on n) law

  after : Keeps After rt
  after = IsRecorded-Keeps commands (Marked id on (n + 1)) law

  change_device-Once :
      (phase : String) (markers : ProgrammerMarkers) (times : Timeouts) (label : String)
      → Triple Before (change_device rt fuel id on phase markers times label) (λ _. After) After
  unfolding change_device
  change_device-Once phase markers times label =
      Triple-bind (λ _. After)
        (perform_lem rt before after (Keeps-Concludes after) Before-After fuel _ _ phase _ id _
          markers times (rt.switch id on) (has_state rt id on)
          (Sends_lem commands (Marked id on n) (Marked id on (n + 1)) (law.switch id on)
            (λ session cs h. (h.0, omega (arith, h.1)))
            (λ session cs h. (h.0, switches_step id on cs n h.1)))
          (keeps-Shows (has_state-keeps rt after id on)))
        λ _. after.write _

  skip_or_change :
      (b : Bool) (name reason phase : String) (markers : ProgrammerMarkers) (times : Timeouts)
      (label : String)
      → Triple Before
          (if b
            then rt.record_skip name reason
            else change_device rt fuel id on phase markers times label)
          (λ _. After)
          After
  skip_or_change true name reason phase markers times label =
      keep_weaken Before-After (before.record_skip name reason)
  skip_or_change false name reason phase markers times label =
      change_device-Once phase markers times label

  pub set_device-Once :
      (markers : ProgrammerMarkers) (times : Timeouts)
      → Triple Before
          (set_device rt fuel id on "restoration.device" markers times)
          (λ _. After)
          After
  unfolding set_device
  set_device-Once markers times =
      Triple-bind (λ _. Before)
        (Triple-weaken Before-After (
          on_session_lem Before Before (touch_device id) λ s next e h. (
            requested_ap id next s.session (touch_device-requests id s.session next e) ∙ h.0,
            h.1,
          )))
        λ _.
          Triple-bind (λ _. Before) (record { at = λ s h. h })
            λ _.
              Triple-bind (λ _. Before)
                (Triple-weaken Before-After
                  (settled_device-keeps rt before id "restoration.device"))
                λ device.
                  Triple-bind (λ _. Before)
                    (Triple-weaken Before-After (keep_lift (enabled device)))
                    λ now. skip_or_change (eq_Bool now on) _ _ _ markers times _
