-- ===== src/Correlation/Conditions.antt =====
-- The conditions of a correlation, written out, and that the code tests them.
use aqualinkd_validator.Prelude.{
  ℕ, String, ◌≤◌, ◌<◌, ◌≡◌, ◌≢◌, ◌↔◌, refl, ap, sym, ◌∙◌, Bool, true, false, Option, none, some,
  List, [], ◌∷◌, ◌++◌, arith, ◌==◌, eq_iff, All, Bool-cases, inl, inr, if◌then◌else◌, first, Bytes,
  ◌&&◌, not,
}
use aqualinkd_validator.Correlation.{
  Event, Packet, passed, failed, in_window, is_outbound, is_inbound, no_error, errors_of,
  same_identity, Text, codes, casefold, text_eq, from_hex, command_byte, Direction,
  aqualinkd_to_panel, panel_to_aqualinkd, is_direction, is_outbound_command, before_end, up_to_end,
  option_eq, is_command, bytes_command,
}

-- The first item of a list of which a property holds.
pub record IsFirst {A : Type 0} (P : A → Type 0) (xs : List A) (x : A) : Type 0 where
  pub earlier : List A
  pub later : List A
  pub place : xs ≡ earlier ++ x ∷ later
  pub holds : P x
  pub others : All (λ y. ¬ P y) earlier

module _ {A : Type 0} (p : A → Bool) (P : A → Type 0) (tells : (x : A) → (p x ≡ true) ↔ P x) where
  fails : (x : A) → p x ≡ false → ¬ P x
  fails x e h = absurd (cc ((tells x).1 h, e))

  pub first-IsFirst : (xs : List A) (x : A) → first p xs ≡ some x → IsFirst P xs x
  first-IsFirst [] x h = absurd (cc)
  first-IsFirst (y ∷ ys) x h = elim (Bool-cases (p y)) [
    | inl e ↦
        let same : y ≡ x = ground arith in
        record {
          earlier = [];
          later = ys;
          place = ap (λ z. z ∷ ys) same;
          holds = (tells x).0 (ap p (sym same) ∙ e);
          others = tt;
        }
    | inr e ↦
        let r = first-IsFirst ys x (ground arith) in
        record {
          earlier = y ∷ r.earlier;
          later = r.later;
          place = ap (λ zs. y ∷ zs) r.place;
          holds = r.holds;
          others = (fails y e, r.others);
        }
  ]

  pub not-first : (xs : List A) → first p xs ≡ none → All (λ x. ¬ P x) xs
  not-first [] h = tt
  not-first (y ∷ ys) h = elim (Bool-cases (p y)) [
    | inl e ↦ let no : some y ≡ none = rw e at h in absurd (cc no)
    | inr e ↦ (fails y e, not-first ys (rw e at h))
  ]

-- Without an error, all three were found.
pub all_found :
    (ack : Option Event) (out inb : Option Packet)
    → (if no_error (errors_of ack out inb) then passed else failed) ≡ passed
    → (a : Event) × (o : Packet) × (i : Packet) × (ack ≡ some a) × (out ≡ some o) × (inb ≡ some i)
all_found none none _ h = absurd (cc)
all_found none (some o) none h = absurd (cc)
all_found none (some o) (some i) h = absurd (cc)
all_found (some a) none _ h = absurd (cc)
all_found (some a) (some o) none h = absurd (cc)
all_found (some a) (some o) (some i) h = (a, o, i, refl, refl, refl)

-- A time before an end, and one that is no later; without an end every time is.
abbrev pub IsBefore : ℕ → Option ℕ → Type 0
IsBefore t none = Unit
IsBefore t (some end) = t < end

abbrev pub IsUpTo : ℕ → Option ℕ → Type 0
IsUpTo t none = Unit
IsUpTo t (some end) = t ≤ end

-- An event with the phase, the name and the target of an action, from its start on and before the
-- start of the next one.
pub record Belongs (action : Event) (next_start : Option ℕ) (e : Event) : Type 0 where
  pub phase : e.phase ≡ action.phase
  pub name : e.action ≡ action.action
  pub target : e.target ≡ action.target
  pub started : action.offset_ns ≤ e.offset_ns
  pub unfinished : IsBefore e.offset_ns next_start

-- The end of an action's window: its completion, or else the start of the next action.
pub data IsEnd (finished : List Event) (action : Event) (next_start : Option ℕ) (end : Option ℕ)
    : Type 0 where
  completed :
      (e : Event)
      → IsFirst (Belongs action next_start) finished e
      → end ≡ some e.offset_ns
      → IsEnd finished action next_start end
  open_ended :
      All (λ e. ¬ Belongs action next_start e) finished
      → end ≡ next_start
      → IsEnd finished action next_start end

-- A packet whose sixth byte, a command, is not zero.
pub data Carries (packet : Packet) : Type 0 where
  carries :
      (text : Text) (a b c d e command : ℕ) (rest : Bytes)
      → packet.payload_text ≡ some text
      → from_hex text ≡ some (a ∷ b ∷ c ∷ d ∷ e ∷ command ∷ rest)
      → command ≢ 0
      → Carries packet

-- A command that AqualinkD sends from a time on, up to an end.
pub record IsSent (start : ℕ) (end : Option ℕ) (packet : Packet) : Type 0 where
  pub since : start ≤ packet.offset_ns
  pub until : IsUpTo packet.offset_ns end
  pub direction : packet.direction ≡ some aqualinkd_to_panel
  pub kind : casefold packet.packet_type ≡ codes "ack w/ command"
  pub command : Carries packet

-- A packet of the panel after a time, up to an end.
pub record IsAnswer (after : ℕ) (end : Option ℕ) (packet : Packet) : Type 0 where
  pub since : after < packet.offset_ns
  pub until : IsUpTo packet.offset_ns end
  pub direction : packet.direction ≡ some panel_to_aqualinkd

and_iff : (a b : Bool) → ((a && b) ≡ true) ↔ ((a ≡ true) × (b ≡ true))
and_iff a b = (ground arith, ground arith)

option_eq_iff : (a b : Option String) → (option_eq a b ≡ true) ↔ (a ≡ b)
option_eq_iff none none = ((λ h. refl), (λ h. refl))
option_eq_iff none (some t) = ((λ h. cc h), (λ h. cc h))
option_eq_iff (some s) none = ((λ h. cc h), (λ h. cc h))
option_eq_iff (some s) (some t) =
    let (to, from) = eq_iff s t in ((λ h. ap some (to h)), (λ h. from (cc h)))

text_eq_iff : (a b : Text) → (text_eq a b ≡ true) ↔ (a ≡ b)
unfolding text_eq
text_eq_iff [] [] = ((λ h. refl), (λ h. refl))
text_eq_iff [] (y ∷ ys) = ((λ h. cc h), (λ h. cc h))
text_eq_iff (x ∷ xs) [] = ((λ h. cc h), (λ h. cc h))
text_eq_iff (x ∷ xs) (y ∷ ys) = let (to, from) = text_eq_iff xs ys in (ground arith, ground arith)

IsBefore-iff : (t : ℕ) (end : Option ℕ) → (before_end t end ≡ true) ↔ IsBefore t end
IsBefore-iff t none = ((λ h. tt), (λ h. refl))
IsBefore-iff t (some end) = (ground arith, ground arith)

IsUpTo-iff : (t : ℕ) (end : Option ℕ) → (up_to_end t end ≡ true) ↔ IsUpTo t end
IsUpTo-iff t none = ((λ h. tt), (λ h. refl))
IsUpTo-iff t (some end) = (ground arith, ground arith)

direction_iff : (d : Direction) (o : Option Direction) → (is_direction d o ≡ true) ↔ (o ≡ some d)
direction_iff aqualinkd_to_panel none = ((λ h. cc h), (λ h. cc h))
direction_iff panel_to_aqualinkd none = ((λ h. cc h), (λ h. cc h))
direction_iff aqualinkd_to_panel (some aqualinkd_to_panel) = ((λ h. refl), (λ h. refl))
direction_iff aqualinkd_to_panel (some panel_to_aqualinkd) = ((λ h. cc h), (λ h. cc h))
direction_iff panel_to_aqualinkd (some aqualinkd_to_panel) = ((λ h. cc h), (λ h. cc h))
direction_iff panel_to_aqualinkd (some panel_to_aqualinkd) = ((λ h. refl), (λ h. refl))

nonzero : {c : ℕ} → c ≢ 0 → not (c == 0) ≡ true
nonzero h = ground arith

command_iff : (packet : Packet) → (is_command (command_byte packet) ≡ true) ↔ Carries packet
unfolding command_byte
command_iff packet = (forth packet.payload_text refl, back)
  where
    read :
        (text : Text) (o : Option Bytes)
        → packet.payload_text ≡ some text
        → from_hex text ≡ o
        → is_command (bytes_command o) ≡ true
        → Carries packet
    read text none e e' h = absurd (cc h)
    read text (some (a ∷ b ∷ c ∷ d ∷ e' ∷ f ∷ rest)) e q h =
        carries text a b c d e' f rest e q (ground arith)
    read text (some _) e q h = absurd (cc h)

    forth :
        (o : Option Text)
        → packet.payload_text ≡ o
        → is_command (elim o [ none ↦ none | some text ↦ bytes_command (from_hex text) ]) ≡ true
        → Carries packet
    forth none e h = absurd (cc h)
    forth (some text) e h = read text (from_hex text) e refl h

    back :
        Carries packet
        → is_command
            (elim packet.payload_text [ none ↦ none | some text ↦ bytes_command (from_hex text) ])
          ≡ true
    back (carries text a b c d e f rest p q n) = rw (p, q) (nonzero n)

pub window_iff :
    (action : Event) (next_start : Option ℕ) (e : Event)
    → (in_window action action.offset_ns next_start e ≡ true) ↔ Belongs action next_start e
unfolding same_identity
window_iff action next_start e =
    let (p, p') = option_eq_iff e.phase action.phase in
    let (q, q') = option_eq_iff e.action action.action in
    let (r, r') = option_eq_iff e.target action.target in
    let (b, b') = IsBefore-iff e.offset_ns next_start in
    (
      (λ h. record {
        phase = p (ground arith);
        name = q (ground arith);
        target = r (ground arith);
        started = ground arith;
        unfinished = b (ground arith);
      }),
      (λ h. rw (p' h.phase, q' h.name, r' h.target, b' h.unfinished) (ground (arith, h.started))),
    )

pub outbound_iff :
    (start : ℕ) (end : Option ℕ) (packet : Packet)
    → (is_outbound start end packet ≡ true) ↔ IsSent start end packet
unfolding is_outbound_command
outbound_iff start end packet =
    let (p, p') = IsUpTo-iff packet.offset_ns end in
    let (q, q') = direction_iff aqualinkd_to_panel packet.direction in
    let (r, r') = text_eq_iff (casefold packet.packet_type) (codes "ack w/ command") in
    let (b, b') = command_iff packet in
    (
      (λ h. record {
        since = ground arith;
        until = p (ground arith);
        direction = q (ground arith);
        kind = r (ground arith);
        command = b (ground arith);
      }),
      (λ h. rw (p' h.until, q' h.direction, r' h.kind, b' h.command) (ground (arith, h.since))),
    )

pub inbound_iff :
    (after : ℕ) (end : Option ℕ) (packet : Packet)
    → (is_inbound after end packet ≡ true) ↔ IsAnswer after end packet
inbound_iff after end packet =
    let (p, p') = IsUpTo-iff packet.offset_ns end in
    let (q, q') = direction_iff panel_to_aqualinkd packet.direction in
    (
      (λ h. record {
        since = ground arith;
        until = p (ground arith);
        direction = q (ground arith);
      }),
      (λ h. rw (p' h.until, q' h.direction) (ground (arith, h.since))),
    )
