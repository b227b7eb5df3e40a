-- ===== src/AllButton/Status.antt =====
-- The packets that a panel driver sends, and the status that it shows.
use aqualinkd_validator.Prelude.{
  ℕ, ◌+◌, ◌-◌, ◌%◌, ◌≡◌, refl, sym, ap, ◌∙◌, Bool, true, false, ◌&&◌, List, [], ◌∷◌, ◌++◌, ◌==◌,
  leb, if◌then◌else◌, Bytes, sum, length, take, drop, arith, All, length-append, take-append,
  drop-append, ◌⊎◌, inl, inr, Bool-cases, ◌≢◌, some, none, subst, append_assoc, ltb, not, ◌||◌,
}
use aqualinkd_validator.Capture.Frames.{dle, stx, etx}
use aqualinkd_validator.AllButton.{
  frame, first_byte, byte_at, valid_checksum, Response, send_timed_out, read_timed_out, received,
  Task, Ack, ack, failure, AllButtonPanelDriver, send, exchange, flip, receive, poll, then_poll,
  run, new_driver, fresh_driver, check_ack, unexpected_frame, invalid_checksum, running,
  send_failure, read_failure,
}
use aqualinkd_validator.AllButton.Keys.{presses, presses-snoc, keys, pump_status, flip-pump_status}

-- The checksum of a packet that is framed is right.
pub valid_checksum-frame :
    (destination command : ℕ) (payload : Bytes)
    → valid_checksum (frame destination command payload) ≡ true
unfolding valid_checksum frame
valid_checksum-frame destination command payload =
    let packet = dle ∷ stx ∷ destination ∷ command ∷ payload in
    let tail = sum packet % 256 ∷ dle ∷ etx ∷ [] in
    let size : length (packet ++ tail) ≡ length packet + 3 = length-append packet tail in
    let cut : length (packet ++ tail) - 3 ≡ length packet = omega (arith, size) in
    let taken : take (length (packet ++ tail) - 3) (packet ++ tail) ≡ packet =
      ap (λ n. take n (packet ++ tail)) cut ∙ take-append packet tail in
    let dropped : drop (length (packet ++ tail) - 3) (packet ++ tail) ≡ tail =
      ap (λ n. drop n (packet ++ tail)) cut ∙ drop-append packet tail in
    let long : leb 7 (length (packet ++ tail)) ≡ true = ground (arith, size) in
    let value : sum (take (length (packet ++ tail) - 3) (packet ++ tail)) % 256
        ≡ byte_at (length (packet ++ tail) - 3) (packet ++ tail) =
      ap (λ bs. sum bs % 256) taken ∙ sym (ap first_byte dropped) in
    both long value
  where
    both : {b : Bool} {m n : ℕ} → b ≡ true → m ≡ n → (b && m == n) ≡ true
    both e h = ground arith

-- What holds of a driver: the status is that of the commands, no command is zero, and every packet
-- that was sent has a valid checksum.
pub record IsSound (d : AllButtonPanelDriver) : Type 0 where
  pub shown : d.status ≡ pump_status (presses d.commands)
  pub nonzero : All (λ c. (c == 0) ≡ false) d.commands
  pub valid : All (λ f. valid_checksum f ≡ true) d.sent

-- The keys that were to come are reported in their order, and all of them while the task runs.
pub record IsReported (given : List ℕ) (r : Task × AllButtonPanelDriver) : Type 0 where
  pub missed : List ℕ
  pub in_order : given ≡ r.1.commands ++ missed
  pub complete : (missed ≡ []) ⊎ (r.0 ≢ running)

All-snoc {ℓ} :
    {A : Type ℓ} (P : A → Type 0) (xs : List A) (x : A) → All P xs → P x → All P (xs ++ x ∷ [])
All-snoc P [] x h p = (p, tt)
All-snoc P (y ∷ ys) x (q, qs) p = (q, All-snoc P ys x qs p)

IsSound-send :
    (destination command : ℕ) (payload : Bytes) (d : AllButtonPanelDriver)
    → IsSound d
    → IsSound (send (frame destination command payload) d)
IsSound-send destination command payload d s = record {
  shown = s.shown;
  nonzero = s.nonzero;
  valid =
      All-snoc (λ f. valid_checksum f ≡ true) d.sent (frame destination command payload) s.valid
        (valid_checksum-frame destination command payload);
}

exchange-IsSound : (r : Response) (d : AllButtonPanelDriver) → IsSound d → IsSound (exchange r d).1
unfolding exchange
exchange-IsSound send_timed_out d s = s
exchange-IsSound read_timed_out d s = IsSound-send d.device_id 2 d.status d s
exchange-IsSound (received incoming) d s = IsSound-send d.device_id 2 d.status d s

switched :
    (command : ℕ) (commands : List ℕ)
    → (if command == 2
        then flip (pump_status (presses commands))
        else pump_status (presses commands))
      ≡ pump_status (presses (commands ++ command ∷ []))
switched command commands = rw presses-snoc (elim (Bool-cases (command == 2)) [
  | inl e ↦ rw e (flip-pump_status (presses commands))
  | inr e ↦ rw e (ap pump_status (omega arith))
])

receive-IsSound : (command : ℕ) (d : AllButtonPanelDriver) → IsSound d → IsSound (receive command d)
unfolding receive
receive-IsSound command d s = elim (Bool-cases (command == 0)) [
  | inl e ↦ rw e s
  | inr e ↦
      let next : IsSound (record d {
        commands = d.commands ++ command ∷ [];
        status = if command == 2 then flip d.status else d.status;
      }) =
        record {
          shown =
              ap (λ st. if command == 2 then flip st else st) s.shown ∙ switched command d.commands;
          nonzero = All-snoc (λ c. (c == 0) ≡ false) d.commands command s.nonzero e;
          valid = s.valid;
        } in
      rw e next
]

-- What an exchange gives: the frame that was received, or a failure.
data Heard (r : Response) (a : Ack) : Type 0 where
  heard : (incoming : Bytes) → r ≡ received incoming → a ≡ ack incoming → Heard r a
  ended : (t : Task) → t ≢ running → a ≡ failure t → Heard r a

check_ack-Heard : (incoming : Bytes) → Heard (received incoming) (check_ack incoming)
unfolding check_ack
check_ack-Heard incoming =
    elim (Bool-cases
      (ltb (length incoming) 9 || not (byte_at 2 incoming == 0) || not (byte_at 3 incoming == 1))) [
        | inl e ↦ ended unexpected_frame (λ q. cc q) (rw e refl)
        | inr e ↦ elim (Bool-cases (not (valid_checksum incoming))) [
          | inl e' ↦ ended invalid_checksum (λ q. cc q) (rw (e, e') refl)
          | inr e' ↦ heard incoming refl (rw (e, e') refl)
        ]
      ]

exchange-Heard : (r : Response) (d : AllButtonPanelDriver) → Heard r (exchange r d).0
unfolding exchange
exchange-Heard send_timed_out d = ended send_failure (λ q. cc q) refl
exchange-Heard read_timed_out d = ended read_failure (λ q. cc q) refl
exchange-Heard (received incoming) d = check_ack-Heard incoming

commands-exchange :
    (r : Response) (d : AllButtonPanelDriver) → (exchange r d).1.commands ≡ d.commands
unfolding exchange
commands-exchange send_timed_out d = refl
commands-exchange read_timed_out d = refl
commands-exchange (received incoming) d = refl

-- A frame that was received adds its key, if it has one.
commands-receive :
    (incoming : Bytes) (rs : List Response) (d : AllButtonPanelDriver)
    → (receive (byte_at 5 incoming) d).commands ++ keys rs
      ≡ d.commands ++ keys (received incoming ∷ rs)
unfolding receive
commands-receive incoming rs d = elim (Bool-cases (byte_at 5 incoming == 0)) [
  | inl e ↦ rw e refl
  | inr e ↦ rw e (append_assoc d.commands (byte_at 5 incoming ∷ []) (keys rs))
]

poll_lem :
    (rs : List Response) (d : AllButtonPanelDriver)
    → IsSound d
    → IsSound (poll rs d).1 × IsReported (d.commands ++ keys rs) (poll rs d)
unfolding poll
poll_lem [] d s = (s, record { missed = []; in_order = refl; complete = inl refl })
poll_lem (r ∷ rs) d s =
    let after = exchange r d in
    let s' = exchange-IsSound r d s in
    elim (exchange-Heard r d) [
      | heard incoming same e ↦
          let d' = receive (byte_at 5 incoming) after.1 in
          let (sound, reported) =
            poll_lem rs d' (receive-IsSound (byte_at 5 incoming) after.1 s') in
          let given : d'.commands ++ keys rs ≡ d.commands ++ keys (r ∷ rs) =
            commands-receive incoming rs after.1
            ∙ ap (λ cs. cs ++ keys (received incoming ∷ rs)) (commands-exchange r d)
            ∙ ap (λ r'. d.commands ++ keys (r' ∷ rs)) (sym same) in
          rw (e, poll) (sound, subst (λ cs. IsReported cs (poll rs d')) given reported)
      | ended task stopped e ↦
          let reported : IsReported (d.commands ++ keys (r ∷ rs)) (task, after.1) = record {
            missed = keys (r ∷ rs);
            in_order = ap (λ cs. cs ++ keys (r ∷ rs)) (sym (commands-exchange r d));
            complete = inr stopped;
          } in
          rw (e, poll) (s', reported)
    ]

-- After the first exchange, whose key is not read.
then_poll_lem :
    (r : Response) (rs : List Response) (d : AllButtonPanelDriver)
    → d.commands ≡ []
    → IsSound d
    → IsSound (then_poll rs (exchange r d)).1 × IsReported (keys rs) (then_poll rs (exchange r d))
then_poll_lem r rs d none_yet s =
    let after = exchange r d in
    let s' = exchange-IsSound r d s in
    let empty : after.1.commands ≡ [] = commands-exchange r d ∙ none_yet in
    elim (exchange-Heard r d) [
      | heard incoming same e ↦
          let d' = record after.1 { ready = true } in
          let (sound, reported) =
            poll_lem rs d' (record { shown = s'.shown; nonzero = s'.nonzero; valid = s'.valid }) in
          rw e (
            sound,
            subst (λ cs. IsReported cs (poll rs d')) (ap (λ cs. cs ++ keys rs) empty) reported,
          )
      | ended task stopped e ↦
          let reported : IsReported (keys rs) (task, after.1) = record {
            missed = keys rs;
            in_order = ap (λ cs. cs ++ keys rs) (sym empty);
            complete = inr stopped;
          } in
          rw e (s', reported)
    ]

-- Whatever a new AllButton panel receives: the status that it shows has the filter pump on exactly
-- when the pump's key was reported an odd number of times, and all else off; none of the keys that
-- it reports is zero, and they are the first ones, in order, of those that the frames after the
-- first frame hold, and all of them as long as its task runs; and every packet that it sent has a
-- valid checksum.
pub run-IsSound :
    (device_id : ℕ) (d : AllButtonPanelDriver) (probed : Bool) (rs : List Response)
    → new_driver device_id ≡ some d
    → IsSound (run probed rs d).1 × IsReported (keys (drop 1 rs)) (run probed rs d)
unfolding run
run-IsSound device_id d probed rs h = ran probed rs
  where
    fresh : (d.commands ≡ []) × IsSound d
    fresh = elim (Bool-cases (leb 8 device_id && leb device_id 11)) [
      | inl e ↦
          let same : some (fresh_driver device_id) ≡ some d = rw e at h in
          let same' : fresh_driver device_id ≡ d = cc same in
          subst (λ d'. (d'.commands ≡ []) × IsSound d') same'
            (refl, record { shown = refl; nonzero = tt; valid = tt })
      | inr e ↦ let no : none ≡ some d = rw e at h in absurd (cc no)
    ]

    first : IsSound (send (frame d.device_id 0 []) d)
    first = IsSound-send d.device_id 0 [] d fresh.1

    ran :
        (probed : Bool) (rs : List Response)
        → IsSound (run probed rs d).1 × IsReported (keys (drop 1 rs)) (run probed rs d)
    ran false rs = (
      fresh.1,
      record {
        missed = keys (drop 1 rs);
        in_order = ap (λ cs. cs ++ keys (drop 1 rs)) (sym fresh.0);
        complete = inr (λ q. cc q);
      },
    )
    ran true [] = (
      first,
      record { missed = []; in_order = ap (λ cs. cs ++ []) (sym fresh.0); complete = inl refl },
    )
    ran true (r ∷ rs) = then_poll_lem r rs (send (frame d.device_id 0 []) d) fresh.0 first
