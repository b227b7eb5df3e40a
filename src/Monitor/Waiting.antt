-- ===== src/Monitor/Waiting.antt =====
-- A wait against a search of the whole log.
use aqualinkd_validator.Prelude.{
  ℕ, zero, suc, ◌+◌, ◌-◌, ◌≤◌, ◌≡◌, refl, sym, ap, ◌∙◌, Bool, true, false, none, List, [], ◌∷◌,
  ◌++◌, length, drop, All, arith, append_assoc, append-nil, length-append, first, first-append_none,
  first-append_some, first_nothing, first_agree, ltb, inl, inr, Option-cases, Bool-cases,
}
use aqualinkd_validator.Monitor.{
  LineEvent, Line, OutputMonitor, publish_all, passes, max, wait_for_match,
}
use aqualinkd_validator.Monitor.Log.{
  number, length-number, number-append, IsLogOf, publish_all-IsLogOf, history-publish_all,
}

-- All the lines of some batches.
abbrev pub joined : List (List Line) → List Line
joined [] = []
joined (batch ∷ batches) = batch ++ joined batches

-- Each batch fits in the history.
abbrev pub FitHistory : ℕ → List (List Line) → Type 0
FitHistory n batches = All (λ batch. length batch ≤ n) batches

module _ (test : LineEvent → Bool) where
  -- Events up to the cursor are passed over.
  first-drop-number :
      (cursor n k : ℕ) (lines : List Line)
      → n + k ≤ cursor
      → first (passes test cursor) (drop k (number n lines))
        ≡ first (passes test cursor) (number n lines)
  first-drop-number cursor n zero lines h = refl
  first-drop-number cursor n (suc k) [] h = refl
  first-drop-number cursor n (suc k) (line ∷ lines) h =
      let old : ltb cursor (n + 1) ≡ false = ground arith in
      rw old (first-drop-number cursor (n + 1) k lines (omega arith))

  old_events :
      (cursor n : ℕ) (lines : List Line)
      → n + length lines ≤ cursor
      → All (λ e. passes test cursor e ≡ false) (number n lines)
  old_events cursor n [] h = tt
  old_events cursor n (line ∷ lines) h =
      let old : ltb cursor (n + 1) ≡ false = ground arith in
      (rw old refl, old_events cursor (n + 1) lines (omega arith))

  new_events :
      (cursor cursor' n : ℕ) (lines : List Line)
      → cursor ≤ n
      → cursor' ≤ n
      → All (λ e. passes test cursor e ≡ passes test cursor' e) (number n lines)
  new_events cursor cursor' n [] h h' = tt
  new_events cursor cursor' n (line ∷ lines) h h' =
      let new : ltb cursor (n + 1) ≡ true = ground arith in
      let new' : ltb cursor' (n + 1) ≡ true = ground arith in
      (rw (new, new') refl, new_events cursor cursor' (n + 1) lines (omega arith) (omega arith))

  -- Once nothing was found, the search may go on from the end of the log.
  first-later :
      (cursor : ℕ) (lines more : List Line)
      → first (passes test cursor) (number 0 lines) ≡ none
      → first (passes test (max cursor (length lines))) (number 0 (lines ++ more))
        ≡ first (passes test cursor) (number 0 (lines ++ more))
  first-later cursor lines more h = elim (Bool-cases (ltb cursor (length lines))) [
    | inr at_end ↦ rw at_end refl
    | inl before ↦
        let n = length lines in
        let split = number-append 0 lines more in
        let skip : first (passes test n) (number 0 lines) ≡ none =
          first_nothing (passes test n) (number 0 lines) (old_events n 0 lines (omega arith)) in
        rw before (
          ap (first (passes test n)) split
          ∙ first-append_none (passes test n) (number 0 lines) (number (0 + n) more) skip
          ∙ first_agree (passes test n) (passes test cursor) (number (0 + n) more)
              (new_events n cursor (0 + n) more (omega arith) (ground arith))
          ∙ sym (
              ap (first (passes test cursor)) split
              ∙ first-append_none (passes test cursor) (number 0 lines) (number (0 + n) more) h))
  ]

  -- What one round finds.
  scan_lem :
      (cursor : ℕ) (lines : List Line) (m : OutputMonitor)
      → IsLogOf lines m
      → length lines ≤ cursor + m.history_size
      → first (passes test cursor) m.events ≡ first (passes test cursor) (number 0 lines)
  scan_lem cursor lines m log h =
      ap (first (passes test cursor)) log.kept
      ∙ first-drop-number cursor 0 (length (number 0 lines) - m.history_size) lines
          (omega (arith, length-number 0 lines))

-- A wait on a monitor that keeps the events after the cursor, and is woken before it forgets a new
-- one, gives what a search of the whole log gives, over all lines that are published by the end of
-- the wait: the first event after the cursor that passes, or none.
pub wait_for_match_refines :
    (test : LineEvent → Bool) (cursor : ℕ) (lines : List Line) (m : OutputMonitor)
    (batches : List (List Line))
    → IsLogOf lines m
    → length lines ≤ cursor + m.history_size
    → FitHistory m.history_size batches
    → (wait_for_match test cursor m batches).0
      ≡ first (passes test cursor) (number 0 (lines ++ joined batches))
unfolding wait_for_match
wait_for_match_refines test cursor lines m [] log h fit =
    scan_lem test cursor lines m log h
    ∙ ap (λ ls. first (passes test cursor) (number 0 ls)) (sym (append-nil lines))
wait_for_match_refines test cursor lines m (batch ∷ batches) log h (fit, fits) =
    let scan = scan_lem test cursor lines m log h in
    let split = number-append 0 lines (batch ++ joined batches) in
    elim (Option-cases (first (passes test cursor) m.events)) [
      | inr (event, e) ↦
          rw (e, wait_for_match)
            (sym (
              ap (first (passes test cursor)) split
              ∙ first-append_some (passes test cursor) (number 0 lines)
                  (number (0 + length lines) (batch ++ joined batches)) event (sym scan ∙ e)))
      | inl e ↦
          let m' = publish_all batch m in
          let cursor' = max cursor m.sequence in
          let size : m'.history_size ≡ m.history_size = history-publish_all batch m in
          let reach : length (lines ++ batch) ≤ cursor' + m'.history_size =
            ground (arith, size, log.counted, length-append lines batch, fit) in
          rw (e, wait_for_match)
            (wait_for_match_refines test cursor' (lines ++ batch) m' batches
                (publish_all-IsLogOf lines batch m log) reach (rw size fits)
              ∙ ap
                  (λ k.
                    first (passes test (max cursor k))
                      (number 0 ((lines ++ batch) ++ joined batches)))
                  log.counted
              ∙ ap (λ ls. first (passes test (max cursor (length lines))) (number 0 ls))
                  (append_assoc lines batch (joined batches))
              ∙ first-later test cursor lines (batch ++ joined batches) (sym scan ∙ e))
    ]
