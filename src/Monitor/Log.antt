-- ===== src/Monitor/Log.antt =====
-- The log that a monitor stands for: every event that was published, numbered from 1.
use aqualinkd_validator.Prelude.{
  ℕ, suc, ◌+◌, ◌-◌, ◌≡◌, refl, sym, ap, ◌∙◌, List, [], ◌∷◌, ◌++◌, length, drop, arith, append_assoc,
  append-nil, length-append, drop-append_le, drop-drop, length-drop,
}
use aqualinkd_validator.Monitor.{
  LineEvent, Line, OutputMonitor, new_monitor, keep_last, event_of, publish, publish_all,
}

-- The events of some lines, numbered after `n`.
abbrev pub number : ℕ → List Line → List LineEvent
number n [] = []
number n (line ∷ lines) = event_of (n + 1) line ∷ number (n + 1) lines

pub length-number : (n : ℕ) (lines : List Line) → length (number n lines) ≡ length lines
length-number n [] = refl
length-number n (line ∷ lines) = ap suc (length-number (n + 1) lines)

pub number-append :
    (n : ℕ) (xs ys : List Line) → number n (xs ++ ys) ≡ number n xs ++ number (n + length xs) ys
number-append n [] ys = ap (λ k. number k ys) (omega arith)
number-append n (x ∷ xs) ys =
    ap (λ es. event_of (n + 1) x ∷ es)
      (number-append (n + 1) xs ys ∙ ap (λ k. number (n + 1) xs ++ number k ys) (omega arith))

-- The monitor holds the last events of the log.
pub record IsLogOf (lines : List Line) (m : OutputMonitor) : Type 0 where
  pub kept : m.events ≡ keep_last m.history_size (number 0 lines)
  pub counted : m.sequence ≡ length lines

pub new_monitor-IsLogOf : (n : ℕ) → IsLogOf [] (new_monitor n)
new_monitor-IsLogOf n = record { kept = keep_nil n; counted = refl }
  where
    keep_nil : (n : ℕ) → [] ≡ keep_last {A = LineEvent} n []
    keep_nil n = ap (λ k. drop {A = LineEvent} k []) (none_left n)
      where
        none_left : (n : ℕ) → 0 ≡ 0 - n
        none_left n = omega arith

-- Dropping the oldest again after one more item.
keep_last-append {ℓ} :
    {A : Type ℓ} (n : ℕ) (xs : List A) (x : A)
    → keep_last n (keep_last n xs ++ x ∷ []) ≡ keep_last n (xs ++ x ∷ [])
keep_last-append n xs x =
    let k = length xs - n in
    let ys = drop k xs in
    let whole : drop k (xs ++ x ∷ []) ≡ ys ++ x ∷ [] = drop-append_le k xs (x ∷ []) (omega arith) in
    let size : length (ys ++ x ∷ []) ≡ length xs - k + 1 =
      length-append ys (x ∷ []) ∙ ap (λ m. m + 1) (length-drop k xs) in
    let size' : length (xs ++ x ∷ []) ≡ length xs + 1 = length-append xs (x ∷ []) in
    let both : k + (length (ys ++ x ∷ []) - n) ≡ length (xs ++ x ∷ []) - n =
      omega (arith, size, size') in
    ap (drop (length (ys ++ x ∷ []) - n)) (sym whole)
    ∙ drop-drop (length (ys ++ x ∷ []) - n) k (xs ++ x ∷ [])
    ∙ ap (λ m. drop m (xs ++ x ∷ [])) both

publish-IsLogOf :
    (lines : List Line) (line : Line) (m : OutputMonitor)
    → IsLogOf lines m
    → IsLogOf (lines ++ line ∷ []) (publish line m).1
unfolding publish
publish-IsLogOf lines line m h = record {
  kept =
      ap (λ es. keep_last m.history_size (es ++ event_of (m.sequence + 1) line ∷ [])) h.kept
      ∙ keep_last-append m.history_size (number 0 lines) (event_of (m.sequence + 1) line)
      ∙ ap (λ k. keep_last m.history_size (number 0 lines ++ event_of (k + 1) line ∷ [])) h.counted
      ∙ ap (keep_last m.history_size) (
          sym (
            number-append 0 lines (line ∷ [])
            ∙ ap (λ k. number 0 lines ++ event_of (k + 1) line ∷ []) (zero_add (length lines))));
  counted = omega (arith, h.counted, length-append lines (line ∷ []));
}
  where
    zero_add : (n : ℕ) → 0 + n ≡ n
    zero_add n = omega arith

pub publish_all-IsLogOf :
    (lines batch : List Line) (m : OutputMonitor)
    → IsLogOf lines m
    → IsLogOf (lines ++ batch) (publish_all batch m)
unfolding publish_all
publish_all-IsLogOf lines [] m h = rw append-nil h
publish_all-IsLogOf lines (line ∷ batch) m h = rw (← append_assoc lines (line ∷ []) batch) (
    publish_all-IsLogOf (lines ++ line ∷ []) batch (publish line m).1
      (publish-IsLogOf lines line m h))

pub history-publish_all :
    (batch : List Line) (m : OutputMonitor) → (publish_all batch m).history_size ≡ m.history_size
unfolding publish_all publish
history-publish_all [] m = refl
history-publish_all (line ∷ batch) m = history-publish_all batch (publish line m).1
