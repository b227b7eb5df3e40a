-- ===== src/Prelude/Text.antt =====
-- Texts that are compared whole, sets of texts as lists, and dictionaries with text keys.
use Prim.Native.Nat.{Ordering}
use Prim.Native.String.{String, compare}
use Prim.Native.Char.{Char, code}
use mathlib.Core.Path.{◌≡◌, refl}
use mathlib.Core.Logic.{inl, inr}
use mathlib.Core.Bool.{Bool, true, false, ◌||◌, ◌&&◌}
use mathlib.Core.Option.{Option, none, some}
use mathlib.Core.List.{List, [], ◌∷◌}
use text.Mathlib.Text.{◌==◌}
use text.Mathlib.TextPositions.{eq_refl}
use native.Mathlib.Omega.{arith}
use aqualinkd_validator.Prelude.Tests.{leb, if◌then◌else◌, Bool-cases}

-- The order of Python's texts, by code points.
abbrev pub text_le : String → String → Bool
text_le s t = elim (compare s t) [ Ordering.gt ↦ false | _ ↦ true ]

-- A blank of ASCII.
abbrev is_blank : Char → Bool
is_blank c = leb 9 (code c) && leb (code c) 13 || leb 28 (code c) && leb (code c) 32

abbrev cons_unless : Bool → Char → String → String
cons_unless blank c String.[] = if blank then String.[] else String.◌∷◌ c String.[]
cons_unless blank c (String.◌∷◌ d s) = String.◌∷◌ c (String.◌∷◌ d s)

abbrev strip_end : String → String
strip_end String.[] = String.[]
strip_end (String.◌∷◌ c s) = cons_unless (is_blank c) c (strip_end s)

abbrev strip_start : String → String
strip_start String.[] = String.[]
strip_start (String.◌∷◌ c s) =
    let rest = strip_start s in if is_blank c then rest else String.◌∷◌ c s

-- `text.strip()`
abbrev pub strip : String → String
strip s = strip_end (strip_start s)

-- `key in keys`
abbrev pub contains : List String → String → Bool
contains [] key = false
contains (k ∷ keys) key = k == key || contains keys key

-- `keys.add(key)`
abbrev pub add_key : List String → String → List String
add_key keys key = if contains keys key then keys else key ∷ keys

module _ {ℓ} {V : Type ℓ} where
  -- `d.get(key)`
  abbrev pub lookup : String → List (String × V) → Option V
  lookup key [] = none
  lookup key ((k, v) ∷ items) = if k == key then some v else lookup key items

  -- `d[key] = value`
  abbrev pub insert : String → V → List (String × V) → List (String × V)
  insert key value [] = (key, value) ∷ []
  insert key value ((k, v) ∷ items) =
      if k == key then (key, value) ∷ items else (k, v) ∷ insert key value items

  -- `d.pop(key, None)`
  abbrev pub remove : String → List (String × V) → List (String × V)
  remove key [] = []
  remove key ((k, v) ∷ items) =
      let rest = remove key items in if k == key then rest else (k, v) ∷ rest

pub contains-add_key_self :
    (keys : List String) (key : String) → contains (add_key keys key) key ≡ true
contains-add_key_self keys key = ground (arith, eq_refl key)

pub contains-add_key :
    (keys : List String) (key k : String)
    → contains keys k ≡ true
    → contains (add_key keys key) k ≡ true
contains-add_key keys key k h = ground arith

pub lookup-insert_self {ℓ} :
    {V : Type ℓ} (key : String) (value : V) (items : List (String × V))
    → lookup key (insert key value items) ≡ some value
lookup-insert_self key value [] = rw (eq_refl key) refl
lookup-insert_self key value ((k, v) ∷ items) = elim (Bool-cases (k == key)) [
  | inl e ↦ rw (e, eq_refl key) refl
  | inr e ↦ rw (e, e) (lookup-insert_self key value items)
]
