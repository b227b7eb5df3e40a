-- ===== src/Prelude/Sorting.antt =====
-- `sorted` with a key, as insertion: a stable sort by any Boolean order.
use Prim.Native.Nat.{ℕ, ◌≤◌}
use mathlib.Core.Path.{◌≡◌}
use mathlib.Core.Bool.{Bool, true, false}
use mathlib.Core.List.{List, [], ◌∷◌}
use mathlib.Core.List.Perm
use mathlib.Core.List.{Perm}
use native.Mathlib.Omega.{arith}
use aqualinkd_validator.Prelude.Tests.{if◌then◌else◌, Bool-cases}
use aqualinkd_validator.Prelude.Lists.{All}
use mathlib.Core.Logic.{inl, inr}

module _ {ℓ} {A : Type ℓ} (le : A → A → Bool) where
  pub insert_sorted : A → List A → List A
  insert_sorted x [] = x ∷ []
  insert_sorted x (y ∷ ys) = if le x y then x ∷ y ∷ ys else y ∷ insert_sorted x ys

  unfoldable pub sort : List A → List A
  unfolding insert_sorted
  sort [] = []
  sort (x ∷ xs) = insert_sorted x (sort xs)

  perm-insert_sorted : (x : A) (xs : List A) → Perm (insert_sorted x xs) (x ∷ xs)
  unfolding insert_sorted
  perm-insert_sorted x [] = Perm.refl _
  perm-insert_sorted x (y ∷ ys) = elim (Bool-cases (le x y)) [
    | inl e ↦ rw e (Perm.refl _)
    | inr e ↦ rw e (Perm.trans (Perm.cons y (perm-insert_sorted x ys)) (Perm.swap x y ys))
  ]

  pub perm-sort : (xs : List A) → Perm (sort xs) xs
  unfolding sort
  perm-sort [] = Perm.refl _
  perm-sort (x ∷ xs) = Perm.trans (perm-insert_sorted x (sort xs)) (Perm.cons x (perm-sort xs))

  module _ {κ} (P : A → Type κ) where
    All-insert_sorted : (x : A) (xs : List A) → P x → All P xs → All P (insert_sorted x xs)
    unfolding insert_sorted
    All-insert_sorted x [] p ps = (p, ps)
    All-insert_sorted x (y ∷ ys) p (q, ps) = elim (Bool-cases (le x y)) [
      | inl e ↦ rw e (p, (q, ps))
      | inr e ↦ rw e (q, All-insert_sorted x ys p ps)
    ]

    pub All-sort : (xs : List A) → All P xs → All P (sort xs)
    unfolding sort
    All-sort [] ps = tt
    All-sort (x ∷ xs) (p, ps) = All-insert_sorted x (sort xs) p (All-sort xs ps)

module _ {ℓ κ} {A : Type ℓ} (le : A → A → Bool) (P : A → Type κ) where
  All-insert_sorted_inv : (x : A) (xs : List A) → All P (insert_sorted le x xs) → P x × All P xs
  unfolding insert_sorted
  All-insert_sorted_inv x [] (p, ps) = (p, ps)
  All-insert_sorted_inv x (y ∷ ys) h = elim (Bool-cases (le x y)) [
    | inl e ↦ rw e at h
    | inr e ↦
        let h' : P y × All P (insert_sorted le x ys) = rw e at h in
        let (p, ps) = All-insert_sorted_inv x ys h'.1 in (p, (h'.0, ps))
  ]

  -- What holds of every item of the sorted list holds of every item.
  pub All-sort_inv : (xs : List A) → All P (sort le xs) → All P xs
  unfolding sort
  All-sort_inv [] h = tt
  All-sort_inv (x ∷ xs) h =
      let (p, ps) = All-insert_sorted_inv x (sort le xs) h in (p, All-sort_inv xs ps)

-- In the order of a measure.
abbrev pub Ascending {ℓ} : {A : Type ℓ} → (A → ℕ) → List A → Type 0
Ascending f [] = Unit
Ascending f (x ∷ xs) = All (λ y. f x ≤ f y) xs × Ascending f xs

module _ {ℓ κ} {A : Type ℓ} (le : A → A → Bool) (f : A → ℕ) (P : A → Type κ)
    (up : (a b : A) → P a → P b → le a b ≡ true → f a ≤ f b)
    (down : (a b : A) → P a → P b → le a b ≡ false → f b ≤ f a) where
  All-le_trans : (n m : ℕ) (xs : List A) → n ≤ m → All (λ y. m ≤ f y) xs → All (λ y. n ≤ f y) xs
  All-le_trans n m [] h p = tt
  All-le_trans n m (x ∷ xs) h (p, ps) = (omega arith, All-le_trans n m xs h ps)

  insert_sorted-Ascending :
      (x : A) (xs : List A) → P x → All P xs → Ascending f xs → Ascending f (insert_sorted le x xs)
  unfolding insert_sorted
  insert_sorted-Ascending x [] px pxs p = (tt, tt)
  insert_sorted-Ascending x (y ∷ ys) px (py, pys) (p, ps) = elim (Bool-cases (le x y)) [
    | inl e ↦ let h = up x y px py e in rw e ((h, All-le_trans (f x) (f y) ys h p), (p, ps))
    | inr e ↦ rw e (
      All-insert_sorted le (λ z. f y ≤ f z) x ys (down x y px py e) p,
      insert_sorted-Ascending x ys px pys ps,
    )
  ]

  -- The sorted list ascends in a measure that the order respects on the items.
  pub sort-Ascending : (xs : List A) → All P xs → Ascending f (sort le xs)
  unfolding sort
  sort-Ascending [] h = tt
  sort-Ascending (x ∷ xs) (p, ps) =
      insert_sorted-Ascending x (sort le xs) p (All-sort le P xs ps) (sort-Ascending xs ps)
