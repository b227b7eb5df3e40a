-- ===== src/Engine/Restoration/Order.antt =====
-- The order in which the touched devices are restored.
use aqualinkd_validator.Prelude.{
  ℕ, ◌+◌, ◌-◌, ◌*◌, ◌≤◌, String, str_eq, eq_iff, ◌||◌, ◌⊎◌, if◌then◌else◌, Bool-cases, inl, inr,
  ◌≡◌, refl, ◌∙◌, sym, ap, subst, Bool, true, false, List, [], ◌∷◌, map, arith, All, All-map,
}
use mathlib.Core.List.{Perm}
use mathlib.Core.List.Perm
use aqualinkd_validator.Prelude.Sorting.{sort, Ascending, sort-Ascending, perm-sort, All-sort}
use aqualinkd_validator.Equipment.{Res, ok, failed, cancelled}
use aqualinkd_validator.Engine.Restoration.Action.{RestorationSession}
use aqualinkd_validator.Engine.Restoration.{
  Key, group, key_le, keys_of, cons_key, key_of, restoration_order, restoration_rank,
  initial_device_enabled,
}

-- The chain of dependencies: a device needs those with a smaller place. The filter pump comes
-- first, then the spa modes, the other devices, and the heaters.
abbrev pub place : String → ℕ
place id =
    if str_eq id "Filter_Pump"
    then 0
    else if str_eq id "Spa" || str_eq id "Spa_Mode"
    then 1
    else if str_eq id "Pool_Heater" || str_eq id "Spa_Heater" || str_eq id "Solar_Heater"
    then 3
    else 2

-- When a device is restored: those that were off against the chain, then those that were on along
-- it.
abbrev pub moment : Key → ℕ
moment k = if k.on then 4 + place k.id else 3 - place k.id

stage : Key → ℕ
stage k = group k.on * 4 + k.rank

rank_bound : (on : Bool) (id : String) → restoration_rank on id ≤ 3
unfolding restoration_rank
rank_bound true id = ground arith
rank_bound false id = ground arith

cons_key_inv :
    (k : Res Key) (ks : Res (List Key)) (keys : List Key)
    → cons_key k ks ≡ ok keys
    → (first : Key) × (rest : List Key) × (k ≡ ok first) × (ks ≡ ok rest) × (keys ≡ first ∷ rest)
cons_key_inv (ok k) (ok ks) keys h = (k, ks, refl, refl, ground arith)
cons_key_inv (ok k) (failed f) keys h = cc
cons_key_inv (ok k) cancelled keys h = cc
cons_key_inv (failed f) ks keys h = cc
cons_key_inv cancelled ks keys h = cc

-- A key holds the original state of its device and the rank of that state.
abbrev IsKeyOf : RestorationSession → Key → Type 0
IsKeyOf s k = (initial_device_enabled s k.id ≡ ok k.on) × (k.rank ≡ restoration_rank k.on k.id)

key_of_inv :
    (id : String) (r : Res Bool) (k : Key)
    → key_of id r ≡ ok k
    → (r ≡ ok k.on) × (k.rank ≡ restoration_rank k.on id) × (k.id ≡ id)
key_of_inv id (ok on) k h = ground arith
key_of_inv id (failed f) k h = cc
key_of_inv id cancelled k h = cc

restoration_order_inv :
    (s : RestorationSession) (id : String) (k : Key)
    → restoration_order s id ≡ ok k
    → IsKeyOf s k × (k.id ≡ id)
unfolding restoration_order
restoration_order_inv s id k h =
    let (on, rank, same) = key_of_inv id (initial_device_enabled s id) k h in
    ((ap (initial_device_enabled s) same ∙ on, rank ∙ ap (restoration_rank k.on) (sym same)), same)

keys_of_inv :
    (s : RestorationSession) (ids : List String) (keys : List Key)
    → keys_of s ids ≡ ok keys
    → All (IsKeyOf s) keys × (map (λ k. k.id) keys ≡ ids)
unfolding keys_of
keys_of_inv s [] keys h = let e : keys ≡ [] = ground arith in rw e (tt, refl)
keys_of_inv s (id ∷ ids) keys h =
    let (first, rest, one, more, e) =
      cons_key_inv (restoration_order s id) (keys_of s ids) keys h in
    let (key, same) = restoration_order_inv s id first one in
    let (others, ids') = keys_of_inv s ids rest more in rw e ((key, others), cc)

named : (id name : String) → (id ≡ name) ⊎ (str_eq id name ≡ false)
named id name = elim (Bool-cases (str_eq id name)) [
  | inl e ↦ inl ((eq_iff id name).0 e)
  | inr e ↦ inr e
]

-- The two ways to name the classes of the devices agree.
abbrev Agree : String → Type 0
Agree id = (restoration_rank false id ≡ 3 - place id) × (restoration_rank true id ≡ place id)

rank-place : (id : String) → Agree id
unfolding restoration_rank
rank-place id = elim (named id "Filter_Pump") [
  | inl e ↦ subst Agree (sym e) (refl, refl)
  | inr n0 ↦ elim (named id "Spa") [
    | inl e ↦ subst Agree (sym e) (refl, refl)
    | inr n1 ↦ elim (named id "Spa_Mode") [
      | inl e ↦ subst Agree (sym e) (refl, refl)
      | inr n2 ↦ elim (named id "Pool_Heater") [
        | inl e ↦ subst Agree (sym e) (refl, refl)
        | inr n3 ↦ elim (named id "Spa_Heater") [
          | inl e ↦ subst Agree (sym e) (refl, refl)
          | inr n4 ↦ elim (named id "Solar_Heater") [
            | inl e ↦ subst Agree (sym e) (refl, refl)
            | inr n5 ↦ rw (n0, n1, n2, n3, n4, n5) (refl, refl)
          ]
        ]
      ]
    ]
  ]
]

moment-stage : (s : RestorationSession) (k : Key) → IsKeyOf s k → moment k ≡ stage k
unfolding stage
moment-stage s k h =
    let agree : Agree k.id = rank-place k.id in
    elim (Bool-cases k.on) [
      | inl e ↦ ground (arith, h.1, agree.1, e)
      | inr e ↦ ground (arith, h.1, agree.0, e)
    ]

key_le-moment :
    (s : RestorationSession) (a b : Key)
    → IsKeyOf s a
    → IsKeyOf s b
    → key_le a b ≡ true
    → moment a ≤ moment b
unfolding key_le stage
key_le-moment s a b p q h =
    let ra = rank_bound a.on a.id in
    let rb = rank_bound b.on b.id in
    rw (moment-stage s a p, moment-stage s b q) (ground (arith, p.1, q.1, ra, rb))

key_le-moment-false :
    (s : RestorationSession) (a b : Key)
    → IsKeyOf s a
    → IsKeyOf s b
    → key_le a b ≡ false
    → moment b ≤ moment a
unfolding key_le stage
key_le-moment-false s a b p q h =
    let ra = rank_bound a.on a.id in
    let rb = rank_bound b.on b.id in
    rw (moment-stage s a p, moment-stage s b q) (ground (arith, p.1, q.1, ra, rb))

-- The order of restoration: the sorted keys hold every touched device once, each with its original
-- state, and ascend in their moments. So of the devices that were off the heaters come first, then
-- the other devices, the spa modes, and the filter pump; after all of these, of the devices that
-- were on the filter pump comes first, then the spa modes, the other devices, and the heaters.
pub sort-keys_of :
    (s : RestorationSession) (ids : List String) (keys : List Key)
    → keys_of s ids ≡ ok keys
    → Ascending moment (sort key_le keys)
      × All (λ k. initial_device_enabled s k.id ≡ ok k.on) (sort key_le keys)
      × Perm (map (λ k. k.id) (sort key_le keys)) ids
sort-keys_of s ids keys h =
    let (valid, same) = keys_of_inv s ids keys h in
    (
      sort-Ascending key_le moment (IsKeyOf s) (key_le-moment s) (key_le-moment-false s) keys valid,
      All-map (IsKeyOf s) (λ k. initial_device_enabled s k.id ≡ ok k.on) (λ k x. x.0)
          (sort key_le keys) (All-sort key_le (IsKeyOf s) keys valid),
      subst (Perm (map (λ k. k.id) (sort key_le keys))) same
          (Perm.map (λ k. k.id) (perm-sort key_le keys)),
    )
