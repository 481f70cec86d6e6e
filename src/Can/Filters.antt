-- ===== src/Can/Filters.antt =====
-- devices/canbus/AgvCanOperator.cpp: the table of filters, seen as a map from identifiers to masks.
use hxdl_driving_control.Prelude.{
  ℕ, ◌+◌, ◌-◌, ◌≤◌, ◌≡◌, refl, ◌⊎◌, inl, inr, List, [], ◌∷◌, ◌++◌, Option, none, some, arith, ltb,
  ◌==◌, if◌then◌else◌, length, length-append, Bool-cases, Option-cases,
}
use hxdl_driving_control.Prelude.Int.{ℤ, pos, negsuc}
use hxdl_driving_control.Can.{CanFilter, CanOperator, set_mask, add_can_filter, max_sensors}

-- The mask of an identifier.
unfoldable pub mask_of : ℕ → List CanFilter → Option ℕ
mask_of can_id [] = none
mask_of can_id (f ∷ filters) =
    if f.can_id == can_id then some f.can_mask else mask_of can_id filters

set_mask-map :
    (can_id mask : ℕ) (filters filters' : List CanFilter)
    → set_mask can_id mask filters ≡ some filters'
    → (length filters' ≡ length filters)
      × ((k : ℕ) → mask_of k filters' ≡ (if can_id == k then some mask else mask_of k filters))
unfolding set_mask mask_of
set_mask-map can_id mask [] filters' e = cc
set_mask-map can_id mask (f ∷ filters) filters' e = elim (Bool-cases (f.can_id == can_id)) [
  | inl hit ↦ (ground (arith, hit), λ k. ground (arith, hit))
  | inr miss ↦ elim (Option-cases (set_mask can_id mask filters)) [
    | inl bad ↦ absurd (ground (arith, miss, bad))
    | inr (more, found) ↦
        let (size, ih) = set_mask-map can_id mask filters more found in
        (ground (arith, miss, found), λ k. ground (arith, miss, found, ih k))
  ]
]

set_mask-none :
    (can_id mask : ℕ) (filters : List CanFilter)
    → set_mask can_id mask filters ≡ none
    → mask_of can_id filters ≡ none
unfolding set_mask mask_of
set_mask-none can_id mask [] e = refl
set_mask-none can_id mask (f ∷ filters) e = elim (Bool-cases (f.can_id == can_id)) [
  | inl hit ↦ absurd (ground (arith, hit))
  | inr miss ↦ elim (Option-cases (set_mask can_id mask filters)) [
    | inl bad ↦ ground (arith, miss, set_mask-none can_id mask filters bad)
    | inr (more, found) ↦ absurd (ground (arith, miss, found))
  ]
]

mask_of-snoc :
    (k can_id mask : ℕ) (filters : List CanFilter)
    → mask_of can_id filters ≡ none
    → mask_of k (filters ++ record { can_id = can_id; can_mask = mask } ∷ [])
      ≡ (if can_id == k then some mask else mask_of k filters)
unfolding mask_of
mask_of-snoc k can_id mask [] e = ground arith
mask_of-snoc k can_id mask (f ∷ filters) e = ground (arith, mask_of-snoc k can_id mask filters)

-- A result of AddCanFilter: 0, and the table is the map that it was with the one mask set; or -1, and
-- nothing is changed, the table is full and does not have the identifier.
abbrev pub Adds : ℕ → ℕ → CanOperator → ℤ × CanOperator → Type 0
Adds can_id mask op (ret, op') =
    (length op'.filter ≤ 31)
    × (((ret ≡ pos 0)
          × ((k : ℕ)
              → mask_of k op'.filter ≡ (if can_id == k then some mask else mask_of k op.filter)))
        ⊎ ((ret ≡ negsuc 0)
            × (op' ≡ op)
            × (length op.filter ≡ 31)
            × (mask_of can_id op.filter ≡ none)))

-- AddCanFilter on a table of at most 31 entries either returns 0, and the table is the map that it was
-- with the one mask set, or returns -1 and changes nothing, and then the table is full and does not have
-- the identifier; it never grows beyond 31 entries.
pub add_can_filter-Adds :
    (can_id mask : ℕ) (op : CanOperator)
    → length op.filter ≤ 31
    → Adds can_id mask op (add_can_filter can_id mask op)
unfolding add_can_filter
add_can_filter-Adds can_id mask op h = elim (Option-cases (set_mask can_id mask op.filter)) [
  | inr (filters, found) ↦
      let (size, same) = set_mask-map can_id mask op.filter filters found in
      rw (found, add_can_filter) (omega arith, inl (refl, same))
  | inl missing ↦
      let absent = set_mask-none can_id mask op.filter missing in
      let entry : CanFilter = record { can_id = can_id; can_mask = mask } in
      elim (Bool-cases (ltb (length op.filter) (max_sensors - 1))) [
        | inl room ↦
            let size : length (op.filter ++ entry ∷ []) ≤ 31 =
              ground (arith, length-append op.filter (entry ∷ [])) in
            rw (missing, add_can_filter, room)
              (size, inl (refl, λ k. mask_of-snoc k can_id mask op.filter absent))
        | inr full ↦
            let whole : length op.filter ≡ 31 = ground arith in
            rw (missing, add_can_filter, full) (h, inr (refl, refl, whole, absent))
      ]
]

pub add_can_filter-length :
    (can_id mask : ℕ) (op : CanOperator)
    → length (add_can_filter can_id mask op).1.filter ≤ length op.filter + 1
unfolding add_can_filter
add_can_filter-length can_id mask op = elim (Option-cases (set_mask can_id mask op.filter)) [
  | inr (filters, found) ↦
      let (size, same) = set_mask-map can_id mask op.filter filters found in
      ground (arith, found, size)
  | inl missing ↦
      let entry : CanFilter = record { can_id = can_id; can_mask = mask } in
      ground (arith, missing, length-append op.filter (entry ∷ []))
]
