-- ===== src/Manager/Sorted.antt =====
-- devices/canbus/AgvSensorManager.cpp: AddSensor and RemoveSensor, and the set of sensors that they manage.
use hxdl_driving_control.Prelude.{
  ℕ, ◌<◌, ◌≡◌, refl, ap, ◌∙◌, inl, inr, List, [], ◌∷◌, ◌++◌, Bool, true, false, some, arith, All,
  ltb, ◌==◌, if◌then◌else◌, Bool-cases,
}
use hxdl_driving_control.Manager.{
  Entry, Manager, has_sensor, insert, sort, erase_sensor, add_sensor, remove_sensor,
}

-- A call of AddSensor or of RemoveSensor.
pub data Change (C : Type 0) : Type 0 where
  add : Entry C → Change C
  remove : Entry C → Change C

module _ {C : Type 0} where
  -- Sorted by the addresses, none of them twice.
  abbrev pub IsSorted : List (Entry C) → Type 0
  IsSorted [] = Unit
  IsSorted (e ∷ entries) = All (λ x. e.address < x.address) entries × IsSorted entries

  abbrev pub IsDistinct : List (Entry C) → Type 0
  IsDistinct [] = Unit
  IsDistinct (e ∷ entries) = (has_sensor e.address entries ≡ false) × IsDistinct entries

  above-lacks :
      (a : ℕ) (entries : List (Entry C))
      → All (λ x. a < x.address) entries
      → has_sensor a entries ≡ false
  unfolding has_sensor
  above-lacks a [] h = refl
  above-lacks a (e ∷ entries) h = ground (arith, above-lacks a entries h.1)

  IsSorted-IsDistinct : (entries : List (Entry C)) → IsSorted entries → IsDistinct entries
  IsSorted-IsDistinct [] h = tt
  IsSorted-IsDistinct (e ∷ entries) h =
      (above-lacks e.address entries h.0, IsSorted-IsDistinct entries h.1)

  has_sensor-insert :
      (a : ℕ) (e : Entry C) (entries : List (Entry C))
      → has_sensor a (insert e entries) ≡ (if e.address == a then true else has_sensor a entries)
  unfolding has_sensor insert
  has_sensor-insert a e [] = refl
  has_sensor-insert a e (x ∷ entries) = ground (arith, has_sensor-insert a e entries)

  has_sensor-sort :
      (a : ℕ) (entries : List (Entry C)) → has_sensor a (sort entries) ≡ has_sensor a entries
  unfolding sort has_sensor
  has_sensor-sort a [] = refl
  has_sensor-sort a (e ∷ entries) =
      has_sensor-insert a e (sort entries)
      ∙ ap (λ b. if e.address == a then true else b) (has_sensor-sort a entries)

  has_sensor-snoc :
      (a : ℕ) (e : Entry C) (entries : List (Entry C))
      → has_sensor a (entries ++ e ∷ []) ≡ (if has_sensor a entries then true else e.address == a)
  unfolding has_sensor
  has_sensor-snoc a e [] = ground arith
  has_sensor-snoc a e (x ∷ entries) = ground (arith, has_sensor-snoc a e entries)

  has_sensor-erase :
      (a b : ℕ) (entries : List (Entry C))
      → IsDistinct entries
      → has_sensor a (erase_sensor b entries) ≡ (if b == a then false else has_sensor a entries)
  unfolding has_sensor erase_sensor
  has_sensor-erase a b [] d = ground arith
  has_sensor-erase a b (x ∷ entries) d = elim (Bool-cases (b == a)) [
    | inl same ↦
        let equal : b ≡ a = ground arith in ground (arith, equal, has_sensor-erase a b entries d.1)
    | inr other ↦ ground (arith, other, has_sensor-erase a b entries d.1)
  ]

  IsDistinct-snoc :
      (e : Entry C) (entries : List (Entry C))
      → has_sensor e.address entries ≡ false
      → IsDistinct entries
      → IsDistinct (entries ++ e ∷ [])
  unfolding has_sensor
  IsDistinct-snoc e [] h d = (refl, tt)
  IsDistinct-snoc e (x ∷ entries) h d =
      ground (arith, has_sensor-snoc x.address e entries, IsDistinct-snoc e entries)

  IsDistinct-erase :
      (b : ℕ) (entries : List (Entry C)) → IsDistinct entries → IsDistinct (erase_sensor b entries)
  unfolding erase_sensor
  IsDistinct-erase b [] d = tt
  IsDistinct-erase b (x ∷ entries) d =
      ground (arith, has_sensor-erase x.address b entries d.1, IsDistinct-erase b entries d.1)

  All-insert :
      (a : ℕ) (e : Entry C) (entries : List (Entry C))
      → a < e.address
      → All (λ x. a < x.address) entries
      → All (λ x. a < x.address) (insert e entries)
  unfolding insert
  All-insert a e [] h hs = (h, tt)
  All-insert a e (x ∷ entries) h hs = ground (arith, All-insert a e entries h hs.1)

  All-above :
      (a b : ℕ) (entries : List (Entry C))
      → a < b
      → All (λ x. b < x.address) entries
      → All (λ x. a < x.address) entries
  All-above a b [] h hs = tt
  All-above a b (x ∷ entries) h hs = (omega (arith, hs.0), All-above a b entries h hs.1)

  insert-IsSorted :
      (e : Entry C) (entries : List (Entry C))
      → has_sensor e.address entries ≡ false
      → IsSorted entries
      → IsSorted (insert e entries)
  unfolding insert has_sensor
  insert-IsSorted e [] h s = (tt, tt)
  insert-IsSorted e (x ∷ entries) h s = elim (Bool-cases (ltb x.address e.address)) [
    | inl below ↦
        let rest : has_sensor e.address entries ≡ false = ground (arith, below) in
        rw below
          (All-insert x.address e entries (ground arith) s.0, insert-IsSorted e entries rest s.1)
    | inr not_below ↦
        let above : e.address < x.address = ground (arith, not_below) in
        rw not_below ((above, All-above e.address x.address entries above s.0), s)
  ]

  sort-IsSorted : (entries : List (Entry C)) → IsDistinct entries → IsSorted (sort entries)
  unfolding sort
  sort-IsSorted [] d = tt
  sort-IsSorted (e ∷ entries) d =
      insert-IsSorted e (sort entries) (has_sensor-sort e.address entries ∙ d.0)
        (sort-IsSorted entries d.1)

  abbrev pub apply : Change C → Manager C → Manager C
  apply (add e) m = (add_sensor (some e) m).1
  apply (remove e) m = (remove_sensor (some e) m).1

  abbrev pub apply_all : List (Change C) → Manager C → Manager C
  apply_all [] m = m
  apply_all (c ∷ changes) m = apply_all changes (apply c m)

  -- Whether the sensor at an address is a member after a change, by whether it was one.
  abbrev pub member : ℕ → Change C → Bool → Bool
  member a (add e) before = if e.address == a then true else before
  member a (remove e) before = if e.address == a then false else before

  abbrev pub member_all : ℕ → List (Change C) → Bool → Bool
  member_all a [] before = before
  member_all a (c ∷ changes) before = member_all a changes (member a c before)

  abbrev pub Changed : Change C → Manager C → Manager C → Type 0
  Changed c m m' =
      IsSorted m'.sensor_list
      × ((a : ℕ) → has_sensor a m'.sensor_list ≡ member a c (has_sensor a m.sensor_list))

  apply-Changed : (c : Change C) (m : Manager C) → IsSorted m.sensor_list → Changed c m (apply c m)
  unfolding add_sensor remove_sensor
  apply-Changed (add e) m s = elim (Bool-cases (has_sensor e.address m.sensor_list)) [
    | inl there ↦ rw there (s, λ a. ground (arith, there))
    | inr new ↦
        let d = IsDistinct-snoc e m.sensor_list new (IsSorted-IsDistinct m.sensor_list s) in
        rw new (
          sort-IsSorted (m.sensor_list ++ e ∷ []) d,
          λ a.
              has_sensor-sort a (m.sensor_list ++ e ∷ [])
              ∙ ground (arith, has_sensor-snoc a e m.sensor_list),
        )
  ]
  apply-Changed (remove e) m s = elim (Bool-cases (has_sensor e.address m.sensor_list)) [
    | inr missing ↦ rw (missing, apply, remove_sensor) (s, λ a. ground (arith, missing))
    | inl there ↦
        let d = IsSorted-IsDistinct m.sensor_list s in
        let rest = erase_sensor e.address m.sensor_list in
        rw (there, apply, remove_sensor)
          (
            sort-IsSorted rest (IsDistinct-erase e.address m.sensor_list d),
            λ a. has_sensor-sort a rest ∙ has_sensor-erase a e.address m.sensor_list d,
          )
  ]

  -- After any row of calls of AddSensor and RemoveSensor, the list of the sensors is sorted by their
  -- addresses with none of them twice, if it was before, and a sensor is in it exactly if the last call with
  -- it added it, or, when no call was with it, if it was there before.
  pub apply_all-IsSorted :
      (changes : List (Change C)) (m : Manager C)
      → IsSorted m.sensor_list
      → IsSorted (apply_all changes m).sensor_list
        × ((a : ℕ)
            → has_sensor a (apply_all changes m).sensor_list
              ≡ member_all a changes (has_sensor a m.sensor_list))
  apply_all-IsSorted [] m s = (s, λ a. refl)
  apply_all-IsSorted (c ∷ changes) m s =
      let (s', same) = apply-Changed c m s in
      let (sorted, members) = apply_all-IsSorted changes (apply c m) s' in
      (sorted, λ a. members a ∙ ap (member_all a changes) (same a))
