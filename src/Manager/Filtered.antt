-- ===== src/Manager/Filtered.antt =====
-- devices/canbus/AgvSensorManager.cpp: InitAllSensors and the filters of the CAN bus.
use hxdl_driving_control.Prelude.{
  ℕ, ◌+◌, ◌≤◌, ◌≡◌, refl, ap, ◌∙◌, inl, inr, List, [], ◌∷◌, ◌++◌, suc, true, false, some, arith,
  All, ◌==◌, if◌then◌else◌, length,
}
use hxdl_driving_control.Prelude.Int.{pos}
use hxdl_driving_control.Event.{EventHelper, register_listener}
use hxdl_driving_control.Can.{
  CanOperator, add_can_filter, add_can_listener, has_can_listener, can_eff_mask,
}
use hxdl_driving_control.Can.Filters.{mask_of, add_can_filter-Adds, add_can_filter-length}
use hxdl_driving_control.Sensor.{init}
use hxdl_driving_control.Manager.{Entry, Manager, init_sensors, init_all_sensors}

-- A table with room sets the mask.
added :
    (can_id : ℕ) (op : CanOperator)
    → length op.filter ≤ 30
    → (k : ℕ)
    → mask_of k (add_can_filter can_id can_eff_mask op).1.filter
      ≡ (if can_id == k then some can_eff_mask else mask_of k op.filter)
added can_id op room k =
    let (size, result) = add_can_filter-Adds can_id can_eff_mask op (omega arith) in
    elim result [
      | inl (ok, same) ↦ same k
      | inr (bad, kept, full, absent) ↦ absurd (omega (arith, full))
    ]

add_can_listener-filter :
    (l : ℕ) (op : CanOperator) → (add_can_listener (some l) op).1.filter ≡ op.filter
unfolding add_can_listener
add_can_listener-filter l op = ground arith

has_can_listener-snoc : (l : ℕ) (xs : List ℕ) → has_can_listener l (xs ++ l ∷ []) ≡ true
unfolding has_can_listener
has_can_listener-snoc l [] = ground arith
has_can_listener-snoc l (x ∷ xs) = ground (arith, has_can_listener-snoc l xs)

add_can_listener-has :
    (l : ℕ) (op : CanOperator)
    → has_can_listener l (add_can_listener (some l) op).1.listener_list ≡ true
unfolding add_can_listener
add_can_listener-has l op = ground (arith, has_can_listener-snoc l op.listener_list)

module _ {C : Type 0} where
  -- The sensor's data passes the filters, and the sensor is as after its Init.
  abbrev pub IsStarted : CanOperator → Entry C → Type 0
  IsStarted op e =
      (mask_of e.sensor.can.r_can_id op.filter ≡ some can_eff_mask)
      × (e.sensor.can.is_alive ≡ false)
      × (e.sensor.can.heart_beat_counter ≡ 0)
      × (e.sensor.can.has_operator ≡ true)

  init_sensors-kept :
      (entries : List (Entry C)) (op : CanOperator) (k : ℕ)
      → length op.filter + length entries ≤ 31
      → mask_of k op.filter ≡ some can_eff_mask
      → mask_of k (init_sensors entries op).1.filter ≡ some can_eff_mask
  unfolding init_sensors
  init_sensors-kept [] op k room h = h
  init_sensors-kept (e ∷ entries) op k room h =
      let can_id = e.sensor.can.r_can_id in
      let op1 = (add_can_filter can_id can_eff_mask op).1 in
      let grown = add_can_filter-length can_id can_eff_mask op in
      init_sensors-kept entries op1 k (omega (arith, grown))
        (added can_id op (omega arith) k ∙ ground (arith, h))

  init_sensors-length :
      (entries : List (Entry C)) (op : CanOperator)
      → length (init_sensors entries op).0 ≡ length entries
  unfolding init_sensors
  init_sensors-length [] op = refl
  init_sensors-length (e ∷ entries) op =
      ap suc (init_sensors-length entries (add_can_filter e.sensor.can.r_can_id can_eff_mask op).1)

  add_can_listener-IsStarted :
      (l : ℕ) (op : CanOperator) (entries : List (Entry C))
      → All (IsStarted op) entries
      → All (IsStarted (add_can_listener (some l) op).1) entries
  add_can_listener-IsStarted l op [] h = tt
  add_can_listener-IsStarted l op (e ∷ entries) h = (
    (
      ap (mask_of e.sensor.can.r_can_id) (add_can_listener-filter l op) ∙ h.0.0,
      h.0.1,
      h.0.2,
      h.0.3,
    ),
    add_can_listener-IsStarted l op entries h.1,
  )

  init_sensors-IsStarted :
      (entries : List (Entry C)) (op : CanOperator)
      → length op.filter + length entries ≤ 31
      → All (IsStarted (init_sensors entries op).1) (init_sensors entries op).0
  unfolding init_sensors init
  init_sensors-IsStarted [] op room = tt
  init_sensors-IsStarted (e ∷ entries) op room =
      let can_id = e.sensor.can.r_can_id in
      let op1 = (add_can_filter can_id can_eff_mask op).1 in
      let grown = add_can_filter-length can_id can_eff_mask op in
      let here : mask_of can_id op1.filter ≡ some can_eff_mask =
        added can_id op (omega arith) can_id ∙ ground arith in
      (
        (init_sensors-kept entries op1 can_id (omega (arith, grown)) here, refl, refl, refl),
        init_sensors-IsStarted entries op1 (omega (arith, grown)),
      )

  -- InitAllSensors of a manager with an operator returns 0 and, when the operator's table has room for its
  -- sensors, leaves every one of them as Init does, with its identifier passing the filters; the
  -- manager is then a listener of the bus.
  pub init_all_sensors-IsStarted :
      {D : Type 0} (this : ℕ) (m : Manager C) (op : CanOperator) (h : EventHelper D)
      → m.has_operator ≡ true
      → length op.filter + length m.sensor_list ≤ 31
      → (m' : Manager C) × (op' : CanOperator) × (h' : EventHelper D) × (init_all_sensors this m op
            h
          ≡ (pos 0, m', op', h'))
        × (length m'.sensor_list ≡ length m.sensor_list)
        × All (IsStarted op') m'.sensor_list
        × (has_can_listener this op'.listener_list ≡ true)
  unfolding init_all_sensors
  init_all_sensors-IsStarted this m op h there room =
      let (entries, op1) = init_sensors m.sensor_list op in
      (
        record m { sensor_list = entries },
        (add_can_listener (some this) op1).1,
        (register_listener (some this) h).1,
        rw there,
        init_sensors-length m.sensor_list op,
        add_can_listener-IsStarted this op1 entries (init_sensors-IsStarted m.sensor_list op room),
        add_can_listener-has this op1,
      )
