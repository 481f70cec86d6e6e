-- ===== src/Manager.antt =====
-- devices/canbus/AgvSensorManager.cpp: the list of the sensors on the CAN bus, which passes the bus's data
-- on to them and watches which of them are online. `C` are the members of the sensors' classes.
pub mod Sorted
pub mod Silence
pub mod Online
pub mod Device
pub mod Total
pub mod Filtered
pub mod Bus
use hxdl_driving_control.Prelude.{
  ℕ, suc, ◌+◌, List, [], ◌∷◌, ◌++◌, map, Bool, true, false, ◌||◌, Option, none, some, ltb, leb,
  ◌==◌, if◌then◌else◌, length,
}
use hxdl_driving_control.Prelude.Int.{ℤ, pos, negsuc}
use hxdl_driving_control.Wire.{◌>>=◌}
use hxdl_driving_control.Event.{
  Event, EventHelper, same_event, register_listener, deregister_listener, urgent, ev_100ms_timer,
  ev_sensor_offline, ev_sensor_online,
}
use hxdl_driving_control.Can.{
  CanFilter, CanOperator, add_can_filter, add_can_listener, can_eff_mask, es0_canid,
}
use hxdl_driving_control.Can.Sending.{CanFrame, SystemWrite}
use hxdl_driving_control.Sensor.{
  CanSensor, Sensor, Sent, SensorEvent, event_of, Parsed, init, send_data, parse_data,
}

-- A sensor and its address, by which the list is sorted.
pub record Entry (C : Type 0) : Type 0 where
  pub address : ℕ
  pub sensor : Sensor C

-- `lase_sensor_num` is static: the program makes one manager.
pub record Manager (C : Type 0) : Type 0 where
  pub sensor_list : List (Entry C)
  pub filters : List CanFilter
  pub has_operator : Bool
  pub lase_sensor_num : ℕ

unfoldable pub has_filter : ℕ → List CanFilter → Bool
has_filter can_id [] = false
has_filter can_id (f ∷ filters) = if f.can_id == can_id then true else has_filter can_id filters

unfoldable pub add_filter : ℕ → List CanFilter → List CanFilter
add_filter can_id filters =
    if ltb 0 can_id
    then (if has_filter can_id filters
        then filters
        else filters ++ record { can_id = can_id; can_mask = can_eff_mask } ∷ [])
    else filters

-- The first filter of the identifier is erased.
unfoldable pub erase_filter : ℕ → List CanFilter → List CanFilter
erase_filter can_id [] = []
erase_filter can_id (f ∷ filters) =
    let rest = erase_filter can_id filters in if f.can_id == can_id then filters else f ∷ rest

-- Close is the base class's, which does nothing.
unfoldable pub close_all_sensors : {D : Type 0} → ℕ → EventHelper D → EventHelper D
close_all_sensors this h = deregister_listener this h

-- A timer's tick: 50 of them without data, and the sensor is offline.
unfoldable pub age : CanSensor → CanSensor
age s =
    if leb 50 (s.heart_beat_counter + 1)
    then record s { heart_beat_counter = 0; is_alive = false }
    else record s { heart_beat_counter = s.heart_beat_counter + 1 }

unfoldable pub tell : ℕ → ℕ → List SensorEvent
tell num size =
    if num == size
    then event_of urgent ev_sensor_online (pos 0) ∷ []
    else event_of urgent ev_sensor_offline (pos 0) ∷ []

-- `canId == sensor->rCanId || canId == ES0_CANID`.
unfoldable pub is_for : ℕ → ℕ → Bool
is_for can_id r_can_id = can_id == r_can_id || can_id == es0_canid

module _ {C : Type 0} where
  unfoldable pub new_manager : Bool → Manager C
  new_manager op = record { sensor_list = []; filters = []; has_operator = op; lase_sensor_num = 0 }

  unfoldable pub set_can_operator : Bool → Manager C → Manager C
  set_can_operator op m = record m { has_operator = op }

  unfoldable pub has_sensor : ℕ → List (Entry C) → Bool
  has_sensor a [] = false
  has_sensor a (e ∷ entries) = if e.address == a then true else has_sensor a entries

  -- `std::sort` of the pointers.
  unfoldable pub insert : Entry C → List (Entry C) → List (Entry C)
  insert e [] = e ∷ []
  insert e (x ∷ entries) =
      let rest = insert e entries in if ltb x.address e.address then x ∷ rest else e ∷ x ∷ entries

  unfoldable pub sort : List (Entry C) → List (Entry C)
  sort [] = []
  sort (e ∷ entries) = insert e (sort entries)

  unfoldable pub add_sensor : Option (Entry C) → Manager C → Bool × Manager C
  add_sensor none m = (false, m)
  add_sensor (some e) m =
      let entries =
        if has_sensor e.address m.sensor_list
        then m.sensor_list
        else sort (m.sensor_list ++ e ∷ []) in
      let can_id = e.sensor.can.r_can_id in
      (true, record m { sensor_list = entries; filters = add_filter can_id m.filters })

  unfoldable pub erase_sensor : ℕ → List (Entry C) → List (Entry C)
  erase_sensor a [] = []
  erase_sensor a (e ∷ entries) =
      let rest = erase_sensor a entries in if e.address == a then entries else e ∷ rest

  unfoldable pub remove_sensor : Option (Entry C) → Manager C → Bool × Manager C
  remove_sensor none m = (false, m)
  remove_sensor (some e) m =
      let can_id = e.sensor.can.r_can_id in
      let filters = if ltb 0 can_id then erase_filter can_id m.filters else m.filters in
      if has_sensor e.address m.sensor_list
      then (
        true,
        record m { sensor_list = sort (erase_sensor e.address m.sensor_list); filters = filters },
      )
      else (false, record m { filters = filters })

  -- The loop of InitAllSensors. What AddCanFilter returns is not looked at.
  unfoldable pub init_sensors : List (Entry C) → CanOperator → List (Entry C) × CanOperator
  init_sensors [] op = ([], op)
  init_sensors (e ∷ entries) op =
      let op1 = (add_can_filter e.sensor.can.r_can_id can_eff_mask op).1 in
      let (rest, op2) = init_sensors entries op1 in
      (record e { sensor = record e.sensor { can = init true e.sensor.can } } ∷ rest, op2)

  -- `this` is the manager's own address.
  unfoldable pub init_all_sensors :
      {D : Type 0}
      → ℕ
      → Manager C
      → CanOperator
      → EventHelper D
      → ℤ × Manager C × CanOperator × EventHelper D
  init_all_sensors this m op h =
      if m.has_operator
      then (let (entries, op1) = init_sensors m.sensor_list op in
          (
            pos 0,
            record m { sensor_list = entries },
            (add_can_listener (some this) op1).1,
            (register_listener (some this) h).1,
          ))
      else (negsuc 0, m, op, h)

  unfoldable pub beat_all : SystemWrite → List (Entry C) → List CanFrame → List CanFrame
  beat_all fails [] frames = frames
  beat_all fails (e ∷ entries) frames =
      beat_all fails entries (send_data fails (0xFF ∷ 0xFF ∷ []) e.sensor.can frames).1

  unfoldable pub send_heart_beat : SystemWrite → Manager C → List CanFrame → Sent
  send_heart_beat fails m frames =
      if m.has_operator then (pos 0, beat_all fails m.sensor_list frames) else (negsuc 0, frames)

  unfoldable pub age_entry : Entry C → Entry C
  unfolding age
  age_entry e = record e { sensor = record e.sensor { can = age e.sensor.can } }

  unfoldable pub count_alive : List (Entry C) → ℕ
  count_alive [] = 0
  count_alive (e ∷ entries) =
      if e.sensor.can.is_alive then suc (count_alive entries) else count_alive entries

  -- HandleEvent, which returns false. The events sent.
  unfoldable pub handle_event : {D : Type 0} → Event D → Manager C → Manager C × List SensorEvent
  handle_event evt m =
      if same_event ev_100ms_timer evt
      then (let entries = map age_entry m.sensor_list in
          let num = count_alive entries in
          if m.lase_sensor_num == num then (record m { sensor_list = entries }, []) else (
            record m { sensor_list = entries; lase_sensor_num = num },
            tell num (length entries),
          ))
      else (m, [])

  module _ (parse : List ℕ → ℕ → C → Parsed C) where
    unfoldable pub handle_entry : ℕ → List ℕ → ℕ → Entry C → Option (Entry C × List SensorEvent)
    handle_entry can_id buf len e =
        if is_for can_id e.sensor.can.r_can_id
        then (parse_data parse buf len e.sensor >>= λ (ret, s, events).
            some (record e { sensor = s }, events))
        else some (e, [])

    unfoldable pub handle_entries :
        ℕ → List ℕ → ℕ → List (Entry C) → Option (List (Entry C) × List SensorEvent)
    handle_entries can_id buf len [] = some ([], [])
    handle_entries can_id buf len (e ∷ entries) = handle_entry can_id buf len e >>= λ (e', events).
        handle_entries can_id buf len entries >>= λ (rest, more). some (e' ∷ rest, events ++ more)

    -- HandlerData, which returns 0; ParseCanData is `parse`.
    unfoldable pub handler_data : ℕ → List ℕ → ℕ → Manager C → Option (Manager C × List SensorEvent)
    handler_data can_id buf len m =
        handle_entries can_id buf len m.sensor_list >>= λ (entries, events).
        some (record m { sensor_list = entries }, events)
