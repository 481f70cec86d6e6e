-- ===== src/Sensor.antt =====
-- devices/canbus/AgvSensor.h and AgvSensor.cpp: CAgvCanSensor, the part that every sensor on the CAN bus has.
-- A sensor's name, for the log, is left out, and a NULL buffer: HandlerData passes its array on.
pub mod Drive
pub mod Lifter
pub mod Buttons
pub mod Barrier
pub mod Panel
pub mod Hmi
use hxdl_driving_control.Prelude.{
  ℕ, List, [], ◌∷◌, Bool, true, false, ◌&&◌, Option, none, some, ◌==◌, if◌then◌else◌, get_elem?,
}
use hxdl_driving_control.Prelude.Int.{ℤ, pos, negsuc}
use hxdl_driving_control.Wire.{◌>>=◌, int_of}
use hxdl_driving_control.Event.{Event, EventList}
use hxdl_driving_control.Can.Sending.{CanFrame, SystemWrite}
use hxdl_driving_control.Can.Sending as Sending

-- The members of the base class. `canOperator` is only compared with NULL here.
pub record CanSensor : Type 0 where
  pub r_can_id : ℕ
  pub w_can_id : ℕ
  pub module_id : ℤ
  pub heart_beat_counter : ℕ
  pub is_alive : Bool
  pub has_operator : Bool

unfoldable pub new_sensor : ℕ → ℕ → ℤ → CanSensor
new_sensor rid wid module_id = record {
  r_can_id = rid;
  w_can_id = wid;
  module_id = module_id;
  heart_beat_counter = 0;
  is_alive = false;
  has_operator = false;
}

-- `op` is whether the operator is there.
unfoldable pub init : Bool → CanSensor → CanSensor
init op s = record s { heart_beat_counter = 0; has_operator = op; is_alive = false }

-- The answer, and the frames written so far.
abbrev pub Sent : Type 0
Sent = ℤ × List CanFrame

unfoldable pub send_can_data : SystemWrite → ℤ → List ℕ → CanSensor → List CanFrame → Sent
unfolding Sending.is_no_id
send_can_data fails can_id bytes s frames =
    if s.has_operator
    then (if Sending.is_no_id can_id
        then (negsuc 0, frames)
        else Sending.send_data fails can_id bytes frames)
    else (negsuc 0, frames)

unfoldable pub send_data : SystemWrite → List ℕ → CanSensor → List CanFrame → Sent
send_data fails bytes s frames = send_can_data fails (int_of s.w_can_id) bytes s frames

-- An event of a sensor; those modelled here carry no data.
abbrev pub SensorEvent : Type 0
SensorEvent = Event (Unit {0})

abbrev pub event_of : ℤ → EventList → ℤ → SensorEvent
event_of priority event param = record {
  event = event;
  param = param;
  priority = priority;
  payload = none;
}

-- The number returned, the members of the class `C` and the events sent, oldest first; `none` is a read
-- outside of the array.
abbrev pub Parsed : Type 0 → Type 0
Parsed C = Option (ℤ × C × List SensorEvent)

-- A sensor: the base class, and what the class `C` adds.
pub record Sensor (C : Type 0) : Type 0 where
  pub can : CanSensor
  pub own : C

-- `buf[0] == 0xFF && buf[1] == 0xFF`.
unfoldable pub is_heart_beat : List ℕ → Option Bool
is_heart_beat buf = get_elem? buf 0 >>= λ a. get_elem? buf 1 >>= λ b. some (a == 0xFF && b == 0xFF)

abbrev pub heard : CanSensor → CanSensor
heard s = record s { heart_beat_counter = 0; is_alive = true }

module _ {C : Type 0} where
  -- `parse` is the virtual function ParseCanData.
  unfoldable pub parse_data :
      (List ℕ → ℕ → C → Parsed C) → List ℕ → ℕ → Sensor C → Parsed (Sensor C)
  parse_data parse buf len s =
      if len == 0
      then some (negsuc 0, s, [])
      else let rest = parse buf len s.own >>= λ (ret, own, events).
          some (ret, record { can = heard s.can; own = own }, events) in
        if len == 2
        then (is_heart_beat buf >>= λ beat.
            if beat then some (pos 0, record s { can = heard s.can }, []) else rest)
        else rest
