-- ===== src/Sensor/Lifter.antt =====
-- devices/canbus/AgvSensor.cpp: CAgvLifter. What is printed, and the counter for it, is left out.
pub mod Repeat
use hxdl_driving_control.Prelude.{
  ℕ, suc, ◌+◌, ◌-◌, List, [], ◌∷◌, ◌++◌, Bool, true, false, ◌&&◌, some, ltb, ◌==◌, if◌then◌else◌,
  drop, get_elem?,
}
use hxdl_driving_control.Prelude.Int.{ℤ, pos, negsuc}
use hxdl_driving_control.Wire.{◌>>=◌, buffer2bin, bin2buffer, byte_of, unsigned_of}
use hxdl_driving_control.Event.{normal, ev_lift_arrived, ev_lift_at_bottom, ev_lifter_init}
use hxdl_driving_control.Can.Sending.{CanFrame, SystemWrite}
use hxdl_driving_control.Sensor.{CanSensor, Sent, send_data, SensorEvent, event_of, Parsed}

pub data LiftStatus : Type 0 where
  un_known moving at_bottom at_top : LiftStatus

-- The height comes from two bytes, so it is not negative.
pub record Lifter : Type 0 where
  pub lift_status : LiftStatus
  pub current_height : ℕ
  pub target_height : ℤ

unfoldable pub new_lifter : Lifter
new_lifter = record { lift_status = un_known; current_height = 0; target_height = negsuc 0 }

unfoldable pub set_target_height : ℤ → Lifter → Lifter
set_target_height height l = record l { target_height = height }

unfoldable pub set_lift_up : SystemWrite → ℤ → ℤ → CanSensor → List CanFrame → Sent
set_lift_up fails speed height =
    send_data fails (0x11 ∷ byte_of speed ∷ bin2buffer (unsigned_of height) 2)

unfoldable pub set_lift_down : SystemWrite → ℤ → ℤ → CanSensor → List CanFrame → Sent
set_lift_down fails speed height =
    send_data fails (0x12 ∷ byte_of speed ∷ bin2buffer (unsigned_of height) 2)

unfoldable pub stop_lift : SystemWrite → CanSensor → List CanFrame → Sent
stop_lift fails = send_data fails (0x13 ∷ [])

unfoldable pub init_lift : SystemWrite → CanSensor → List CanFrame → Sent
init_lift fails = send_data fails (0x17 ∷ [])

-- `abs(height - currentHeight) < 50`.
unfoldable pub is_near : ℤ → ℕ → Bool
is_near (pos h) current = ltb ((h - current) + (current - h)) 50
is_near (negsuc h) current = ltb (suc h + current) 50

-- The height above which the lifter counts as being at the bottom is forgotten here.
unfoldable pub lift_is_arrived : ℤ → Lifter → Bool × Lifter
unfolding is_near
lift_is_arrived height l =
    let current = if ltb 60000 l.current_height then 0 else l.current_height in
    (is_near height current, record l { current_height = current })

unfoldable pub lift_is_at_top : Lifter → Bool
lift_is_at_top l = elim l.lift_status [ at_top ↦ true | _ ↦ false ]

unfoldable pub lift_is_at_bottom : Lifter → Bool
lift_is_at_bottom l = elim l.lift_status [ at_bottom ↦ true | _ ↦ false ]

-- The test of a new height against a target that has been set.
unfoldable pub check_target : ℤ → Lifter → Lifter × List SensorEvent
check_target (negsuc n) l = (l, [])
check_target (pos n) l =
    let (arrived, l') = lift_is_arrived (pos n) l in
    (l', if arrived then event_of normal ev_lift_arrived (pos n) ∷ [] else [])

unfoldable pub note_height : ℕ → Lifter → Lifter × List SensorEvent
note_height height l =
    if height == l.current_height
    then (l, [])
    else check_target l.target_height (record l { current_height = height })

-- The status byte: 1 is AtBottom, 2 is AtTop.
unfoldable pub note_status : ℕ → Lifter → Lifter × List SensorEvent
note_status status l =
    if status == 1
    then (if lift_is_at_bottom l then (l, []) else (
      record l { lift_status = at_bottom },
      event_of normal ev_lift_at_bottom l.target_height ∷ [],
    ))
    else if status == 2
    then (if lift_is_at_top l then (l, []) else (
      record l { lift_status = at_top },
      event_of normal ev_lift_arrived l.target_height ∷ [],
    ))
    else (record l { lift_status = moving }, [])

unfoldable pub parse_can_data : List ℕ → ℕ → Lifter → Parsed Lifter
parse_can_data buf len l = get_elem? buf 0 >>= λ c.
    if c == 0x01
    then (if ltb len 5
        then some (negsuc 0, l, [])
        else (buffer2bin (drop 1 buf) 2 >>= λ height. get_elem? buf 3 >>= λ status.
            let (l1, events) = note_height height l in
            let (l2, more) = note_status status l1 in some (pos 4, l2, events ++ more)))
    else if c == 0x02
    then some (pos 1, l, event_of normal ev_lifter_init (pos 0) ∷ [])
    else some (pos 0, l, [])
