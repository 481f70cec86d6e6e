-- ===== src/Sensor/Buttons.antt =====
-- devices/canbus/AgvSensor.cpp: CAgvButtonSensor. The two variables `flag` are static: the program makes one
-- object of the class, which has them here.
pub mod Repeat
use hxdl_driving_control.Prelude.{
  ℕ, zero, suc, ◌+◌, List, [], ◌∷◌, ◌++◌, replicate, Bool, true, false, ◌&&◌, Option, none, some,
  ltb, ◌==◌, if◌then◌else◌, drop, get_elem?, get_or, set,
}
use hxdl_driving_control.Prelude.Int.{ℤ, pos, negsuc}
use hxdl_driving_control.Wire.{◌>>=◌}
use hxdl_driving_control.Event.{
  normal, urgent, ev_urgent_stop, ev_key_start, ev_key_stop, ev_key_auto_mode, ev_key_manual_mode,
  ev_key_lift_up, ev_key_lift_down,
}
use hxdl_driving_control.Sensor.{SensorEvent, event_of, Parsed}

-- `KeyMax` keys, and their places in the array.
abbrev pub key_max : ℕ
key_max = 4

abbrev pub urgent_stop_key : ℕ
urgent_stop_key = 0

abbrev pub start_or_stop_key : ℕ
start_or_stop_key = 1

abbrev pub auto_or_manual_key : ℕ
auto_or_manual_key = 2

abbrev pub lift_up_or_down_key : ℕ
lift_up_or_down_key = 3

pub record Buttons : Type 0 where
  pub key_status : List ℕ
  pub auto_flag : ℕ
  pub lift_flag : ℤ

unfoldable pub new_buttons : Buttons
new_buttons = record { key_status = replicate 4 0; auto_flag = 0; lift_flag = negsuc 0 }

abbrev pub Reaction : Type 0
Reaction = Buttons × List SensorEvent

unfoldable pub start_or_stop : ℕ → List SensorEvent
start_or_stop key =
    if key == 1
    then event_of normal ev_key_start (pos 0) ∷ []
    else if key == 2
    then event_of urgent ev_key_stop (pos 0) ∷ []
    else []

unfoldable pub auto_or_manual : ℕ → Buttons → Reaction
auto_or_manual key s =
    if key == 1
    then (if s.auto_flag == 1
        then (s, [])
        else (record s { auto_flag = 1 }, event_of normal ev_key_auto_mode (pos 0) ∷ []))
    else if key == 2
    then (if s.auto_flag == 2
        then (s, [])
        else (record s { auto_flag = 2 }, event_of normal ev_key_manual_mode (pos 0) ∷ []))
    else (s, [])

-- An int equal to a number that is not negative.
unfoldable pub is_pos : ℕ → ℤ → Bool
is_pos n (pos m) = m == n
is_pos n (negsuc m) = false

unfoldable pub lift_up_or_down : ℕ → Buttons → Reaction
unfolding is_pos
lift_up_or_down key s =
    if key == 1
    then (if is_pos 1 s.lift_flag
        then (s, [])
        else (record s { lift_flag = pos 1 }, event_of normal ev_key_lift_up (pos 0) ∷ []))
    else if key == 2
    then (if is_pos 2 s.lift_flag
        then (s, [])
        else (record s { lift_flag = pos 2 }, event_of normal ev_key_lift_down (pos 0) ∷ []))
    else (s, [])

-- What the key at place `j` does when its byte has changed.
unfoldable pub react : ℕ → ℕ → Buttons → Reaction
react j key s =
    if j == urgent_stop_key && key == 1
    then (s, event_of urgent ev_urgent_stop (pos 0) ∷ [])
    else if j == start_or_stop_key
    then (s, start_or_stop key)
    else if j == auto_or_manual_key
    then auto_or_manual key s
    else if j == lift_up_or_down_key
    then lift_up_or_down key s
    else (s, [])

unfoldable pub see_key : ℕ → ℕ → Buttons → Reaction
see_key j key s =
    if key == get_or s.key_status j 0
    then (s, [])
    else let (s', events) = react j key s in
      (record s' { key_status = set s'.key_status j key }, events)

-- The loop over the keys: the rounds left, the place and the bytes left.
unfoldable pub see_keys : ℕ → ℕ → List ℕ → Buttons → Option (Buttons × List SensorEvent)
see_keys zero j buf s = some (s, [])
see_keys (suc r) j [] s = none
see_keys (suc r) j (key ∷ buf) s =
    let (s', events) = see_key j key s in
    see_keys r (j + 1) buf s' >>= λ (s'', more). some (s'', events ++ more)

unfoldable pub parse_can_data : List ℕ → ℕ → Buttons → Parsed Buttons
parse_can_data buf len s = get_elem? buf 0 >>= λ c.
    if c == 0x01
    then (if ltb len (key_max + 1)
        then some (negsuc 0, s, [])
        else (see_keys key_max 0 (drop 1 buf) s >>= λ (s', events). some (pos 5, s', events)))
    else some (pos 0, s, [])
