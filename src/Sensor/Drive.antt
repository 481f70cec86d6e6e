-- ===== src/Sensor/Drive.antt =====
-- devices/canbus/AgvSensor.cpp: CAgvControler, the drive. SetAngle, which compares and scales floats, is
-- left out, and so is what the drive's singleton does.
use hxdl_driving_control.Prelude.{
  ℕ, List, [], ◌∷◌, Bool, true, false, ◌||◌, some, ltb, ◌==◌, if◌then◌else◌, drop, get_elem?,
}
use hxdl_driving_control.Prelude.Int.{ℤ, pos, negsuc, ltb_ℤ}
use hxdl_driving_control.Wire.{◌>>=◌, buffer2bin, bin2buffer, byte_of, short_from, unsigned_of}
use hxdl_driving_control.Can.Sending.{CanFrame, SystemWrite}
use hxdl_driving_control.Sensor.{CanSensor, Sent, send_data, Parsed}

-- `angle` is in hundredths, the short that the float is computed from.
pub record Drive : Type 0 where
  pub direction : ℕ
  pub speed : ℤ
  pub angle : ℤ
  pub distance : ℕ
  pub run_error_code : ℕ
  pub turn_error_code : ℕ

unfoldable pub new_drive : Drive
new_drive = record {
  direction = 0;
  speed = pos 0;
  angle = pos 0;
  distance = 0;
  run_error_code = 0;
  turn_error_code = 0;
}

abbrev pub bool_byte : Bool → ℕ
bool_byte true = 1
bool_byte false = 0

unfoldable pub set_enable : SystemWrite → Bool → CanSensor → List CanFrame → Sent
set_enable fails enable = send_data fails (0x11 ∷ bool_byte enable ∷ [])

unfoldable pub set_direction : SystemWrite → ℤ → CanSensor → List CanFrame → Sent
set_direction fails direct = send_data fails (0x12 ∷ byte_of direct ∷ [])

-- The speed that was reported last is not sent.
unfoldable pub set_speed : SystemWrite → ℤ → Drive → CanSensor → List CanFrame → Sent
set_speed fails speed d s frames =
    if ltb_ℤ d.speed speed || ltb_ℤ speed d.speed
    then send_data fails (0x14 ∷ bin2buffer (unsigned_of speed) 2) s frames
    else (pos 0, frames)

unfoldable pub set_break : SystemWrite → Bool → CanSensor → List CanFrame → Sent
set_break fails enable = send_data fails (0x15 ∷ bool_byte enable ∷ [])

unfoldable pub reset_distance : SystemWrite → CanSensor → List CanFrame → Sent
reset_distance fails = send_data fails (0x16 ∷ [])

unfoldable pub is_have_error : Drive → Bool
is_have_error d = ltb 0 d.run_error_code || ltb 0 d.turn_error_code

-- A report of two bytes has a third one read.
unfoldable pub parse_can_data : List ℕ → ℕ → Drive → Parsed Drive
parse_can_data buf len d = get_elem? buf 0 >>= λ c.
    if c == 0x01
    then (if ltb len 8
        then some (negsuc 0, d, [])
        else (buffer2bin (drop 1 buf) 1 >>= λ direction. buffer2bin (drop 2 buf) 2 >>= λ angle.
            buffer2bin (drop 4 buf) 2 >>= λ speed. buffer2bin (drop 6 buf) 2 >>= λ distance. some (
              pos 8,
              record d {
                direction = direction;
                angle = short_from angle;
                speed = pos speed;
                distance = distance;
              },
              [],
            )))
    else if c == 0x02
    then (if ltb len 2
        then some (negsuc 0, d, [])
        else (get_elem? buf 1 >>= λ run. get_elem? buf 2 >>= λ turn.
            some (pos 3, record d { run_error_code = run; turn_error_code = turn }, [])))
    else some (pos 0, d, [])
