-- ===== src/Sensor/Panel.antt =====
-- devices/canbus/AgvSensor.cpp: the cargo sensor, the lights, the card reader, the voice player, the
-- magnetic sensors and the commands of the power sensor. Left out: the magnetic sensor's mode with details
-- and the power sensor's capacity, which compute with floats, and the sleep switch, which is a shell command.
use hxdl_driving_control.Prelude.{
  ℕ, List, [], ◌∷◌, Bool, ◌||◌, some, ltb, ◌==◌, if◌then◌else◌, drop, get_elem?,
}
use hxdl_driving_control.Prelude.Int.{ℤ, pos, negsuc}
use hxdl_driving_control.Wire.{◌>>=◌, buffer2bin, byte_of, int_of}
use hxdl_driving_control.Can.Sending.{CanFrame, SystemWrite}
use hxdl_driving_control.Sensor.{CanSensor, Sent, send_data, Parsed}

-- CAgvCargoSensor.
pub record Cargo : Type 0 where
  pub is_have_cargo : Bool

unfoldable pub parse_cargo : List ℕ → ℕ → Cargo → Parsed Cargo
parse_cargo buf len s = get_elem? buf 0 >>= λ c.
    if c == 0x01
    then (if ltb len 3
        then some (negsuc 0, s, [])
        else (get_elem? buf 1 >>= λ a. get_elem? buf 2 >>= λ b.
            some (pos 3, record s { is_have_cargo = ltb 0 a || ltb 0 b }, [])))
    else some (pos 0, s, [])

-- CAgvRgbLight.
unfoldable pub set_light : SystemWrite → ℤ → ℤ → ℤ → ℤ → CanSensor → List CanFrame → Sent
set_light fails side red green blue =
    send_data fails (0x11 ∷ byte_of side ∷ byte_of red ∷ byte_of green ∷ byte_of blue ∷ [])

-- CAgvRfidReader.
pub record RfidReader : Type 0 where
  pub card_type : ℕ
  pub card_number : ℕ

unfoldable pub parse_card : List ℕ → ℕ → RfidReader → Parsed RfidReader
parse_card buf len s = get_elem? buf 0 >>= λ c.
    if c == 0x01
    then (if ltb len 4
        then some (negsuc 0, s, [])
        else (get_elem? buf 1 >>= λ type. buffer2bin (drop 2 buf) 2 >>= λ number.
            some (pos 4, record s { card_type = type; card_number = number }, [])))
    else some (pos 0, s, [])

-- CAgvVoicePlayer.
unfoldable pub set_volume : SystemWrite → ℤ → CanSensor → List CanFrame → Sent
set_volume fails volume = send_data fails (0x11 ∷ byte_of volume ∷ [])

unfoldable pub play_voice : SystemWrite → ℤ → ℤ → CanSensor → List CanFrame → Sent
play_voice fails id times = send_data fails (0x12 ∷ byte_of id ∷ byte_of times ∷ [])

-- CAgvMagSensor, in the modes that report one value. A frame of four bytes has five read.
pub data MagMode : Type 0 where
  normal_bit double_width : MagMode

pub record MagSensor : Type 0 where
  pub mode : MagMode
  pub mag_value : ℤ

unfoldable pub set_mag_shreshold : SystemWrite → ℤ → CanSensor → List CanFrame → Sent
set_mag_shreshold fails value = send_data fails (0x11 ∷ [])

unfoldable pub parse_mag : List ℕ → ℕ → MagSensor → Parsed MagSensor
parse_mag buf len s = elim s.mode [
  | normal_bit ↦
      if len == 2
      then (buffer2bin (drop 1 buf) 2 >>= λ v. some (pos 3, record s { mag_value = int_of v }, []))
      else some (pos 1, s, [])
  | double_width ↦
      if len == 4
      then (buffer2bin (drop 1 buf) 4 >>= λ v. some (pos 5, record s { mag_value = int_of v }, []))
      else some (pos 1, s, [])
]

-- CAgvMagNailSensor. The angle is in hundredths, the number that the float is computed from.
pub record MagNailSensor : Type 0 where
  pub nail_angle : ℕ

unfoldable pub get_last_nail_angle : SystemWrite → CanSensor → List CanFrame → Sent
get_last_nail_angle fails = send_data fails (0x02 ∷ [])

unfoldable pub parse_nail : List ℕ → ℕ → MagNailSensor → Parsed MagNailSensor
parse_nail buf len s = get_elem? buf 0 >>= λ c.
    if c == 0x24
    then (if ltb len 5
        then some (negsuc 0, s, [])
        else (buffer2bin (drop 1 buf) 2 >>= λ angle.
            some (pos 3, record s { nail_angle = angle }, [])))
    else some (pos 0, s, [])

-- CAgvPowerSensor. A type that is neither leaves the limits as they are.
pub record Power : Type 0 where
  pub battery_type : ℤ
  pub min_voltage : ℤ
  pub max_voltage : ℤ

unfoldable pub set_battery_type : ℤ → Power → Power
set_battery_type (negsuc n) p = record p { battery_type = negsuc n }
set_battery_type (pos n) p =
    let p' = record p { battery_type = pos n } in
    if n == 1
    then record p' { min_voltage = pos 22000; max_voltage = pos 26000 }
    else if n == 2
    then record p' { min_voltage = pos 23000; max_voltage = pos 29000 }
    else p'

unfoldable pub set_charge_switch : SystemWrite → Bool → CanSensor → List CanFrame → Sent
set_charge_switch fails enable s frames =
    let code = if enable then 0x01 else 0x00 in
    (pos 0, (send_data fails (0x11 ∷ code ∷ []) s frames).1)
