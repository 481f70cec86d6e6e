-- ===== src/Tests/Sensors.antt =====
-- The sensors: devices/canbus/AgvSensor.cpp on small inputs.
use hxdl_driving_control.Prelude.{ℕ, ◌≡◌, refl, List, [], ◌∷◌, none, some, arith, replicate}
use hxdl_driving_control.Sensor.Hmi as Hmi
use hxdl_driving_control.Sensor.Hmi.Identifier.{parse_id-overflow}
use hxdl_driving_control.Sensor.Hmi.Address.{feed, flat, feed-address}

abbrev an_hmi : Hmi.Hmi
an_hmi = record { server_ip = replicate 16 0; local_ip = replicate 16 0 }

-- The identifier 1001.
parse_id-overflow_example : Hmi.parse_can_data (8 ∷ 3 ∷ 0xE9 ∷ []) 3 an_hmi ≡ none
parse_id-overflow_example = parse_id-overflow 3 0xE9 3 [] an_hmi

-- The text 10.0.0.7 and eight spaces.
abbrev ten_ip : List ℕ
ten_ip = 0x31 ∷ 0x30 ∷ 0x2E ∷ 0x30 ∷ 0x2E ∷ 0x30 ∷ 0x2E ∷ 0x37 ∷ []

abbrev parts : List (ℕ × ℕ)
parts =
    (0x31, 0x30)
    ∷ (0x2E, 0x30)
    ∷ (0x2E, 0x30)
    ∷ (0x2E, 0x37)
    ∷ (0x20, 0x20)
    ∷ (0x20, 0x20)
    ∷ (0x20, 0x20)
    ∷ (0x20, 0x20)
    ∷ []

feed-address_example :
    feed Hmi.server_ip 9 1 parts (replicate 16 0)
    ≡ some (flat parts, Hmi.save_text Hmi.server_ip ten_ip ∷ [])
feed-address_example =
    feed-address Hmi.server_ip 9 ten_ip 8 parts (replicate 16 0) (ground arith) (omega arith) refl
      refl refl
