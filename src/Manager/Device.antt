-- ===== src/Manager/Device.antt =====
-- devices/canbus/AgvSensor.cpp: ParseCanData of the classes of sensors that read nothing but their members
-- and the frame, as the manager calls it; a class without its own has the base class's, and is `plain`. The
-- display (Sensor.Hmi), the lidar and the power sensor, which the program's manager has too, are not here.
use hxdl_driving_control.Prelude.{ℕ, List, [], some, ◌==◌, if◌then◌else◌}
use hxdl_driving_control.Prelude.Int.{pos, negsuc}
use hxdl_driving_control.Wire.{◌>>=◌}
use hxdl_driving_control.Sensor.{Parsed}
use hxdl_driving_control.Sensor.Drive as Drive
use hxdl_driving_control.Sensor.Lifter as Lifter
use hxdl_driving_control.Sensor.Buttons as Buttons
use hxdl_driving_control.Sensor.Barrier as Barrier
use hxdl_driving_control.Sensor.Panel as Panel

pub data Device : Type 0 where
  drive : Drive.Drive → Device
  lifter : Lifter.Lifter → Device
  barrier : Barrier.Barrier → Device
  buttons : Buttons.Buttons → Device
  cargo : Panel.Cargo → Device
  rfid_reader : Panel.RfidReader → Device
  mag_sensor : Panel.MagSensor → Device
  mag_nail : Panel.MagNailSensor → Device
  plain : Device

-- CAgvCanSensor::ParseCanData.
unfoldable pub parse_plain : ℕ → Device → Parsed Device
parse_plain len d = if len == 0 then some (negsuc 0, d, []) else some (pos 0, d, [])

-- The members go back into the device.
unfoldable pub within : {C : Type 0} → (C → Device) → Parsed C → Parsed Device
within f o = o >>= λ (ret, own, events). some (ret, f own, events)

unfoldable pub parse_device : List ℕ → ℕ → Device → Parsed Device
unfolding within parse_plain
parse_device buf len (drive d) = within drive (Drive.parse_can_data buf len d)
parse_device buf len (lifter d) = within lifter (Lifter.parse_can_data buf len d)
parse_device buf len (barrier d) = within barrier (Barrier.parse_can_data buf len d)
parse_device buf len (buttons d) = within buttons (Buttons.parse_can_data buf len d)
parse_device buf len (cargo d) = within cargo (Panel.parse_cargo buf len d)
parse_device buf len (rfid_reader d) = within rfid_reader (Panel.parse_card buf len d)
parse_device buf len (mag_sensor d) = within mag_sensor (Panel.parse_mag buf len d)
parse_device buf len (mag_nail d) = within mag_nail (Panel.parse_nail buf len d)
parse_device buf len plain = parse_plain len plain
