-- ===== src/Tests/Managing.antt =====
-- The manager of the sensors: devices/canbus/AgvSensorManager.cpp on small inputs.
use hxdl_driving_control.Prelude.{
  ℕ, ◌+◌, ◌≡◌, refl, List, [], ◌∷◌, some, true, false, arith, All, replicate, length,
  length-replicate,
}
use hxdl_driving_control.Prelude.Int.{pos}
use hxdl_driving_control.Event.{EventHelper}
use hxdl_driving_control.Can.{CanBusMsg, CanOperator, Receiver, run, has_can_listener}
use hxdl_driving_control.Sensor.{CanSensor}
use hxdl_driving_control.Sensor.Lifter as Lifter
use hxdl_driving_control.Manager.{Entry, Manager, has_sensor, init_all_sensors}
use hxdl_driving_control.Manager.Sorted.{
  Change, add, remove, IsSorted, apply_all, member_all, apply_all-IsSorted,
}
use hxdl_driving_control.Manager.Silence.{Input, tick, data_in, IsInput, silence, is_online}
use hxdl_driving_control.Manager.Online as Online
use hxdl_driving_control.Manager.Filtered.{IsStarted, init_all_sensors-IsStarted}
use hxdl_driving_control.Manager.Device.{Device, lifter, plain}
use hxdl_driving_control.Manager.Total.{device_parser}

abbrev a_lifter : Lifter.Lifter
a_lifter = record { lift_status = Lifter.un_known; current_height = 0; target_height = pos 1200 }

abbrev a_sensor : ℕ → CanSensor
a_sensor rid = record {
  r_can_id = rid;
  w_can_id = rid + 16;
  module_id = pos 1;
  heart_beat_counter = 0;
  is_alive = false;
  has_operator = false;
}

abbrev an_entry : ℕ → ℕ → Device → Entry Device
an_entry a rid d = record { address = a; sensor = record { can = a_sensor rid; own = d } }

abbrev two_sensors : Manager Device
two_sensors = record {
  sensor_list = an_entry 100 0x0804 (lifter a_lifter) ∷ an_entry 200 0x0502 plain ∷ [];
  filters = [];
  has_operator = true;
  lase_sensor_num = 0;
}

two_sensors-IsSorted : IsSorted (two_sensors.sensor_list)
two_sensors-IsSorted = ground arith

abbrev changes : List (Change Device)
changes = add (an_entry 150 0x0302 plain) ∷ remove (an_entry 100 0x0804 plain) ∷ []

apply_all-IsSorted_example :
    IsSorted (apply_all changes two_sensors).sensor_list
    × ((a : ℕ)
        → has_sensor a (apply_all changes two_sensors).sensor_list
          ≡ member_all a changes (has_sensor a two_sensors.sensor_list))
apply_all-IsSorted_example = apply_all-IsSorted changes two_sensors two_sensors-IsSorted

abbrev inputs : List Input
inputs = tick ∷ data_in 0x0804 (0xFF ∷ 0xFF ∷ replicate 2046 0) 2 ∷ tick ∷ []

inputs-IsInput : All IsInput inputs
inputs-IsInput = (tt, (omega (arith, length-replicate {A = ℕ} 2046 0), (tt, tt)))

two_sensors-IsOffline : All (Online.IsOffline device_parser) two_sensors.sensor_list
two_sensors-IsOffline = ((refl, omega arith), ((refl, omega arith), tt))

run-online_example :
    (m' : Manager Device) × (Online.run device_parser inputs two_sensors ≡ some m')
    × (Online.addresses device_parser m'.sensor_list ≡ 100 ∷ 200 ∷ [])
    × All
        (λ e. e.sensor.can.is_alive ≡ is_online (silence e.sensor.can.r_can_id inputs))
        m'.sensor_list
run-online_example =
    Online.run-online device_parser inputs two_sensors inputs-IsInput two_sensors-IsOffline

abbrev an_operator : CanOperator
an_operator = record { listener_list = []; filter = [] }

abbrev no_events : EventHelper (Unit {0})
no_events = record { normal_list = []; important_list = []; urgent_list = []; listener_list = [] }

init_all_sensors-IsStarted_example :
    (m' : Manager Device) × (op' : CanOperator) × (h' : EventHelper (Unit {0})) × (init_all_sensors
        7 two_sensors an_operator no_events
      ≡ (pos 0, m', op', h'))
    × (length m'.sensor_list ≡ 2)
    × All (IsStarted op') m'.sensor_list
    × (has_can_listener 7 op'.listener_list ≡ true)
init_all_sensors-IsStarted_example =
    init_all_sensors-IsStarted 7 two_sensors an_operator no_events refl (omega arith)

abbrev a_receiver : Receiver
a_receiver = record {
  recv_buf = replicate 2048 0;
  recv_length = 0;
  total_length = 0;
  recv_crc = 0;
  multi_mode = 0;
  heart_beat_timer = 0;
  loop_enable = true;
}

-- A heart beat of the lifter.
abbrev beat : CanBusMsg
beat = record {
  can_id = 0x0804;
  len = 2;
  bytes = 0xFF ∷ 0xFF ∷ 0 ∷ 0 ∷ 0 ∷ 0 ∷ 0 ∷ 0 ∷ [];
  ret = pos 0;
}
