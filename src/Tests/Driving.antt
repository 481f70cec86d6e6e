-- ===== src/Tests/Driving.antt =====
-- The car: controler/AgvCar.cpp on small inputs.
use hxdl_driving_control.Prelude.{◌≡◌, ◌≢◌, ◌/◌, ◌%◌, refl, [], ◌∷◌, false, none, some, arith}
use hxdl_driving_control.Car.{
  Car, status_running, status_low_power, running, auto, place_of, set_car_status,
}
use hxdl_driving_control.Car.Obstacle.{is_beside, near_barrier, barrier_ok, on_barrier_message}
use hxdl_driving_control.Car.Shown.{IsReady}
use hxdl_driving_control.Car.Barriers.{IsSingle, Call, run_calls, run_calls-IsSingle}
use hxdl_driving_control.Car.Stop.{Stops, on_barrier_message-Stops}
use hxdl_driving_control.Car.LowPower.{set_car_status-low_power}

-- A car that runs forward with no error.
abbrev pub running_car : Car
running_car = record {
  error = λ k. false;
  status = status_running;
  last_info = some (status_running, 1);
  operate_mode = auto;
  report_status = running;
  stop_button = false;
  first_set_status = false;
  last_status = some status_running;
  last_near = false;
  commands = [];
}

running_car-IsReady : IsReady (some (status_running, 1))
unfolding place_of
running_car-IsReady = (status_running, 1, refl, omega arith)

ahead : is_beside 1 (289 / 256 % 256) ≡ false
unfolding is_beside
ahead = refl

-- A near barrier of the laser in front.
on_barrier_message-Stops_example :
    Stops running_car (on_barrier_message 1 near_barrier 289 running_car)
on_barrier_message-Stops_example =
    on_barrier_message-Stops 1 289 running_car ahead (omega arith) refl refl refl

abbrev a_call : Call
a_call = record { mode = 1; event = near_barrier; dev = 289 }

abbrev its_end : Call
its_end = record { mode = 1; event = barrier_ok; dev = 289 }

run_calls-IsSingle_example :
    (c' : Car) × (run_calls (a_call ∷ its_end ∷ []) running_car ≡ some c')
    × IsSingle c'.error
    × IsReady c'.last_info
run_calls-IsSingle_example =
    run_calls-IsSingle (a_call ∷ its_end ∷ []) running_car (omega arith, (omega arith, tt))
      (refl, refl, refl) running_car-IsReady

not_low : some status_running ≢ some status_low_power
not_low e = cc

set_car_status-low_power_example : set_car_status status_low_power 4 running_car ≡ none
set_car_status-low_power_example = set_car_status-low_power 4 running_car not_low
