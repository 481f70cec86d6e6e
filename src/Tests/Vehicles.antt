-- ===== src/Tests/Vehicles.antt =====
-- The car with its controler and its planner: controler/AgvCar.cpp and AgvCarControler.cpp on small inputs.
use hxdl_driving_control.Prelude.{
  ℕ, All, ◌≡◌, refl, inl, map, List, [], ◌∷◌, Bool, true, false, Option, none, some, arith,
}
use hxdl_driving_control.Prelude.Int.{ℤ, pos, negsuc, ◌+ℤ◌, ◌-ℤ◌}
use hxdl_driving_control.Event
use hxdl_driving_control.Event.{EventList}
use hxdl_driving_control.Sensor.Lifter.{new_lifter, lift_is_arrived, set_target_height}
use hxdl_driving_control.Sensor.Barrier.{new_barrier, get_barrier_error, worst_of}
use hxdl_driving_control.Sensor.Drive.{new_drive}
use hxdl_driving_control.Route.{RoutePlanner, are_printable, is_printable, is_index, save_path_info}
use hxdl_driving_control.Route.Moves.{IsPlanned}
use hxdl_driving_control.Route.Reload.{reload_path_list}
use hxdl_driving_control.Route.Reload.Restored.{printed, reload_path_list-save_path_info}
use hxdl_driving_control.Move.{is_int}
use hxdl_driving_control.Route.Positions.{
  get_target_station, station_at, move_to_next_station, note_last_station, get_last_station,
  move_to_last_station,
}
use hxdl_driving_control.Route.Reports.{set_target_station, update_car_info}
use hxdl_driving_control.Car.{
  manual, auto, set_car_status, is_entered_again, log_status, place_of, enter, report, note_last,
  is_passing, clear_error_flag,
}
use hxdl_driving_control.Car as Car
use hxdl_driving_control.Controler as Controler
use hxdl_driving_control.Controler.{
  Controler, PathMag, no_path_mag, arrived, target_height, set_lift_height, save_last_path_mag,
  get_laser_stuta,
}
use hxdl_driving_control.Controler.Again.{Call, switched, stopped, ordered_to}
use hxdl_driving_control.Controler.Lost.{Counts, losses, losses-Counts}
use hxdl_driving_control.Vehicle.{
  Machine, Vehicle, is_zero, set_target_station as drive_to, ret_of, announce, set_status, on_car,
  carry_out_all, carry_out, update, number_of,
}
use hxdl_driving_control.Vehicle.Points.{
  go_to_next_point, choose_point, peek, whether_jump, drive_to_target, note_stop, stop_action,
  lift_on_way, lifts_on_way, note_action, get_run_action, set_out, is_driven, order_of, speed_for,
}
use hxdl_driving_control.Vehicle.Points.Actions.{start_running}
use hxdl_driving_control.Vehicle.Handler.{
  Payload, is_auto, start_run, start_way, look_ahead, clear_barriers,
}
use hxdl_driving_control.Vehicle.Dispatch.{handle_event}
use hxdl_driving_control.Vehicle.Row.{IsOther, handle_all, handle_all-IsPlanned}
use hxdl_driving_control.Vehicle.Halt.{Halts, handle_event-Halts}
use hxdl_driving_control.Tests.Scheduling.{outside}
use hxdl_driving_control.Tests.Routes.{planner}
use hxdl_driving_control.Tests.Driving.{running_car}

abbrev machine : Machine
machine = record {
  out = outside;
  can_open = true;
  read_back = λ l. some l;
  agv_id = 1001;
  thread_ret = pos 0;
  split_error = λ p. pos 0;
  enable_ret = pos 0;
  is_far_ahead = λ p q. false;
  is_straight = λ p q. false;
  speed_of = λ s. s;
  forward_speed = pos 30;
  backward_speed = pos 15;
  alarm_voltage = pos 4800;
  max_time_of_lost_pos = 300;
  is_stop_car_for_sche_off_line = true;
  is_auto_loop = false;
}

abbrev control : Controler
control = record {
  last_lift_height = pos 0;
  last_path_mag = no_path_mag;
  operate_mode = auto;
  lifter = new_lifter;
  barriers = new_barrier;
  drive = new_drive;
  lose_position_count = 0;
  told = [];
}

abbrev vehicle : Vehicle
vehicle = record {
  car = running_car;
  control = control;
  router = planner;
  online = true;
  x_pos = pos 0;
  y_pos = pos 0;
  angle = pos 0;
  speed = pos 0;
  battery_voltage = pos 5000;
  battery_capacity = pos 80;
  car_electricity = pos 0;
  speed_form_server = pos 0;
  current_path_action = pos 0;
  current_path_id = pos 0;
  car_run_mode = pos 1;
  is_init_complete = true;
  is_lifter_init = true;
  count = 0;
  show_bat_timer = 0;
  low_battery_alarm_times = 0;
  request_syn_count = 0;
}

handle_event-Halts_example :
    Halts vehicle (handle_event machine 1 false Event.ev_key_stop (pos 0) none vehicle)
handle_event-Halts_example = handle_event-Halts machine 1 false (pos 0) none vehicle refl

abbrev order : PathMag
order = record no_path_mag { station = pos 12; mode = pos 1; action = pos 4; lift_height = pos 900 }

-- An order, a stop, and the key for manual driving, the newest first.
abbrev some_calls : List Call
some_calls = switched manual ∷ stopped true ∷ ordered_to order ∷ []

losses-Counts_example :
    Counts 1400 300 control (losses 1400 300 control).0 (losses 1400 300 control).1
losses-Counts_example = losses-Counts 1400 300 control refl

planner_printable : are_printable planner.path_list ≡ true
unfolding are_printable is_printable is_index
planner_printable = refl

reload_path_list-save_path_info_example :
    (r' : RoutePlanner) × (reload_path_list (λ l. some l) true (save_path_info true true planner).1
      ≡ some (pos 2, r'))
    × (r'.path_list ≡ map printed planner.path_list)
    × (r'.target_path_id ≡ pos 0)
    × (r'.last_path_id ≡ negsuc 0)
reload_path_list-save_path_info_example =
    reload_path_list-save_path_info (λ l. some l) planner (refl, (refl, tt)) planner_printable

-- The key to start, and an order of a speed.
abbrev some_events : List (ℕ × Bool × EventList × ℤ × Option Payload)
some_events =
    (0, false, Event.ev_key_start, pos 0, none) ∷ (1, false, Event.ev_set_speed, pos 25, none) ∷ []

abbrev or_else : Option Vehicle → Vehicle
or_else none = vehicle
or_else (some v) = v

started :
    handle_all machine some_events vehicle ≡ some (or_else (handle_all machine some_events vehicle))
unfolding handle_all handle_event is_auto start_run start_way is_zero go_to_next_point choose_point
    get_target_station station_at peek move_to_next_station note_last_station get_last_station
    save_path_info move_to_last_station whether_jump drive_to_target note_stop stop_action
    set_target_station lift_on_way lifts_on_way arrived target_height set_lift_height
    lift_is_arrived set_target_height note_action get_run_action set_out is_driven order_of
    speed_for drive_to Controler.set_target_station save_last_path_mag ret_of announce start_running
    set_status on_car set_car_status is_entered_again log_status place_of enter report note_last
    is_passing Car.tell carry_out_all carry_out update update_car_info number_of Controler.tell
    look_ahead get_laser_stuta get_barrier_error worst_of clear_barriers clear_error_flag is_int
    ◌+ℤ◌ ◌-ℤ◌ new_barrier new_lifter new_drive
started = refl

others : All IsOther some_events
others = ((λ e. cc), ((λ e. cc), tt))

handle_all-IsPlanned_example : IsPlanned (or_else (handle_all machine some_events vehicle)).router
handle_all-IsPlanned_example =
    handle_all-IsPlanned machine some_events vehicle
      (or_else (handle_all machine some_events vehicle)) others (0, refl, refl, inl (omega arith))
      started
