-- ===== src/Vehicle/Dispatch.antt =====
-- controler/AgvCar.cpp: the switch of HandleEvent, which returns false for every event.
use hxdl_driving_control.Prelude.{
  ℕ, ◌+◌, Bool, true, false, ◌||◌, Option, none, some, if◌then◌else◌,
}
use hxdl_driving_control.Prelude.Int.{ℤ, pos, ◌+ℤ◌}
use hxdl_driving_control.Wire.{◌>>=◌}
use hxdl_driving_control.Event.{
  EventList, important, ev_10ms_timer, ev_1s_timer, ev_sys_ready, ev_battery, ev_network_ok,
  ev_network_error, ev_scheduler_online, ev_scheduler_offline, ev_position, ev_lost_position,
  ev_sensor_online, ev_sensor_offline, ev_lifter_init, ev_key_auto_mode, ev_key_manual_mode,
  ev_key_start, ev_key_stop, ev_turn_on_charge, ev_turn_off_charge, ev_agv_sleep, ev_agv_wake_up,
  ev_get_new_path, ev_apply_path, ev_next_path_point, ev_path_mag_error, ev_path_finished,
  ev_lift_arrived, ev_set_barrier_distance, ev_near_barrier, ev_mid_barrier, ev_far_barrier,
  ev_barrier_touched, ev_barrier_ok, ev_urgent_stop, ev_set_speed,
}
use hxdl_driving_control.Sensor.Lifter.{at_bottom, at_top}
use hxdl_driving_control.Route.Positions.{get_target_station}
use hxdl_driving_control.Route.Reports.{update_car_info}
use hxdl_driving_control.Route.Reload.{start}
use hxdl_driving_control.Car.{status_init, status_error}
use hxdl_driving_control.Car.Obstacle.{
  near_barrier, mid_barrier, far_barrier, barrier_touched, barrier_ok,
}
use hxdl_driving_control.Move.{is_int}
use hxdl_driving_control.Controler.{
  voice, rgb_light, car_state, net_state, charge_switch, sleep_switch, barrier_distance,
}
use hxdl_driving_control.Vehicle.{
  Machine, Step, ◌>>>◌, skip, when, ask, push, number_of, set_status, stop_all,
}
use hxdl_driving_control.Vehicle.Points.Actions.{on_arrived_station, on_lift_arrived_height}
use hxdl_driving_control.Vehicle.Handler.{
  Payload, battery_mag, position, stations, is_auto, is_manual, test, clear_flag, set_flag,
  start_run, on_10ms_timer, on_1s_timer, on_key_auto_mode, on_key_manual_mode, on_path_finished,
  on_path_mag_error, on_get_path, on_barrier,
}

-- The planner's Stop: a thread that runs is ended, and a connection closed, which sends an event.
unfoldable pub close_connection : Step
close_connection v =
    let closed = record v.router.scheduler { heart_beat_timeout = 0; is_connected = false } in
    let close =
      push important ev_scheduler_offline (pos 0)
        (record v { router = record v.router { scheduler = closed } }) in
    if v.router.scheduler.is_connected then close else some v

unfoldable pub stop_planner : Step
stop_planner v =
    let s = v.router.scheduler in
    let ended = close_connection (record v {
      online = false;
      router = record v.router { scheduler = record s { cmd_sem = s.cmd_sem + 1 } };
    }) in
    if v.online then ended else some v

module _ (m : Machine) where
  unfoldable pub start_planner : Step
  start_planner v = start m.read_back m.can_open m.agv_id m.thread_ret v.router >>= λ (_, r).
      some (record v { router = r; online = true })

  -- OnStationMessage.
  unfoldable pub on_station_message : ℤ → ℤ → ℤ → Step
  on_station_message x y angle v =
      let speed = m.speed_of v.control.drive.speed in
      some (record v {
        x_pos = x;
        y_pos = y;
        angle = angle;
        speed = speed;
        router =
            update_car_info x y angle speed v.battery_capacity (pos (number_of v.car.report_status))
              v.router;
      })

  unfoldable pub on_position : Option Payload → Step
  on_position payload =
      (λ v. when (v.car.error 21) (clear_flag 21 >>> ask (car_state 6)) v)
      >>> (elim payload [ some (position x y angle) ↦ on_station_message x y angle | _ ↦ skip ])

  -- The position is lost: nothing before the system is ready.
  unfoldable pub on_lost_position : Step
  on_lost_position v =
      when v.is_init_complete (set_flag 21 >>> (set_status m status_error 18 >>> ask (car_state 7)))
        v

  unfoldable pub on_lifter_init : Step
  on_lifter_init v =
      (ask (voice 0 1) >>> ask (rgb_light 3 0 1 0)) (record v { is_lifter_init = true })

  -- Charging is switched by hand, or by an order of the server with the parameter 1.
  unfoldable pub on_charge : Bool → ℤ → Step
  unfolding is_int
  on_charge on param =
      test (λ v. is_manual v || is_int 1 param)
        (ask (voice (if on then 25 else 26) 1) >>> (stop_all m true >>> ask (charge_switch on)))
        skip

  unfoldable pub show_lift : Step
  show_lift v = elim v.control.lifter.lift_status [
    | at_bottom ↦ ask (car_state 24) v
    | at_top ↦ ask (car_state 23) v
    | _ ↦ skip v
  ]

  -- With no target the read through NULL is a fault.
  unfoldable pub on_next_path_point : Step
  on_next_path_point v = get_target_station v.router >>= λ p. on_arrived_station m v

  -- HandleEvent: the event, its parameter and what its data pointer leads to. `mode` is the mode in which
  -- the helper runs, `same` that the lidar's numbers did not change.
  unfoldable pub handle_event : ℕ → Bool → EventList → ℤ → Option Payload → Step
  handle_event mode same ev_10ms_timer param payload = on_10ms_timer m same
  handle_event mode same ev_1s_timer param payload = on_1s_timer m
  handle_event mode same ev_sys_ready param payload = set_status m status_init 0
  handle_event mode same ev_battery param payload = elim payload [
    | some (battery_mag vol cap ele) ↦ λ v.
        some (record v { battery_voltage = vol; battery_capacity = cap; car_electricity = ele })
    | _ ↦ λ v. none
  ]
  handle_event mode same ev_network_ok param payload =
      clear_flag 2 >>> (ask (car_state 1) >>> start_planner)
  handle_event mode same ev_network_error param payload =
      set_flag 2 >>> (ask (car_state 0) >>> stop_planner)
  handle_event mode same ev_scheduler_online param payload = ask (net_state 1) >>> ask (car_state 2)
  handle_event mode same ev_scheduler_offline param payload =
      ask (net_state 0)
      >>> (ask (car_state 3) >>> when m.is_stop_car_for_sche_off_line (stop_all m true))
  handle_event mode same ev_position param payload = on_position payload
  handle_event mode same ev_lost_position param payload = on_lost_position
  handle_event mode same ev_sensor_online param payload = clear_flag 18 >>> ask (car_state 8)
  handle_event mode same ev_sensor_offline param payload = set_flag 18 >>> ask (car_state 9)
  handle_event mode same ev_lifter_init param payload = on_lifter_init
  handle_event mode same ev_key_auto_mode param payload = on_key_auto_mode m
  handle_event mode same ev_key_manual_mode param payload = on_key_manual_mode m
  handle_event mode same ev_key_start param payload = test is_auto (start_run m) skip
  handle_event mode same ev_key_stop param payload = test is_auto (stop_all m false) skip
  handle_event mode same ev_turn_on_charge param payload = on_charge true param
  handle_event mode same ev_turn_off_charge param payload = on_charge false param
  handle_event mode same ev_agv_sleep param payload = ask (sleep_switch true)
  handle_event mode same ev_agv_wake_up param payload = ask (sleep_switch false)
  handle_event mode same ev_get_new_path param payload = elim payload [
    | some (stations list) ↦ on_get_path m list
    | _ ↦ skip
  ]
  handle_event mode same ev_apply_path param payload = test is_auto (start_run m) skip
  handle_event mode same ev_next_path_point param payload = on_next_path_point
  handle_event mode same ev_path_mag_error param payload = on_path_mag_error m param
  handle_event mode same ev_path_finished param payload = on_path_finished m
  handle_event mode same ev_lift_arrived param payload = on_lift_arrived_height m >>> show_lift
  handle_event mode same ev_set_barrier_distance param payload =
      ask (barrier_distance (pos 2) (pos 1) (pos 0) (param +ℤ pos 9))
  handle_event mode same ev_near_barrier param payload = on_barrier m mode near_barrier param
  handle_event mode same ev_mid_barrier param payload = on_barrier m mode mid_barrier param
  handle_event mode same ev_far_barrier param payload = on_barrier m mode far_barrier param
  handle_event mode same ev_barrier_touched param payload = on_barrier m mode barrier_touched param
  handle_event mode same ev_barrier_ok param payload = on_barrier m mode barrier_ok param
  handle_event mode same ev_urgent_stop param payload = set_status m status_error 8
  handle_event mode same ev_set_speed param payload =
      λ v. some (record v { speed_form_server = param })
  handle_event mode same event param payload = skip
