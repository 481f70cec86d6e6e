-- ===== src/Vehicle/Row.antt =====
-- controler/AgvCar.cpp: the planner's indices under any row of events.
use mathlib.Core.Path.{subst}
use hxdl_driving_control.Prelude.{
  ℕ, ◌≡◌, ◌≢◌, refl, All, List, [], ◌∷◌, Bool, true, false, Option, some,
}
use hxdl_driving_control.Prelude.Int.{ℤ, pos}
use hxdl_driving_control.Event.{
  EventList, important, ev_none, ev_10ms_timer, ev_100ms_timer, ev_500ms_timer, ev_1s_timer,
  ev_up_down, ev_user, ev_sys_ready, ev_sys_close, ev_power_down, ev_sys_reboot, ev_network_ok,
  ev_network_error, ev_modem_on_line, ev_modem_off_line, ev_near_barrier, ev_mid_barrier,
  ev_far_barrier, ev_barrier_touched, ev_barrier_ok, ev_derailed, ev_urgent_stop, ev_lift_height,
  ev_lift_arrived, ev_lift_at_top, ev_lift_at_bottom, ev_key_start, ev_key_stop, ev_key_auto_mode,
  ev_key_manual_mode, ev_key_lift_up, ev_key_lift_down, ev_battery, ev_battery_low,
  ev_battery_charge, ev_start_charge, ev_stop_charge, ev_set_speed, ev_get_new_path,
  ev_request_path, ev_apply_path, ev_next_path_point, ev_path_finished, ev_scheduler_online,
  ev_scheduler_offline, ev_sensor_offline, ev_sensor_online, ev_position, ev_lost_position,
  ev_path_mag_error, ev_turn_on_charge, ev_turn_off_charge, ev_set_barrier_distance, ev_agv_sleep,
  ev_agv_wake_up, ev_lifter_init,
}
use hxdl_driving_control.Route.Moves.{IsPlanned}
use hxdl_driving_control.Car.{status_init, status_error}
use hxdl_driving_control.Car.Obstacle.{
  near_barrier, mid_barrier, far_barrier, barrier_touched, barrier_ok,
}
use hxdl_driving_control.Controler.{car_state, net_state}
use hxdl_driving_control.Vehicle.{Machine, Vehicle, Step, ◌>>>◌, skip, ask}
use hxdl_driving_control.Wire.After.{After, After-if}
use hxdl_driving_control.Vehicle.Planned.{
  Planned, Keeps, seq-Keeps, when-Keeps, skip-Keeps, push-Keeps, set_status-Keeps, stop_all-Keeps,
}
use hxdl_driving_control.Vehicle.Points.Actions.{on_lift_arrived_height}
use hxdl_driving_control.Vehicle.Handler.{Payload, is_auto, set_flag}
use hxdl_driving_control.Vehicle.Dispatch.{
  on_lifter_init, show_lift, stop_planner, close_connection, handle_event,
}
use hxdl_driving_control.Vehicle.Events.{
  test-Keeps, on_key_auto_mode-Keeps, on_key_manual_mode-Keeps, on_path_finished-Keeps,
  on_path_mag_error-Keeps, on_barrier-Keeps, on_charge-Keeps, on_position-Keeps,
  on_lost_position-Keeps, show_lift-Keeps, on_next_path_point-Keeps, got_path-Keeps, battery-Keeps,
}
use hxdl_driving_control.Vehicle.Stations.{
  on_lift_arrived_height-Keeps, start_run-Keeps, on_10ms_timer-Keeps, on_1s_timer-Keeps,
}

-- What is done before a push, and after none, leaves the planner's path alone.
stop_planner-Keeps : Keeps stop_planner
unfolding stop_planner close_connection
stop_planner-Keeps v h =
    After-if Planned v.online _ (some v)
      (After-if Planned v.router.scheduler.is_connected _ (some _)
        (push-Keeps important ev_scheduler_offline (pos 0) _ h) h)
      h

-- An event other than evNetworkOK, for which the planner is started.
abbrev pub IsOther : ℕ × Bool × EventList × ℤ × Option Payload → Type 0
IsOther (mode, same, event, param, payload) = event ≢ ev_network_ok

module _ (m : Machine) where
  handle_event-Keeps :
      (mode : ℕ) (same : Bool) (event : EventList) (param : ℤ) (payload : Option Payload)
      → event ≢ ev_network_ok
      → Keeps (handle_event m mode same event param payload)
  unfolding handle_event on_lifter_init
  handle_event-Keeps mode same ev_10ms_timer param payload other = on_10ms_timer-Keeps m same
  handle_event-Keeps mode same ev_1s_timer param payload other = on_1s_timer-Keeps m
  handle_event-Keeps mode same ev_sys_ready param payload other = set_status-Keeps m status_init 0
  handle_event-Keeps mode same ev_battery param payload other =
      battery-Keeps m mode same param payload
  handle_event-Keeps mode same ev_network_ok param payload other = absurd (other refl)
  handle_event-Keeps mode same ev_network_error param payload other =
      seq-Keeps (set_flag 2) _ (λ v h. h)
        (seq-Keeps (ask (car_state 0)) stop_planner (λ v h. h) stop_planner-Keeps)
  handle_event-Keeps mode same ev_scheduler_online param payload other = λ v h. h
  handle_event-Keeps mode same ev_scheduler_offline param payload other =
      seq-Keeps (ask (net_state 0)) _ (λ v h. h)
        (seq-Keeps (ask (car_state 3)) _ (λ v h. h)
          (when-Keeps m.is_stop_car_for_sche_off_line _ (stop_all-Keeps m true)))
  handle_event-Keeps mode same ev_position param payload other = on_position-Keeps m payload
  handle_event-Keeps mode same ev_lost_position param payload other = on_lost_position-Keeps m
  handle_event-Keeps mode same ev_sensor_online param payload other = λ v h. h
  handle_event-Keeps mode same ev_sensor_offline param payload other = λ v h. h
  handle_event-Keeps mode same ev_lifter_init param payload other = λ v h. h
  handle_event-Keeps mode same ev_key_auto_mode param payload other = on_key_auto_mode-Keeps m
  handle_event-Keeps mode same ev_key_manual_mode param payload other = on_key_manual_mode-Keeps m
  handle_event-Keeps mode same ev_key_start param payload other =
      test-Keeps is_auto _ skip (start_run-Keeps m) skip-Keeps
  handle_event-Keeps mode same ev_key_stop param payload other =
      test-Keeps is_auto _ skip (stop_all-Keeps m false) skip-Keeps
  handle_event-Keeps mode same ev_turn_on_charge param payload other = on_charge-Keeps m true param
  handle_event-Keeps mode same ev_turn_off_charge param payload other =
      on_charge-Keeps m false param
  handle_event-Keeps mode same ev_agv_sleep param payload other = λ v h. h
  handle_event-Keeps mode same ev_agv_wake_up param payload other = λ v h. h
  handle_event-Keeps mode same ev_get_new_path param payload other = got_path-Keeps m payload
  handle_event-Keeps mode same ev_apply_path param payload other =
      test-Keeps is_auto _ skip (start_run-Keeps m) skip-Keeps
  handle_event-Keeps mode same ev_next_path_point param payload other = on_next_path_point-Keeps m
  handle_event-Keeps mode same ev_path_mag_error param payload other =
      on_path_mag_error-Keeps m param
  handle_event-Keeps mode same ev_path_finished param payload other = on_path_finished-Keeps m
  handle_event-Keeps mode same ev_lift_arrived param payload other =
      seq-Keeps (on_lift_arrived_height m) (show_lift m) (on_lift_arrived_height-Keeps m)
        (show_lift-Keeps m)
  handle_event-Keeps mode same ev_set_barrier_distance param payload other = λ v h. h
  handle_event-Keeps mode same ev_near_barrier param payload other =
      on_barrier-Keeps m mode near_barrier param
  handle_event-Keeps mode same ev_mid_barrier param payload other =
      on_barrier-Keeps m mode mid_barrier param
  handle_event-Keeps mode same ev_far_barrier param payload other =
      on_barrier-Keeps m mode far_barrier param
  handle_event-Keeps mode same ev_barrier_touched param payload other =
      on_barrier-Keeps m mode barrier_touched param
  handle_event-Keeps mode same ev_barrier_ok param payload other =
      on_barrier-Keeps m mode barrier_ok param
  handle_event-Keeps mode same ev_urgent_stop param payload other =
      set_status-Keeps m status_error 8
  handle_event-Keeps mode same ev_set_speed param payload other = λ v h. h
  handle_event-Keeps mode same ev_none param payload other = skip-Keeps
  handle_event-Keeps mode same ev_100ms_timer param payload other = skip-Keeps
  handle_event-Keeps mode same ev_500ms_timer param payload other = skip-Keeps
  handle_event-Keeps mode same ev_up_down param payload other = skip-Keeps
  handle_event-Keeps mode same ev_user param payload other = skip-Keeps
  handle_event-Keeps mode same ev_sys_close param payload other = skip-Keeps
  handle_event-Keeps mode same ev_power_down param payload other = skip-Keeps
  handle_event-Keeps mode same ev_sys_reboot param payload other = skip-Keeps
  handle_event-Keeps mode same ev_modem_on_line param payload other = skip-Keeps
  handle_event-Keeps mode same ev_modem_off_line param payload other = skip-Keeps
  handle_event-Keeps mode same ev_derailed param payload other = skip-Keeps
  handle_event-Keeps mode same ev_lift_height param payload other = skip-Keeps
  handle_event-Keeps mode same ev_lift_at_top param payload other = skip-Keeps
  handle_event-Keeps mode same ev_lift_at_bottom param payload other = skip-Keeps
  handle_event-Keeps mode same ev_key_lift_up param payload other = skip-Keeps
  handle_event-Keeps mode same ev_key_lift_down param payload other = skip-Keeps
  handle_event-Keeps mode same ev_battery_low param payload other = skip-Keeps
  handle_event-Keeps mode same ev_battery_charge param payload other = skip-Keeps
  handle_event-Keeps mode same ev_start_charge param payload other = skip-Keeps
  handle_event-Keeps mode same ev_stop_charge param payload other = skip-Keeps
  handle_event-Keeps mode same ev_request_path param payload other = skip-Keeps

  -- Events that are handled one after the other: the mode of the helper and the lidar's numbers, then the
  -- event, its parameter and its data.
  unfoldable pub handle_all : List (ℕ × Bool × EventList × ℤ × Option Payload) → Step
  handle_all [] = skip
  handle_all ((mode, same, event, param, payload) ∷ rest) =
      handle_event m mode same event param payload >>> handle_all rest

  handle_all-Keeps :
      (events : List (ℕ × Bool × EventList × ℤ × Option Payload))
      → All IsOther events
      → Keeps (handle_all events)
  unfolding handle_all
  handle_all-Keeps [] others = skip-Keeps
  handle_all-Keeps ((mode, same, event, param, payload) ∷ rest) others =
      seq-Keeps _ (handle_all rest) (handle_event-Keeps mode same event param payload others.0)
        (handle_all-Keeps rest others.1)

  -- Whatever events but evNetworkOK HandleEvent is given, in whatever order and with whatever data: when
  -- none of them is a fault, the planner's target stays a station of its path, or 0 with no path, and its
  -- last station the one before the target, if that is so at first. For evNetworkOK the planner is started,
  -- which takes both from the settings.
  pub handle_all-IsPlanned :
      (events : List (ℕ × Bool × EventList × ℤ × Option Payload)) (v v' : Vehicle)
      → All IsOther events
      → IsPlanned v.router
      → handle_all events v ≡ some v'
      → IsPlanned v'.router
  handle_all-IsPlanned events v v' others h e =
      subst (After Planned) e (handle_all-Keeps events others v h)
