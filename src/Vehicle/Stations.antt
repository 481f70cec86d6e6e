-- ===== src/Vehicle/Stations.antt =====
-- controler/AgvCar.cpp: the planner's indices under the actions at a station, StartRun and the timers.
use hxdl_driving_control.Prelude.{
  ◌+◌, inl, inr, [], ◌∷◌, Bool, true, false, ◌||◌, Option, none, some, ltb, ◌==◌, length,
  Option-cases,
}
use hxdl_driving_control.Prelude.Int.{ℤ, pos, negsuc}
use hxdl_driving_control.Wire.{◌>>=◌, short_of, unsigned_of}
use hxdl_driving_control.Event.{
  normal, important, urgent, ev_path_finished, ev_path_mag_error, ev_lost_position, ev_sys_ready,
}
use hxdl_driving_control.Route.{RoutePlanner}
use hxdl_driving_control.Route.Positions.{get_target_station}
use hxdl_driving_control.Route.Reports.{on_action_finished, request_path, synchronize_time}
use hxdl_driving_control.Scheduler.{
  Scheduler, request_new_path, request_system_time_synchronization,
}
use hxdl_driving_control.Route.Moves.{IsPlanned}
use hxdl_driving_control.Route.Invariant.{Step-IsPlanned, finished as finished_call}
use hxdl_driving_control.Car.{status_low_power}
use hxdl_driving_control.Move.{is_int}
use hxdl_driving_control.Controler.{
  tell, arrived, charge_switch, enable, car_state, battery_capacity, auto_set_barrier_distance,
  is_lidar_ok, get_laser_stuta,
}
use hxdl_driving_control.Vehicle.{
  Machine, Vehicle, ◌>>>◌, push, is_zero, ask, set_status, stop_all, reset_target,
}
use hxdl_driving_control.Wire.After.{After, After-bind, After-if, After-any}
use hxdl_driving_control.Vehicle.Planned.{
  Planned, Keeps, seq-Keeps, when-Keeps, push-Keeps, set_status-Keeps, stop_all-Keeps,
  reset_target-Keeps,
}
use hxdl_driving_control.Vehicle.Points.{same_int, repeat_barriers, go_to_next_point}
use hxdl_driving_control.Vehicle.Points.Actions.{
  finished, run_on, start_running, on_station_action_finished, lift_at_point, do_path_point_action,
  on_arrived_station, on_lift_arrived_height,
}
use hxdl_driving_control.Vehicle.Handler.{
  is_auto, clear_barriers, look_ahead, start_way, start_run, watch_position, on_10ms_timer,
  show_battery, is_battery_low, check_battery, is_ready, check_ready, synchronize, on_1s_timer,
}
use hxdl_driving_control.Vehicle.Way.{
  CarAfter, KeepsRoute, with_router-Keeps, go_to_next_point-Keeps, repeat_barriers-Keeps,
  start_running-Keeps, run_on-Keeps,
}

module _ (m : Machine) where
  action_finished-Keeps :
      (height : ℤ) (r : RoutePlanner)
      → IsPlanned r
      → After (λ (o : ℤ × RoutePlanner). IsPlanned o.1) (on_action_finished m.out height r)
  action_finished-Keeps height r h = elim (Option-cases (on_action_finished m.out height r)) [
    | inl bad ↦ rw bad tt
    | inr ((n, r'), e) ↦ rw e (Step-IsPlanned {out = m.out} (finished_call height n e) h)
  ]

  on_station_action_finished-Keeps : Keeps (on_station_action_finished m)
  unfolding on_station_action_finished
  on_station_action_finished-Keeps v h =
      After-bind (λ (o : ℤ × RoutePlanner). IsPlanned o.1) Planned
        (on_action_finished m.out v.control.last_lift_height v.router) _
        (action_finished-Keeps v.control.last_lift_height v.router h)
        (λ (ret, r) h1.
          let v1 = record v { router = r } in
          After-if Planned (is_zero ret) _ (some v1)
            (After-bind CarAfter Planned
              (go_to_next_point m false (record v1 { current_path_action = pos 0 })) _
              (go_to_next_point-Keeps m false (record v1 { current_path_action = pos 0 }) h1)
              (λ (n, v2) h2. After-if Planned (is_zero n) (run_on m v2) _ (run_on-Keeps m v2 h2) (
                After-if Planned (is_int 1 n) (push important ev_path_finished (pos 0) v2) _
                  (push-Keeps important ev_path_finished (pos 0) v2 h2)
                  (After-if Planned (same_int n (negsuc 0))
                    (push important ev_path_mag_error (pos 0) v2) (some v2)
                    (push-Keeps important ev_path_mag_error (pos 0) v2 h2) h2))))
            h1)

  lift_at_point-Keeps :
      (height : ℤ) (v : Vehicle) → Planned v → After CarAfter (lift_at_point m height v)
  unfolding lift_at_point
  lift_at_point-Keeps height v h =
      After-bind Planned CarAfter (stop_all m false v) _ (stop_all-Keeps m false v h) (λ v1 h1.
        let (there, k) = arrived height v1.control in
        After-if CarAfter there (some (pos 0, record v1 { control = k })) _ h1 h1)

  finished-Keeps : (o : Option Vehicle) → After Planned o → After CarAfter (finished m o)
  finished-Keeps o h = After-bind Planned CarAfter o _ h (λ v h1. h1)

  do_path_point_action-Keeps : (v : Vehicle) → Planned v → After CarAfter (do_path_point_action m v)
  unfolding do_path_point_action
  do_path_point_action-Keeps v h = After-any CarAfter (get_target_station v.router) _ (λ p.
      let v1 = record v { current_path_action = p.action } in
      After-if CarAfter (is_int 0 p.action || (is_int 2 p.action || is_int 3 p.action))
        (some (pos 0, v1)) _ h
        (After-if CarAfter (is_int 1 p.action) (finished m (stop_all m false v1)) _
          (finished-Keeps (stop_all m false v1) (stop_all-Keeps m false v1 h))
          (After-if CarAfter (is_int 4 p.action) (lift_at_point m p.lift_height v1) _
            (lift_at_point-Keeps p.lift_height v1 h)
            (After-if CarAfter (is_int 5 p.action)
              (finished m ((stop_all m false >>> ask (charge_switch true)) v1))
              (some (negsuc 0, v1))
              (finished-Keeps _ (
                seq-Keeps (stop_all m false) (ask (charge_switch true)) (stop_all-Keeps m false)
                  (λ w k. k) v1 h))
              h))))

  pub on_arrived_station-Keeps : Keeps (on_arrived_station m)
  unfolding on_arrived_station
  on_arrived_station-Keeps v h =
      After-bind CarAfter Planned (do_path_point_action m v) _ (do_path_point_action-Keeps v h)
        (λ (ret, v1) h1.
          After-if Planned (is_zero ret) (on_station_action_finished m v1) (some v1)
            (on_station_action_finished-Keeps v1 h1) h1)

  pub on_lift_arrived_height-Keeps : Keeps (on_lift_arrived_height m)
  unfolding on_lift_arrived_height
  on_lift_arrived_height-Keeps v h =
      After-if Planned (is_int 4 v.current_path_action) (on_station_action_finished m v) (some v)
        (on_station_action_finished-Keeps v h) h

  look_ahead-Keeps : Keeps look_ahead
  unfolding look_ahead clear_barriers
  look_ahead-Keeps v h =
      After-if Planned (get_laser_stuta v.control == 0) (clear_barriers v) (repeat_barriers v) h
        (repeat_barriers-Keeps m v h)

  start_way-Keeps :
      (v : Vehicle) → Planned v → After (λ (o : Bool × Vehicle). Planned o.1) (start_way m v)
  unfolding start_way
  start_way-Keeps v h =
      After-if (λ (o : Bool × Vehicle). Planned o.1) (is_zero v.router.target_path_id) _ _
        (After-bind CarAfter (λ (o : Bool × Vehicle). Planned o.1) (go_to_next_point m true v) _
          (go_to_next_point-Keeps m true v h)
          (λ (ret, v1) h1.
            After-if (λ (o : Bool × Vehicle). Planned o.1) (is_zero ret) (some (true, v1)) _ h1
              (After-bind Planned (λ (o : Bool × Vehicle). Planned o.1)
                (push important ev_path_mag_error (pos 0) v1) _
                (push-Keeps important ev_path_mag_error (pos 0) v1 h1) (λ v2 h2. h2))))
        (After-bind Planned (λ (o : Bool × Vehicle). Planned o.1) (reset_target m v) _
          (reset_target-Keeps m v h) (λ v1 h1. h1))

  request-Keeps : KeepsRoute (λ r. request_path m.out r >>= λ (_, r1). some r1)
  unfolding request_path
  request-Keeps r h =
      elim (request_new_path m.out (unsigned_of r.x_pos) (unsigned_of r.y_pos)
          (short_of r.last_station_point) r.scheduler)
        as (λ (o : Option (ℤ × Scheduler)). After IsPlanned (
          (elim o as (λ x. Option (ℤ × RoutePlanner)) [
            | none ↦ none
            | some (ret, s) ↦ some (ret, record r { scheduler = s })
          ])
          >>= λ (_, r1). some r1)) [ none ↦ tt | some (_, s) ↦ h ]

  synchronize_time-Keeps : KeepsRoute (synchronize_time m.out)
  unfolding synchronize_time
  synchronize_time-Keeps r h =
      elim (request_system_time_synchronization m.out r.scheduler)
        as (λ (o : Option (ℤ × Scheduler)). After IsPlanned (elim o as (λ x. Option RoutePlanner) [
          | none ↦ none
          | some (ret, s) ↦ some (record r { scheduler = s })
        ])) [ none ↦ tt | some (_, s) ↦ h ]

  pub start_run-Keeps : Keeps (start_run m)
  unfolding start_run
  start_run-Keeps v h =
      let v0 = record v { control = tell (enable true ∷ []) v.control } in
      After-if Planned (is_auto v0) _ (look_ahead v0)
        (After-if Planned (length v0.router.path_list == 0) _ _
          (with_router-Keeps _ request-Keeps v0 h)
          (After-bind (λ (o : Bool × Vehicle). Planned o.1) Planned (start_way m v0) _
            (start_way-Keeps v0 h)
            (λ (started, v1) h1.
              After-if Planned started ((start_running m >>> look_ahead) v1) (some v1)
                (seq-Keeps (start_running m) look_ahead (start_running-Keeps m) look_ahead-Keeps v1
                  h1)
                h1)))
        (look_ahead-Keeps v0 h)

  watch_position-Keeps : (same : Bool) → Keeps (watch_position m same)
  unfolding watch_position
  watch_position-Keeps same v h =
      let (lost, k) = is_lidar_ok same m.max_time_of_lost_pos v.control in
      when-Keeps lost _ (push-Keeps urgent ev_lost_position (pos 0)) (record v { control = k }) h

  pub on_10ms_timer-Keeps : (same : Bool) → Keeps (on_10ms_timer m same)
  unfolding on_10ms_timer
  on_10ms_timer-Keeps same =
      seq-Keeps _ _ (λ v. when-Keeps v.is_init_complete _ (watch_position-Keeps same) v)
        (λ v h.
          After-if Planned (ltb 10 v.count)
            (some (record v { count = 0; control = auto_set_barrier_distance v.control }))
            (some (record v { count = v.count + 1 })) h h)

  show_battery-Keeps : Keeps (show_battery m)
  unfolding show_battery
  show_battery-Keeps v h =
      After-if Planned (ltb 5 (v.show_bat_timer + 1))
        (ask (battery_capacity v.battery_capacity) (record v { show_bat_timer = 0 })) _ h h

  check_battery-Keeps : Keeps (check_battery m)
  unfolding check_battery
  check_battery-Keeps v h =
      After-if Planned (is_battery_low m v) _ _
        (After-if Planned (ltb 20 (v.low_battery_alarm_times + 1)) _ _
          (seq-Keeps (ask (car_state 18)) (set_status m status_low_power 4) (λ w k. k)
            (set_status-Keeps m status_low_power 4) (record v { low_battery_alarm_times = 0 }) h)
          h)
        h

  check_ready-Keeps : Keeps (check_ready m)
  unfolding check_ready
  check_ready-Keeps v h =
      After-if Planned (is_ready m v) _ (some v)
        (push-Keeps normal ev_sys_ready (pos 0) (record v { is_init_complete = true }) h) h

  synchronize-Keeps : Keeps (synchronize m)
  unfolding synchronize
  synchronize-Keeps v h =
      After-if Planned (ltb 60 v.request_syn_count) _ _
        (with_router-Keeps (synchronize_time m.out) synchronize_time-Keeps
          (record v { request_syn_count = 0 }) h)
        h

  pub on_1s_timer-Keeps : Keeps (on_1s_timer m)
  unfolding on_1s_timer
  on_1s_timer-Keeps = seq-Keeps (show_battery m) _ show_battery-Keeps (
      seq-Keeps (check_battery m) _ check_battery-Keeps
        (seq-Keeps (check_ready m) (synchronize m) check_ready-Keeps synchronize-Keeps))
