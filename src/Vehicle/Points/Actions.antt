-- ===== src/Vehicle/Points/Actions.antt =====
-- controler/AgvCar.cpp: the actions at a station, and what follows when they are finished.
use hxdl_driving_control.Prelude.{true, false, ◌||◌, Option, some, if◌then◌else◌}
use hxdl_driving_control.Prelude.Int.{ℤ, pos, negsuc, pos_part}
use hxdl_driving_control.Wire.{◌>>=◌}
use hxdl_driving_control.Event.{important, ev_path_finished, ev_path_mag_error}
use hxdl_driving_control.Route.Positions.{get_target_station}
use hxdl_driving_control.Route.Reports.{on_action_finished}
use hxdl_driving_control.Car.{status_running}
use hxdl_driving_control.Move.{is_int}
use hxdl_driving_control.Controler.{charge_switch, arrived, set_lift_height}
use hxdl_driving_control.Vehicle.{
  Machine, Vehicle, Step, ◌>>>◌, ask, push, set_status, stop_all, is_zero,
}
use hxdl_driving_control.Vehicle.Points.{same_int, go, repeat_barriers, go_to_next_point}

module _ (m : Machine) where
  unfoldable pub start_running : Step
  start_running = go >>> (λ v. set_status m status_running (pos_part v.car_run_mode) v)

  unfoldable pub run_on : Step
  run_on = start_running >>> repeat_barriers

  unfoldable pub on_station_action_finished : Step
  on_station_action_finished v =
      on_action_finished m.out v.control.last_lift_height v.router >>= λ (ret, r).
      let v1 = record v { router = r } in
      if is_zero ret
      then (go_to_next_point m false (record v1 { current_path_action = pos 0 }) >>= λ (n, v2).
          if is_zero n
          then run_on v2
          else if is_int 1 n
          then push important ev_path_finished (pos 0) v2
          else if same_int n (negsuc 0)
          then push important ev_path_mag_error (pos 0) v2
          else some v2)
      else some v1

  -- The lift of a point that asks for it: the number returned is 0 when it is there.
  unfoldable pub lift_at_point : ℤ → Vehicle → Option (ℤ × Vehicle)
  lift_at_point height v = stop_all m false v >>= λ v1.
      let (there, k) = arrived height v1.control in
      if there
      then some (pos 0, record v1 { control = k })
      else some (negsuc 0, record v1 { control = set_lift_height height k })

  abbrev pub finished : Option Vehicle → Option (ℤ × Vehicle)
  finished o = o >>= λ v. some (pos 0, v)

  unfoldable pub do_path_point_action : Vehicle → Option (ℤ × Vehicle)
  unfolding is_int
  do_path_point_action v = get_target_station v.router >>= λ p.
      let v1 = record v { current_path_action = p.action } in
      if is_int 0 p.action || (is_int 2 p.action || is_int 3 p.action)
      then some (pos 0, v1)
      else if is_int 1 p.action
      then finished (stop_all m false v1)
      else if is_int 4 p.action
      then lift_at_point p.lift_height v1
      else if is_int 5 p.action
      then finished ((stop_all m false >>> ask (charge_switch true)) v1)
      else some (negsuc 0, v1)

  unfoldable pub on_arrived_station : Step
  on_arrived_station v = do_path_point_action v >>= λ (ret, v1).
      if is_zero ret then on_station_action_finished v1 else some v1

  unfoldable pub on_lift_arrived_height : Step
  on_lift_arrived_height v =
      if is_int 4 v.current_path_action then on_station_action_finished v else some v
