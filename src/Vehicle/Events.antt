-- ===== src/Vehicle/Events.antt =====
-- controler/AgvCar.cpp: the planner's indices under the handlers of events.
use hxdl_driving_control.Prelude.{
  ℕ, ◌≡◌, refl, Bool, true, false, Option, none, some, if◌then◌else◌,
}
use hxdl_driving_control.Prelude.Int.{ℤ, pos, ltb_ℤ}
use hxdl_driving_control.Wire.{◌>>=◌}
use hxdl_driving_control.Event.{normal, ev_key_start, ev_battery}
use hxdl_driving_control.Sensor.Lifter.{un_known, moving, at_bottom, at_top}
use hxdl_driving_control.Route.{Stations, RoutePlanner, on_get_new_path}
use hxdl_driving_control.Route.Positions.{get_target_station, clean_last_station_point}
use hxdl_driving_control.Route.Reports.{update_car_info}
use hxdl_driving_control.Route.Reload.{reload_path_list}
use hxdl_driving_control.Route.Moves.{IsPlanned}
use hxdl_driving_control.Route.Invariant.{Step-IsPlanned, new_path, clean, reload as reload_call}
use hxdl_driving_control.Car.{auto, manual, status_normal, status_stopped, status_error}
use hxdl_driving_control.Car.Obstacle.{BarrierEvent}
use hxdl_driving_control.Controler.{
  voice, rgb_light, car_state, charge_switch, net_state, init_lift,
}
use hxdl_driving_control.Controler as Controler
use hxdl_driving_control.Vehicle.{
  Machine, Vehicle, Step, ◌>>>◌, skip, ask, control, set_status, stop_all,
}
use hxdl_driving_control.Wire.After.{After, After-bind, After-if, After-any}
use hxdl_driving_control.Vehicle.Planned.{
  Planned, Keeps, seq-Keeps, if-Keeps, when-Keeps, skip-Keeps, push-Keeps, set_status-Keeps,
  stop_all-Keeps, on_car-Keeps,
}
use hxdl_driving_control.Vehicle.Points.{with_router}
use hxdl_driving_control.Vehicle.Handler.{
  Payload, battery_mag, position, stations, is_auto, is_manual, test, set_flag, clear_flag,
  set_mode, reload, start_lifter, on_key_auto_mode, on_key_manual_mode, on_path_finished,
  on_path_mag_error, on_get_path, on_barrier,
}
use hxdl_driving_control.Vehicle.Dispatch.{
  on_station_message, on_position, on_lost_position, on_charge, show_lift, on_next_path_point,
  handle_event,
}
use hxdl_driving_control.Vehicle.Way.{with_router-Keeps}
use hxdl_driving_control.Vehicle.Stations.{on_arrived_station-Keeps}

pub test-Keeps : (p : Vehicle → Bool) (f g : Step) → Keeps f → Keeps g → Keeps (test p f g)
test-Keeps p f g hf hg v h = After-if Planned (p v) (f v) (g v) (hf v h) (hg v h)

got :
    (o : Option (ℤ × RoutePlanner))
    → ((n : ℤ) (r : RoutePlanner) → o ≡ some (n, r) → IsPlanned r)
    → After (λ (p : ℤ × RoutePlanner). IsPlanned p.1) o
got none f = tt
got (some (n, r)) f = f n r refl

module _ (m : Machine) where
  reload-Keeps : Keeps (reload m)
  unfolding reload
  reload-Keeps =
      with_router-Keeps (λ r. reload_path_list m.read_back m.can_open r >>= λ (_, r1). some r1)
        (λ r h.
          After-bind (λ (o : ℤ × RoutePlanner). IsPlanned o.1) IsPlanned
            (reload_path_list m.read_back m.can_open r) _
            (got (reload_path_list m.read_back m.can_open r)
              (λ n r' e. Step-IsPlanned {out = m.out} (reload_call m.read_back m.can_open n e) h))
            (λ (_, r1) h1. h1))

  pub on_key_auto_mode-Keeps : Keeps (on_key_auto_mode m)
  unfolding on_key_auto_mode set_mode start_lifter
  on_key_auto_mode-Keeps v h = After-if Planned (is_auto v) (some v) _ h (
      seq-Keeps (set_mode auto) _ (λ w k. k)
        (seq-Keeps (ask (car_state 5)) _ (λ w k. k)
          (seq-Keeps (set_status m status_normal 0) _ (set_status-Keeps m status_normal 0) (
            seq-Keeps (control (Controler.stop_car true)) _ (λ w k. k)
              (seq-Keeps (ask (charge_switch false)) _ (λ w k. k)
                (seq-Keeps (reload m) _ reload-Keeps
                  (λ w. when-Keeps _ (start_lifter m) (λ u k. k) w))))))
        v h)

  pub on_key_manual_mode-Keeps : Keeps (on_key_manual_mode m)
  unfolding on_key_manual_mode set_mode
  on_key_manual_mode-Keeps v h = After-if Planned (is_manual v) (some v) _ h (
      seq-Keeps (set_mode manual) _ (λ w k. k)
        (seq-Keeps (ask (car_state 4)) _ (λ w k. k)
          (seq-Keeps (ask (charge_switch false)) _ (λ w k. k)
            (seq-Keeps (with_router (λ r. some (clean_last_station_point r))) _
              (with_router-Keeps (λ r. some (clean_last_station_point r))
                (λ r k. Step-IsPlanned {out = m.out} clean k))
              (set_status-Keeps m status_stopped 0))))
        (record v { car = record v.car { stop_button = true } }) h)

  pub on_path_finished-Keeps : Keeps (on_path_finished m)
  unfolding on_path_finished
  on_path_finished-Keeps = seq-Keeps (stop_all m false) _ (stop_all-Keeps m false) (
      seq-Keeps (set_status m status_normal 3) _ (set_status-Keeps m status_normal 3) (
        seq-Keeps (reload m) _ reload-Keeps (
          seq-Keeps _ (ask (car_state 21))
            (when-Keeps m.is_auto_loop _ (push-Keeps normal ev_key_start (pos 0))) (λ v h. h))))

  pub on_path_mag_error-Keeps : (param : ℤ) → Keeps (on_path_mag_error m param)
  unfolding on_path_mag_error
  on_path_mag_error-Keeps param = seq-Keeps (stop_all m false) _ (stop_all-Keeps m false) (
      if-Keeps _ skip _ skip-Keeps
        (seq-Keeps (ask (car_state 22)) _ (λ v h. h) (set_status-Keeps m status_error 27)))

  on_get_path-Keeps : (list : Stations) → Keeps (on_get_path m list)
  unfolding on_get_path
  on_get_path-Keeps list v h =
      After-bind (λ (o : ℤ × RoutePlanner). IsPlanned o.1) Planned
        (on_get_new_path m.can_open list v.router) _
        (got (on_get_new_path m.can_open list v.router)
          (λ n r e. Step-IsPlanned {out = m.out} (new_path m.can_open list n e) h))
        (λ (n, r) h1.
          let v1 = record v { router = r } in
          After-if Planned (ltb_ℤ (pos 0) n)
            ((set_status m status_stopped 0 >>> ask (car_state 19)) v1) (some v1)
            (seq-Keeps (set_status m status_stopped 0) (ask (car_state 19))
              (set_status-Keeps m status_stopped 0) (λ w k. k) v1 h1)
            h1)

  pub on_barrier-Keeps :
      (mode : ℕ) (e : BarrierEvent) (param : ℤ) → Keeps (on_barrier m mode e param)
  unfolding on_barrier
  on_barrier-Keeps mode e param = test-Keeps is_auto _ skip (on_car-Keeps m _) skip-Keeps

  pub on_charge-Keeps : (on : Bool) (param : ℤ) → Keeps (on_charge m on param)
  unfolding on_charge
  on_charge-Keeps on param =
      test-Keeps _ _ skip
        (seq-Keeps (ask (voice (if on then 25 else 26) 1)) _ (λ v h. h)
          (seq-Keeps (stop_all m true) (ask (charge_switch on)) (stop_all-Keeps m true) (λ v h. h)))
        skip-Keeps

  pub on_position-Keeps : (payload : Option Payload) → Keeps (on_position m payload)
  unfolding on_position on_station_message update_car_info
  on_position-Keeps none =
      seq-Keeps _ skip
        (λ v. when-Keeps (v.car.error 21) (clear_flag 21 >>> ask (car_state 6)) (λ w k. k) v)
        skip-Keeps
  on_position-Keeps (some (position x y angle)) =
      seq-Keeps _ (on_station_message m x y angle)
        (λ v. when-Keeps (v.car.error 21) (clear_flag 21 >>> ask (car_state 6)) (λ w k. k) v)
        (λ v h. h)
  on_position-Keeps (some (battery_mag vol cap ele)) =
      seq-Keeps _ skip
        (λ v. when-Keeps (v.car.error 21) (clear_flag 21 >>> ask (car_state 6)) (λ w k. k) v)
        skip-Keeps
  on_position-Keeps (some (stations list)) =
      seq-Keeps _ skip
        (λ v. when-Keeps (v.car.error 21) (clear_flag 21 >>> ask (car_state 6)) (λ w k. k) v)
        skip-Keeps

  pub on_lost_position-Keeps : Keeps (on_lost_position m)
  unfolding on_lost_position
  on_lost_position-Keeps v =
      when-Keeps v.is_init_complete _
        (seq-Keeps (set_flag 21) _ (λ w k. k)
          (seq-Keeps (set_status m status_error 18) (ask (car_state 7))
            (set_status-Keeps m status_error 18) (λ w k. k)))
        v

  pub show_lift-Keeps : Keeps (show_lift m)
  unfolding show_lift
  show_lift-Keeps v h =
      elim v.control.lifter.lift_status
        as (λ s. After Planned (elim s as (λ x. Option Vehicle) [
          | at_bottom ↦ ask (car_state 24) v
          | at_top ↦ ask (car_state 23) v
          | _ ↦ skip v
        ])) [ at_bottom ↦ h | at_top ↦ h | un_known ↦ h | moving ↦ h ]

  pub on_next_path_point-Keeps : Keeps (on_next_path_point m)
  unfolding on_next_path_point
  on_next_path_point-Keeps v h =
      After-any Planned (get_target_station v.router) _ (λ p. on_arrived_station-Keeps m v h)

  pub got_path-Keeps :
      (payload : Option Payload)
      → Keeps (elim payload as (λ x. Step) [ some (stations list) ↦ on_get_path m list | _ ↦ skip ])
  got_path-Keeps none = skip-Keeps
  got_path-Keeps (some (stations list)) = on_get_path-Keeps list
  got_path-Keeps (some (position x y angle)) = skip-Keeps
  got_path-Keeps (some (battery_mag vol cap ele)) = skip-Keeps

  pub battery-Keeps :
      (mode : ℕ) (same : Bool) (param : ℤ) (payload : Option Payload)
      → Keeps (handle_event m mode same ev_battery param payload)
  unfolding handle_event
  battery-Keeps mode same param none v h = tt
  battery-Keeps mode same param (some (stations list)) v h = tt
  battery-Keeps mode same param (some (position x y angle)) v h = tt
  battery-Keeps mode same param (some (battery_mag vol cap ele)) v h = h
