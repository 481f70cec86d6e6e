-- ===== src/Vehicle/Handler.antt =====
-- controler/AgvCar.cpp: HandleEvent, which returns false for every event, and StartRun.
use hxdl_driving_control.Prelude.{
  ℕ, ◌+◌, Bool, true, false, ◌&&◌, ◌||◌, Option, some, ltb, ◌==◌, if◌then◌else◌, length,
}
use hxdl_driving_control.Prelude.Int.{ℤ, pos, negsuc, ltb_ℤ}
use hxdl_driving_control.Wire.{◌>>=◌, unsigned_of}
use hxdl_driving_control.Event
use hxdl_driving_control.Event.{Event, EventList, normal, important, urgent, value_of}
use hxdl_driving_control.Route.{Stations, on_get_new_path}
use hxdl_driving_control.Route.Positions.{clean_last_station_point}
use hxdl_driving_control.Route.Reports.{request_path, synchronize_time}
use hxdl_driving_control.Route.Reload.{reload_path_list}
use hxdl_driving_control.Car.{
  OperateMode, auto, manual, no_known, status_normal, status_stopped, status_error,
  status_low_power, set_error_flag, clear_error_flag,
}
use hxdl_driving_control.Car.Obstacle.{BarrierEvent, on_barrier_message}
use hxdl_driving_control.Move.{is_int}
use hxdl_driving_control.Controler.{
  voice, rgb_light, car_state, battery_capacity, net_state, charge_switch, sleep_switch, enable,
  init_lift, barrier_distance, auto_set_barrier_distance, is_lidar_ok, get_laser_stuta,
  set_operate_mode,
}
use hxdl_driving_control.Controler
use hxdl_driving_control.Vehicle.{
  Machine, Vehicle, Step, ◌>>>◌, skip, when, control, with_car, ask, push, is_zero, reset_target,
  on_car, set_status, stop_all,
}
use hxdl_driving_control.Vehicle.Points.{with_router, go_to_next_point, repeat_barriers}
use hxdl_driving_control.Vehicle.Points.Actions.{start_running}

-- What the data pointer of an event leads to when it is handled. A position's angle is in hundredths.
pub data Payload : Type 0 where
  battery_mag : ℤ → ℤ → ℤ → Payload
  position : ℤ → ℤ → ℤ → Payload
  stations : Stations → Payload

unfoldable pub is_auto : Vehicle → Bool
is_auto v = elim v.car.operate_mode [ auto ↦ true | _ ↦ false ]

unfoldable pub is_manual : Vehicle → Bool
is_manual v = elim v.car.operate_mode [ manual ↦ true | _ ↦ false ]

unfoldable pub is_known : Vehicle → Bool
is_known v = elim v.car.operate_mode [ no_known ↦ false | _ ↦ true ]

abbrev pub test : (Vehicle → Bool) → Step → Step → Step
test p f g v = let a = f v in let b = g v in if p v then a else b

abbrev pub clear_flag : ℕ → Step
clear_flag flag = with_car (clear_error_flag flag)

abbrev pub set_flag : ℕ → Step
set_flag flag = with_car (set_error_flag flag)

unfoldable pub clear_barriers : Step
clear_barriers = clear_flag 9 >>> (clear_flag 10 >>> clear_flag 8)

unfoldable pub set_mode : OperateMode → Step
set_mode mode v = some (record v {
  car = record v.car { operate_mode = mode };
  control = set_operate_mode mode v.control;
})

-- The laser at the front, at the end of StartRun.
unfoldable pub look_ahead : Step
look_ahead = test (λ v. get_laser_stuta v.control == 0) clear_barriers repeat_barriers

module _ (m : Machine) where
  -- The first way point, or the last order again; `none` of the inner Option when the first fails.
  unfoldable pub start_way : Vehicle → Option (Bool × Vehicle)
  start_way v =
      if is_zero v.router.target_path_id
      then (go_to_next_point m true v >>= λ (ret, v1).
          if is_zero ret
          then some (true, v1)
          else (push important Event.ev_path_mag_error (pos 0) v1 >>= λ v2. some (false, v2)))
      else (reset_target m v >>= λ v1. some (true, v1))

  -- The number that StartRun returns is not used by HandleEvent.
  unfoldable pub start_run : Step
  start_run v = ask (enable true) v >>= λ v0.
      let on_way = start_way v0 >>= λ (started, v1).
      if started then (start_running m >>> look_ahead) v1 else some v1 in
      let no_way = with_router (λ r. request_path m.out r >>= λ (_, r1). some r1) v0 in
      if is_auto v0
      then (if length v0.router.path_list == 0 then no_way else on_way)
      else look_ahead v0

  -- The timer of 10 ms. `same` is whether the lidar's numbers are those of the last call.
  unfoldable pub watch_position : Bool → Step
  watch_position same v =
      let (lost, k) = is_lidar_ok same m.max_time_of_lost_pos v.control in
      when lost (push urgent Event.ev_lost_position (pos 0)) (record v { control = k })

  unfoldable pub on_10ms_timer : Bool → Step
  on_10ms_timer same = (λ v. when v.is_init_complete (watch_position same) v) >>> λ v.
      if ltb 10 v.count
      then some (record v { count = 0; control = auto_set_barrier_distance v.control })
      else some (record v { count = v.count + 1 })

  unfoldable pub show_battery : Step
  show_battery v =
      let n = v.show_bat_timer + 1 in
      if ltb 5 n
      then ask (battery_capacity v.battery_capacity) (record v { show_bat_timer = 0 })
      else some (record v { show_bat_timer = n })

  unfoldable pub is_battery_low : Vehicle → Bool
  is_battery_low v =
      ((if ltb_ℤ m.alarm_voltage v.battery_voltage then false else true)
        || ltb_ℤ v.battery_capacity (pos 16))
      && ltb_ℤ (pos 0) v.battery_voltage

  -- The alarm after more than 20 seconds.
  unfoldable pub check_battery : Step
  check_battery v =
      let n = v.low_battery_alarm_times + 1 in
      let alarm =
        (ask (car_state 18) >>> set_status m status_low_power 4)
          (record v { low_battery_alarm_times = 0 }) in
      if is_battery_low v
      then (if ltb 20 n then alarm else some (record v { low_battery_alarm_times = n }))
      else some (record v { low_battery_alarm_times = 0 })

  -- Everything that is waited for is there, for the first time.
  unfoldable pub is_ready : Vehicle → Bool
  is_ready v =
      (if v.is_init_complete then false else true)
      && ((if v.car.error 2 then false else true)
          && ((if v.car.error 21 then false else true) && (v.is_lifter_init && is_known v)))

  unfoldable pub check_ready : Step
  check_ready v =
      if is_ready v
      then push normal Event.ev_sys_ready (pos 0) (record v { is_init_complete = true })
      else some v

  unfoldable pub synchronize : Step
  synchronize v =
      if ltb 60 v.request_syn_count
      then with_router (synchronize_time m.out) (record v { request_syn_count = 0 })
      else some (record v { request_syn_count = v.request_syn_count + 1 })

  unfoldable pub on_1s_timer : Step
  on_1s_timer = show_battery >>> (check_battery >>> (check_ready >>> synchronize))

  unfoldable pub reload : Step
  reload = with_router (λ r. reload_path_list m.read_back m.can_open r >>= λ (_, r1). some r1)

  -- The light and the voice while the lifter is being initialised.
  unfoldable pub start_lifter : Step
  start_lifter = ask init_lift >>> (ask (voice 21 255) >>> ask (rgb_light 3 2 0 0))

  unfoldable pub on_key_auto_mode : Step
  on_key_auto_mode v =
      let enter =
        set_mode auto
        >>> (ask (car_state 5)
            >>> (set_status m status_normal 0
                >>> (control (Controler.stop_car true)
                    >>> (ask (charge_switch false)
                        >>> (reload >>> λ v1.
                            when (if v1.is_lifter_init then false else true) start_lifter v1))))) in
      if is_auto v then some v else enter v

  unfoldable pub on_key_manual_mode : Step
  on_key_manual_mode v =
      let enter =
        set_mode manual
        >>> (ask (car_state 4)
            >>> (ask (charge_switch false)
                >>> (with_router (λ r. some (clean_last_station_point r))
                    >>> set_status m status_stopped 0))) in
      if is_manual v then some v else enter (record v { car = record v.car { stop_button = true } })

  unfoldable pub on_path_finished : Step
  on_path_finished =
      stop_all m false
      >>> (set_status m status_normal 3
          >>> (reload
              >>> (when m.is_auto_loop (push normal Event.ev_key_start (pos 0))
                  >>> ask (car_state 21))))

  unfoldable pub on_path_mag_error : ℤ → Step
  unfolding is_int
  on_path_mag_error param =
      stop_all m false
      >>> (if elim param [ negsuc n ↦ n == 4 | _ ↦ false ]
          then skip
          else ask (car_state 22) >>> set_status m status_error 27)

  unfoldable pub on_get_path : Stations → Step
  on_get_path list v = on_get_new_path m.can_open list v.router >>= λ (n, r).
      let v1 = record v { router = r } in
      if ltb_ℤ (pos 0) n then (set_status m status_stopped 0 >>> ask (car_state 19)) v1 else some v1

  -- What is called with the mode in which the car runs; OnBarrierMessage's number is not used.
  unfoldable pub on_barrier : ℕ → BarrierEvent → ℤ → Step
  on_barrier mode e param =
      test is_auto
        (on_car m λ c. on_barrier_message mode e (unsigned_of param) c >>= λ (_, c1). some c1) skip
