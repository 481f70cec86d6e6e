-- ===== src/Vehicle.antt =====
-- controler/AgvCar.cpp with its controler and its planner: the state that HandleEvent works on, and the
-- steps that its handlers are made of. What the car's functions ask of the controler and of the planner
-- (a list of commands) is carried out in their order as soon as they return; none of them reads what it
-- asked for. The constants of the settings, the tests on poses, which are computed with floats, and what
-- is not of this program are `Machine`.
pub mod Points
pub mod Handler
pub mod Dispatch
pub mod Planned
pub mod Way
pub mod Stations
pub mod Events
pub mod Row
pub mod Halt
use hxdl_driving_control.Prelude.{
  ℕ, List, [], ◌∷◌, Bool, true, false, Option, none, some, ◌==◌, if◌then◌else◌,
}
use hxdl_driving_control.Prelude.Int.{ℤ, pos, negsuc}
use hxdl_driving_control.Wire.{◌>>=◌}
use hxdl_driving_control.Event.{EventList, important, ev_path_mag_error}
use hxdl_driving_control.Scheduler.{Outside, send_event}
use hxdl_driving_control.Route.{Line, WayPoint, RoutePlanner}
use hxdl_driving_control.Route.Reports.{update_car_info}
use hxdl_driving_control.Car.{
  Car, CarStatus, Command, OperateMode, ReportStatus, set_car_status, stop, play_voice,
  set_rgb_light, stop_car, lift_stop, set_enable, reset_last_target_station, show_current_car_state,
  update_car_info as report_car, set_error_flag, clear_error_flag, running, stopped, break_down,
  obstacle, derailed, manual_mode, low_power, starting, idle,
}
use hxdl_driving_control.Controler.{
  Controler, PathMag, Told, tell, voice, rgb_light, enable, car_state, set_target,
}
use hxdl_driving_control.Controler as Controler

-- The error code of a target that the helper cannot split is not 0; `enable_ret` is what SetEnable
-- returns, and `thread_ret` what the start of the scheduler's thread returns. `is_far_ahead p q` and `is_straight p q` are the tests of GetRunAction and WhetherJumpCurPoint
-- on two poses, without the modes and actions; `speed_of` is OnStationMessage's.
pub record Machine : Type 0 where
  pub out : Outside
  pub can_open : Bool
  pub read_back : Line → Option Line
  pub agv_id : ℕ
  pub thread_ret : ℤ
  pub split_error : PathMag → ℤ
  pub enable_ret : ℤ
  pub is_far_ahead : WayPoint → WayPoint → Bool
  pub is_straight : WayPoint → WayPoint → Bool
  pub speed_of : ℤ → ℤ
  pub forward_speed : ℤ
  pub backward_speed : ℤ
  pub alarm_voltage : ℤ
  pub max_time_of_lost_pos : ℕ
  pub is_stop_car_for_sche_off_line : Bool
  pub is_auto_loop : Bool

-- `online` is whether the planner's thread was started; the last four are static counters.
pub record Vehicle : Type 0 where
  pub car : Car
  pub control : Controler
  pub router : RoutePlanner
  pub online : Bool
  pub x_pos : ℤ
  pub y_pos : ℤ
  pub angle : ℤ
  pub speed : ℤ
  pub battery_voltage : ℤ
  pub battery_capacity : ℤ
  pub car_electricity : ℤ
  pub speed_form_server : ℤ
  pub current_path_action : ℤ
  pub current_path_id : ℤ
  pub car_run_mode : ℤ
  pub is_init_complete : Bool
  pub is_lifter_init : Bool
  pub count : ℕ
  pub show_bat_timer : ℕ
  pub low_battery_alarm_times : ℕ
  pub request_syn_count : ℕ

-- `none` is a fault.
abbrev pub Step : Type 0
Step = Vehicle → Option Vehicle

infixr 6 ◌>>>◌
abbrev pub ◌>>>◌ : Step → Step → Step
(f >>> g) v = f v >>= g

abbrev pub skip : Step
skip v = some v

abbrev pub when : Bool → Step → Step
when b f = if b then f else skip

-- A step of the controler alone, of the car's flags alone, and of the other members.
abbrev pub control : (Controler → Controler) → Step
control f v = some (record v { control = f v.control })

abbrev pub with_car : (Car → Car) → Step
with_car f v = some (record v { car = f v.car })

abbrev pub ask : Told → Step
ask order = control (tell (order ∷ []))

-- The numbers of CAgvScheduler's status.
unfoldable pub number_of : ReportStatus → ℕ
number_of running = 0
number_of stopped = 1
number_of break_down = 2
number_of obstacle = 3
number_of derailed = 4
number_of manual_mode = 8
number_of low_power = 9
number_of starting = 10
number_of idle = 11

-- An event for the handlers.
unfoldable pub push : ℤ → EventList → ℤ → Step
push priority event param v = send_event priority event param none v.router.scheduler >>= λ (_, s).
    some (record v { router = record v.router { scheduler = s } })

unfoldable pub is_zero : ℤ → Bool
is_zero (pos n) = n == 0
is_zero (negsuc n) = false

module _ (m : Machine) where
  unfoldable pub ret_of : PathMag → ℤ
  ret_of p = if is_zero (m.split_error p) then pos 0 else negsuc 0

  -- SetTarget of the helper sends an event when it fails.
  unfoldable pub announce : PathMag → Step
  announce p =
      if is_zero (m.split_error p) then skip else push important ev_path_mag_error (m.split_error p)

  unfoldable pub set_target_station : PathMag → Vehicle → Option (ℤ × Vehicle)
  set_target_station p v =
      let (ret, k) = Controler.set_target_station ret_of p v.control in
      announce p (record v { control = k }) >>= λ v1. some (ret, v1)

  -- Nothing is announced when there is no last target.
  unfoldable pub reset_target : Step
  reset_target v =
      let k0 = v.control.last_path_mag in
      let (ret, k) = Controler.reset_last_target_station ret_of v.control in
      if is_zero k0.station
      then some (record v { control = k })
      else announce (record k0 { lift_height = k0.action }) (record v { control = k })

  unfoldable pub update : ReportStatus → Step
  update status v = some (record v {
    router =
        update_car_info v.x_pos v.y_pos v.angle v.speed v.battery_capacity (pos (number_of status))
          v.router;
  })

  unfoldable pub carry_out : Command → Step
  carry_out (play_voice id count) = ask (voice id count)
  carry_out (set_rgb_light side red green blue) = ask (rgb_light side red green blue)
  carry_out (stop_car en_break) = control (Controler.stop_car en_break)
  carry_out lift_stop = skip
  carry_out (set_enable on) = ask (enable on)
  carry_out reset_last_target_station = reset_target
  carry_out (show_current_car_state n) = ask (car_state n)
  carry_out (report_car status) = update status

  unfoldable pub carry_out_all : List Command → Step
  carry_out_all [] = skip
  carry_out_all (c ∷ cs) = carry_out c >>> carry_out_all cs

  -- A function of the car, and then what it asked for.
  unfoldable pub on_car : (Car → Option Car) → Step
  on_car f v = f (record v.car { commands = [] }) >>= λ c.
      carry_out_all c.commands (record v { car = record c { commands = [] } })

  unfoldable pub set_status : CarStatus → ℕ → Step
  set_status status para = on_car (set_car_status status para)

  unfoldable pub stop_all : Bool → Step
  stop_all all = on_car (stop all)
