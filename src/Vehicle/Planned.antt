-- ===== src/Vehicle/Planned.antt =====
-- controler/AgvCar.cpp: the planner's indices under the steps of the car.
use hxdl_driving_control.Prelude.{
  ℕ, List, [], ◌∷◌, Bool, true, false, Option, none, some, if◌then◌else◌,
}
use hxdl_driving_control.Prelude.Int.{ℤ}
use hxdl_driving_control.Event.{EventList, important, ev_path_mag_error}
use hxdl_driving_control.Scheduler.{send_event}
use hxdl_driving_control.Route.Reports.{update_car_info}
use hxdl_driving_control.Route.Moves.{IsPlanned}
use hxdl_driving_control.Car.{
  Car, Command, CarStatus, ReportStatus, set_car_status, stop, play_voice, set_rgb_light, stop_car,
  lift_stop, set_enable, reset_last_target_station, show_current_car_state,
  update_car_info as report_car,
}
use hxdl_driving_control.Controler.{Controler, PathMag}
use hxdl_driving_control.Controler as Controler
use hxdl_driving_control.Vehicle.{
  Machine, Vehicle, Step, ◌>>>◌, skip, when, push, is_zero, announce, ret_of, set_target_station,
  reset_target, update, carry_out, carry_out_all, on_car, set_status, stop_all,
}
use hxdl_driving_control.Wire.After.{After, After-bind, After-if, After-any}

-- The planner of the car is planned.
abbrev pub Planned : Vehicle → Type 0
Planned v = IsPlanned v.router

abbrev pub Keeps : Step → Type 0
Keeps f = (v : Vehicle) → Planned v → After Planned (f v)

pub seq-Keeps : (f g : Step) → Keeps f → Keeps g → Keeps (f >>> g)
seq-Keeps f g hf hg v h = After-bind Planned Planned (f v) g (hf v h) hg

pub if-Keeps : (b : Bool) (f g : Step) → Keeps f → Keeps g → Keeps (if b then f else g)
if-Keeps true f g hf hg = hf
if-Keeps false f g hf hg = hg

pub skip-Keeps : Keeps skip
skip-Keeps v h = h

pub when-Keeps : (b : Bool) (f : Step) → Keeps f → Keeps (when b f)
when-Keeps b f hf = if-Keeps b f skip hf skip-Keeps

pub push-Keeps : (priority : ℤ) (event : EventList) (param : ℤ) → Keeps (push priority event param)
unfolding push
push-Keeps priority event param v h =
    After-any Planned (send_event priority event param none v.router.scheduler) _ (λ s. h)

-- A step that leaves the planner alone.
pub after-Keeps :
    (f : Vehicle → Vehicle) → ((v : Vehicle) → Planned v → Planned (f v)) → Keeps (λ v. some (f v))
after-Keeps f k v h = k v h

module _ (m : Machine) where
  announce-Keeps : (p : PathMag) → Keeps (announce m p)
  unfolding announce
  announce-Keeps p =
      if-Keeps (is_zero (m.split_error p)) skip _ skip-Keeps
        (push-Keeps important ev_path_mag_error (m.split_error p))

  pub set_target_station-Keeps :
      (p : PathMag) (v : Vehicle)
      → Planned v
      → After (λ (r : ℤ × Vehicle). Planned r.1) (set_target_station m p v)
  unfolding set_target_station
  set_target_station-Keeps p v h =
      let (ret, k) = Controler.set_target_station (ret_of m) p v.control in
      After-bind Planned (λ (r : ℤ × Vehicle). Planned r.1)
        (announce m p (record v { control = k })) _ (announce-Keeps p (record v { control = k }) h)
        (λ v1 h1. h1)

  pub reset_target-Keeps : Keeps (reset_target m)
  unfolding reset_target
  reset_target-Keeps v h =
      let k0 = v.control.last_path_mag in
      let (ret, k) = Controler.reset_last_target_station (ret_of m) v.control in
      After-if Planned (is_zero k0.station) (some (record v { control = k })) _ h
        (announce-Keeps (record k0 { lift_height = k0.action }) (record v { control = k }) h)

  update-Keeps : (status : ReportStatus) → Keeps (update m status)
  unfolding update update_car_info
  update-Keeps status v h = h

  carry_out-Keeps : (c : Command) → Keeps (carry_out m c)
  unfolding carry_out
  carry_out-Keeps (play_voice id count) v h = h
  carry_out-Keeps (set_rgb_light side red green blue) v h = h
  carry_out-Keeps (stop_car en_break) v h = h
  carry_out-Keeps lift_stop v h = h
  carry_out-Keeps (set_enable on) v h = h
  carry_out-Keeps reset_last_target_station v h = reset_target-Keeps v h
  carry_out-Keeps (show_current_car_state n) v h = h
  carry_out-Keeps (report_car status) v h = update-Keeps status v h

  carry_out_all-Keeps : (cs : List Command) → Keeps (carry_out_all m cs)
  unfolding carry_out_all
  carry_out_all-Keeps [] v h = h
  carry_out_all-Keeps (c ∷ cs) v h =
      seq-Keeps (carry_out m c) (carry_out_all m cs) (carry_out-Keeps c) (carry_out_all-Keeps cs) v
        h

  pub on_car-Keeps : (f : Car → Option Car) → Keeps (on_car m f)
  unfolding on_car
  on_car-Keeps f v h =
      After-any Planned (f (record v.car { commands = [] })) _
        (λ c. carry_out_all-Keeps c.commands (record v { car = record c { commands = [] } }) h)

  pub set_status-Keeps : (status : CarStatus) (para : ℕ) → Keeps (set_status m status para)
  unfolding set_status
  set_status-Keeps status para = on_car-Keeps (set_car_status status para)

  pub stop_all-Keeps : (all : Bool) → Keeps (stop_all m all)
  unfolding stop_all
  stop_all-Keeps all = on_car-Keeps (stop all)
