-- ===== src/Vehicle/Points.antt =====
-- controler/AgvCar.cpp: the way points. GoToNextPoint, GetRunAction, WhetherJumpCurPoint, and the actions
-- at a station.
pub mod Actions
use hxdl_driving_control.Prelude.{Bool, true, false, ◌&&◌, ◌||◌, Option, none, some, if◌then◌else◌}
use hxdl_driving_control.Prelude.Int.{ℤ, pos, negsuc, ◌-ℤ◌, ltb_ℤ, pos_part}
use hxdl_driving_control.Wire.{◌>>=◌}
use hxdl_driving_control.Event.{
  important, urgent, ev_path_finished, ev_path_mag_error, ev_near_barrier, ev_mid_barrier,
  ev_far_barrier,
}
use hxdl_driving_control.Route.{WayPoint, RoutePlanner}
use hxdl_driving_control.Route.Positions.{
  get_target_station, move_to_next_station, move_to_last_station,
}
use hxdl_driving_control.Route.Reports.{set_target_station, on_action_finished}
use hxdl_driving_control.Car.{status_running}
use hxdl_driving_control.Move.{is_int}
use hxdl_driving_control.Controler.{
  PathMag, charge_switch, car_state, arrived, target_height, set_lift_height,
}
use hxdl_driving_control.Vehicle.{
  Machine, Vehicle, Step, ◌>>>◌, when, ask, push, set_status, stop_all, is_zero,
  set_target_station as drive_to,
}

-- `x == y`.
unfoldable pub same_int : ℤ → ℤ → Bool
same_int x y = if ltb_ℤ x y || ltb_ℤ y x then false else true

-- `x >= 0`.
unfoldable pub is_set : ℤ → Bool
is_set (pos n) = true
is_set (negsuc n) = false

-- The height of a point that was jumped, against the next one's: the planner goes back when both are set
-- and differ, and the next point takes a height that only the former has.
pub data Transfer : Type 0 where
  go_back keep : Transfer
  hand_over : ℤ → Transfer

unfoldable pub transfer : ℤ → ℤ → Transfer
unfolding is_set same_int
transfer height next =
    if is_set height && (is_set next && (if same_int height next then false else true))
    then go_back
    else if is_set height && (if is_set next then false else true)
    then hand_over height
    else keep

abbrev pub with_router : (RoutePlanner → Option RoutePlanner) → Step
with_router f v = f v.router >>= λ r. some (record v { router = r })

abbrev pub go : Step
go v = some (record v { car = record v.car { stop_button = false } })

-- The lift on the way: a point that has a height becomes one at which it is reached.
unfoldable pub lifts_on_way : WayPoint → Bool
unfolding is_set is_int
lifts_on_way p = (if is_int 4 p.action then false else true) && is_set p.lift_height

abbrev pub lifted : WayPoint → Vehicle → Vehicle
lifted p v =
    let (there, k) = arrived p.lift_height (target_height p.lift_height v.control) in
    record v {
      control = if there then k else set_lift_height p.lift_height k;
      router = set_target_station (record p { action = pos 4 }) v.router;
    }

unfoldable pub lift_on_way : WayPoint → Step
lift_on_way p v = some (
    if lifts_on_way p
    then lifted p v
    else record v { control = target_height p.lift_height v.control })

unfoldable pub is_driven : WayPoint → Bool
unfolding is_int
is_driven p =
    is_int 1 p.run_mode || (is_int 2 p.run_mode || (is_int 5 p.run_mode || is_int 6 p.run_mode))

-- The arguments of SetTargetStation. An angle is not negative here.
unfoldable pub order_of : WayPoint → ℤ → PathMag
unfolding is_int
order_of p speed = record {
  station = p.id;
  mode = p.run_mode;
  speed = speed;
  x_pos = p.x_pos;
  y_pos = p.y_pos;
  angle = if is_int 5 p.run_mode then pos 0 -ℤ pos p.angle else pos p.angle;
  radius = p.radius;
  action = p.action;
  lift_height = p.lift_height;
}

abbrev pub note_point : WayPoint → Vehicle → Vehicle
note_point p v = record v { current_path_id = p.id; car_run_mode = p.run_mode }

-- The barriers that are still there are brought up again.
unfoldable pub repeat_barriers : Step
repeat_barriers =
    (λ v. when (v.car.error 8) (push urgent ev_near_barrier (pos 0)) v)
    >>> ((λ v. when (v.car.error 9) (push urgent ev_mid_barrier (pos 0)) v)
        >>> (λ v. when (v.car.error 10) (push urgent ev_far_barrier (pos 0)) v))

module _ (m : Machine) where
  -- The way point after the target, if there is one: the planner moves there and back.
  unfoldable pub peek : RoutePlanner → Option (Option WayPoint × RoutePlanner)
  peek r =
      let (moved, r1) = move_to_next_station m.can_open r in
      if moved
      then (get_target_station r1 >>= λ next.
          some (some next, (move_to_last_station m.can_open r1).1))
      else some (none, r1)

  unfoldable pub whether_jump : WayPoint → Option WayPoint → Bool
  unfolding same_int is_int
  whether_jump p none = false
  whether_jump p (some next) =
      let must_stay =
        is_int 5 next.action
        || ((if same_int p.run_mode next.run_mode then false else true)
            || (is_int 4 next.action && is_int 2 next.run_mode)) in
      if must_stay
      then false
      else m.is_straight p next && (if is_int 4 p.action then false else true)

  unfoldable pub get_run_action : WayPoint → Option WayPoint → ℤ
  unfolding same_int is_int
  get_run_action p none = p.action
  get_run_action p (some next) =
      let slow =
        if m.is_far_ahead p next && same_int p.run_mode next.run_mode then false else true in
      let action =
        if (is_int 0 p.action && slow) || is_int 5 next.action then pos 2 else p.action in
      if is_int 4 next.action then pos 1 else action

  -- A point to run through becomes one to stop at where the mode changes and at the end.
  unfoldable pub stop_action : WayPoint → Option WayPoint → ℤ
  unfolding same_int is_int
  stop_action p none = pos 1
  stop_action p (some next) = if same_int next.run_mode p.run_mode then p.action else pos 1

  unfoldable pub settle : Transfer → WayPoint → RoutePlanner → RoutePlanner
  settle go_back next r = (move_to_last_station m.can_open r).1
  settle keep next r = r
  settle (hand_over height) next r = set_target_station (record next { lift_height = height }) r

  -- The jump of a point on a straight line; the point is the target, and not the first.
  unfoldable pub jump : WayPoint → RoutePlanner → Option RoutePlanner
  jump p r =
      let r1 = (move_to_next_station m.can_open r).1 in
      get_target_station r1 >>= λ next.
      some (settle (transfer p.lift_height next.lift_height) next r1)

  unfoldable pub choose_point : Bool → RoutePlanner → Option RoutePlanner
  choose_point is_first r = get_target_station r >>= λ p. peek r >>= λ (next, r1).
      if whether_jump p next && (if is_first then false else true) then jump p r1 else some r1

  -- The action of the target when it is to run through.
  unfoldable pub note_stop : RoutePlanner → Option RoutePlanner
  unfolding is_int
  note_stop r = get_target_station r >>= λ p.
      let looked = peek r >>= λ (next, r1).
      some (set_target_station (record p { action = stop_action p next }) r1) in
      if is_int 0 p.action then looked else some r

  unfoldable pub speed_for : WayPoint → Vehicle → ℤ
  unfolding is_int
  speed_for p v =
      if is_int 1 p.run_mode
      then (if is_int 0 v.speed_form_server then m.forward_speed else v.speed_form_server)
      else if is_int 2 p.run_mode
      then m.backward_speed
      else pos 0

  unfoldable pub note_action : RoutePlanner → Option RoutePlanner
  note_action r = get_target_station r >>= λ p. peek r >>= λ (next, r1).
      some (set_target_station (record p { action = get_run_action p next }) r1)

  unfoldable pub set_out : ℤ → Vehicle → Option (ℤ × Vehicle)
  set_out speed v = get_target_station v.router >>= λ p.
      if is_driven p then drive_to m (order_of p speed) v else some (negsuc 0, v)

  -- From the point that was chosen to the order to drive there.
  unfoldable pub drive_to_target : Vehicle → Option (ℤ × Vehicle)
  drive_to_target v = get_target_station v.router >>= λ p.
      with_router note_stop (note_point p v) >>= λ v1. get_target_station v1.router >>= λ q.
      (lift_on_way q >>> (ask (car_state 20) >>> with_router note_action)) v1 >>= λ v2.
      set_out (speed_for q v) v2

  -- GoToNextPoint: 1 at the end of the path, 0 or what SetTargetStation returns, or -1.
  unfoldable pub go_to_next_point : Bool → Vehicle → Option (ℤ × Vehicle)
  go_to_next_point is_first v =
      let (moved, r) = move_to_next_station m.can_open v.router in
      let v1 = if is_first then v else record v { router = r } in
      if (if is_first then false else true) && (if moved then false else true)
      then some (pos 1, v1)
      else (with_router (choose_point is_first) v1 >>= drive_to_target)
