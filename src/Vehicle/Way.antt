-- ===== src/Vehicle/Way.antt =====
-- controler/AgvCar.cpp: the planner's indices under the calls for the way points.
use hxdl_driving_control.Prelude.{
  inl, inr, ◌∙◌, ap, Bool, true, false, Option, some, arith, length, length-set, eq_nil,
  if◌then◌else◌, Bool-cases,
}
use hxdl_driving_control.Prelude.Int.{ℤ, pos, negsuc, pos_part}
use hxdl_driving_control.Event.{urgent, ev_near_barrier, ev_mid_barrier, ev_far_barrier}
use hxdl_driving_control.Route.{WayPoint, RoutePlanner}
use hxdl_driving_control.Route.Positions.{
  get_target_station, move_to_next_station, move_to_last_station,
}
use hxdl_driving_control.Route.Reports.{set_target_station}
use hxdl_driving_control.Route.Moves.{IsPlanned}
use hxdl_driving_control.Route.Invariant.{Step-IsPlanned, next as next_call, last as last_call}
use hxdl_driving_control.Car.{status_running}
use hxdl_driving_control.Controler.{car_state}
use hxdl_driving_control.Vehicle.{Machine, Vehicle, ◌>>>◌, ask, set_target_station as drive_to}
use hxdl_driving_control.Wire.After.{After, After-bind, After-if, After-any}
use hxdl_driving_control.Vehicle.Planned.{
  Planned, Keeps, seq-Keeps, when-Keeps, push-Keeps, set_status-Keeps, set_target_station-Keeps,
}
use hxdl_driving_control.Vehicle.Points.{
  Transfer, transfer, go_back, keep, hand_over, settle, with_router, repeat_barriers, peek, jump,
  choose_point, note_stop, speed_for, lifts_on_way, lift_on_way, is_driven, order_of, go,
  note_action, set_out, note_point, drive_to_target, go_to_next_point,
}
use hxdl_driving_control.Vehicle.Points.Actions.{start_running, run_on}

-- A step of the planner.
abbrev pub KeepsRoute : (RoutePlanner → Option RoutePlanner) → Type 0
KeepsRoute f = (r : RoutePlanner) → IsPlanned r → After IsPlanned (f r)

pub with_router-Keeps :
    (f : RoutePlanner → Option RoutePlanner) → KeepsRoute f → Keeps (with_router f)
with_router-Keeps f hf v h =
    After-bind IsPlanned Planned (f v.router) (λ r. some (record v { router = r })) (hf v.router h)
      (λ r k. k)

-- A point is written over another.
set_target_station-IsPlanned :
    (p : WayPoint) (r : RoutePlanner) → IsPlanned r → IsPlanned (set_target_station p r)
unfolding set_target_station
set_target_station-IsPlanned p r (t, target, last_is, inl h) =
    (t, target, last_is, inl (omega (arith, length-set r.path_list (pos_part r.target_path_id) p)))
set_target_station-IsPlanned p r (t, target, last_is, inr (z, e)) = (
  t,
  target,
  last_is,
  inr (z, eq_nil _ (length-set r.path_list (pos_part r.target_path_id) p ∙ ap length e)),
)

lift_on_way-Keeps : (p : WayPoint) → Keeps (lift_on_way p)
unfolding lift_on_way
lift_on_way-Keeps p v h = elim (Bool-cases (lifts_on_way p)) [
  | inl lifts ↦ rw lifts (set_target_station-IsPlanned (record p { action = pos 4 }) v.router h)
  | inr stays ↦ rw stays h
]

-- A number with the planner, or with the car.
abbrev RouteAfter : {A : Type 0} → A × RoutePlanner → Type 0
RouteAfter (_, r) = IsPlanned r

abbrev pub CarAfter : ℤ × Vehicle → Type 0
CarAfter (_, v) = Planned v

module _ (m : Machine) where
  moved-IsPlanned :
      (r : RoutePlanner) → IsPlanned r → IsPlanned (move_to_next_station m.can_open r).1
  moved-IsPlanned r h = Step-IsPlanned {out = m.out} (next_call m.can_open) h

  back-IsPlanned :
      (r : RoutePlanner) → IsPlanned r → IsPlanned (move_to_last_station m.can_open r).1
  back-IsPlanned r h = Step-IsPlanned {out = m.out} (last_call m.can_open) h

  peek-Keeps :
      (r : RoutePlanner)
      → IsPlanned r
      → After (λ (o : Option WayPoint × RoutePlanner). IsPlanned o.1) (peek m r)
  unfolding peek
  peek-Keeps r h =
      let r1 = (move_to_next_station m.can_open r).1 in
      let h1 = moved-IsPlanned r h in
      After-if (λ (o : Option WayPoint × RoutePlanner). IsPlanned o.1)
        (move_to_next_station m.can_open r).0 _ _
        (After-any (λ (o : Option WayPoint × RoutePlanner). IsPlanned o.1) (get_target_station r1) _
          (λ p. back-IsPlanned r1 h1))
        h1

  settle-IsPlanned :
      (z : Transfer) (next : WayPoint) (r : RoutePlanner)
      → IsPlanned r
      → IsPlanned (settle m z next r)
  unfolding settle
  settle-IsPlanned go_back next r h = back-IsPlanned r h
  settle-IsPlanned keep next r h = h
  settle-IsPlanned (hand_over height) next r h =
      set_target_station-IsPlanned (record next { lift_height = height }) r h

  jump-Keeps : (p : WayPoint) → KeepsRoute (jump m p)
  unfolding jump
  jump-Keeps p r h =
      let r1 = (move_to_next_station m.can_open r).1 in
      After-any IsPlanned (get_target_station r1) _ (λ next.
        settle-IsPlanned (transfer p.lift_height next.lift_height) next r1 (moved-IsPlanned r h))

  choose_point-Keeps : (is_first : Bool) → KeepsRoute (choose_point m is_first)
  unfolding choose_point
  choose_point-Keeps is_first r h = After-any IsPlanned (get_target_station r) _ (λ p.
      After-bind (λ (o : Option WayPoint × RoutePlanner). IsPlanned o.1) IsPlanned (peek m r) _
        (peek-Keeps r h)
        (λ (next, r1) h1. After-if IsPlanned _ (jump m p r1) (some r1) (jump-Keeps p r1 h1) h1))

  note_stop-Keeps : KeepsRoute (note_stop m)
  unfolding note_stop
  note_stop-Keeps r h = After-any IsPlanned (get_target_station r) _ (λ p.
      After-if IsPlanned _ _ (some r)
        (After-bind (λ (o : Option WayPoint × RoutePlanner). IsPlanned o.1) IsPlanned (peek m r) _
          (peek-Keeps r h) (λ (next, r1) h1. set_target_station-IsPlanned _ r1 h1))
        h)

  note_action-Keeps : KeepsRoute (note_action m)
  unfolding note_action
  note_action-Keeps r h = After-any IsPlanned (get_target_station r) _ (λ p.
      After-bind (λ (o : Option WayPoint × RoutePlanner). IsPlanned o.1) IsPlanned (peek m r) _
        (peek-Keeps r h) (λ (next, r1) h1. set_target_station-IsPlanned _ r1 h1))

  set_out-Keeps : (speed : ℤ) (v : Vehicle) → Planned v → After CarAfter (set_out m speed v)
  unfolding set_out
  set_out-Keeps speed v h = After-any CarAfter (get_target_station v.router) _ (λ p.
      After-if CarAfter (is_driven p) (drive_to m (order_of p speed) v) (some (negsuc 0, v))
        (set_target_station-Keeps m (order_of p speed) v h) h)

  drive_to_target-Keeps : (v : Vehicle) → Planned v → After CarAfter (drive_to_target m v)
  unfolding drive_to_target
  drive_to_target-Keeps v h = After-any CarAfter (get_target_station v.router) _ (λ p.
      After-bind Planned CarAfter (with_router (note_stop m) (note_point p v)) _
        (with_router-Keeps (note_stop m) note_stop-Keeps (note_point p v) h)
        (λ v1 h1. After-any CarAfter (get_target_station v1.router) _ (λ q.
          After-bind Planned CarAfter
            ((lift_on_way q >>> (ask (car_state 20) >>> with_router (note_action m))) v1) _
            (seq-Keeps (lift_on_way q) (ask (car_state 20) >>> with_router (note_action m))
              (lift_on_way-Keeps q)
              (seq-Keeps (ask (car_state 20)) (with_router (note_action m)) (λ w k. k)
                (with_router-Keeps (note_action m) note_action-Keeps))
              v1 h1)
            (λ v2 h2. set_out-Keeps (speed_for m q v) v2 h2))))

  pub go_to_next_point-Keeps :
      (is_first : Bool) (v : Vehicle) → Planned v → After CarAfter (go_to_next_point m is_first v)
  unfolding go_to_next_point
  go_to_next_point-Keeps is_first v h =
      let (moved, r) = move_to_next_station m.can_open v.router in
      let v1 = if is_first then v else record v { router = r } in
      let h1 : Planned v1 =
        elim is_first as (λ b. Planned (if b then v else record v { router = r })) [
          | true ↦ h
          | false ↦ moved-IsPlanned v.router h
        ] in
      After-if CarAfter _ (some (pos 1, v1)) _ h1 (
        After-bind Planned CarAfter (with_router (choose_point m is_first) v1) (drive_to_target m)
          (with_router-Keeps (choose_point m is_first) (choose_point-Keeps is_first) v1 h1)
          drive_to_target-Keeps)

  pub repeat_barriers-Keeps : Keeps repeat_barriers
  unfolding repeat_barriers
  repeat_barriers-Keeps =
      seq-Keeps _ _
        (λ v. when-Keeps (v.car.error 8) _ (push-Keeps urgent ev_near_barrier (pos 0)) v)
        (seq-Keeps _ _
          (λ v. when-Keeps (v.car.error 9) _ (push-Keeps urgent ev_mid_barrier (pos 0)) v)
          (λ v. when-Keeps (v.car.error 10) _ (push-Keeps urgent ev_far_barrier (pos 0)) v))

  pub start_running-Keeps : Keeps (start_running m)
  unfolding start_running
  start_running-Keeps =
      seq-Keeps go _ (λ v h. h) (λ v. set_status-Keeps m status_running (pos_part v.car_run_mode) v)

  pub run_on-Keeps : Keeps (run_on m)
  unfolding run_on
  run_on-Keeps =
      seq-Keeps (start_running m) repeat_barriers start_running-Keeps repeat_barriers-Keeps
