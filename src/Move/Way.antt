-- ===== src/Move/Way.antt =====
-- controler/AgvMoveHelperForklift.cpp: SetTarget and LoopRunning.
use hxdl_driving_control.Prelude.{
  inl, inr, suc, [], ◌∷◌, ◌++◌, true, false, ◌&&◌, ◌||◌, Option, some, ltb, if◌then◌else◌,
}
use hxdl_driving_control.Prelude.Int.{ℤ, pos, negsuc, ltb_ℤ}
use hxdl_driving_control.Wire.{◌>>=◌}
use hxdl_driving_control.Event.{important, ev_path_mag_error, ev_next_path_point}
use hxdl_driving_control.Sensor.{event_of}
use hxdl_driving_control.Move.{
  is_int, stop_mode, is_rotate_mode, Pose, Floats, MoveHelper, Order, Split, Steered, is_steered,
  plan, point_of, send, clear_subpath, take_leg, stop_base, set_break,
}

module _ {F : Type 0} (fl : Floats F) where
  -- The end of SetTarget: the target is noted, and the first leg is driven.
  unfoldable pub begin_way : Pose F → Order F → MoveHelper F → Option (ℤ × MoveHelper F)
  unfolding take_leg point_of
  begin_way current o h =
      take_leg fl 0 current (record h { target_point = point_of o h.target_point.need_stop })
      >>= λ h1. some (
        pos 0,
        record h1 {
          is_running = true;
          wheels = record h1.wheels { init_para_flag = false; is_change_speed_init = false };
        },
      )

  -- SetTarget, with the two routines that make legs and the pose of the car.
  unfoldable pub set_target :
      (Pose F → Order F → Split F)
      → (Pose F → Order F → Split F)
      → Pose F
      → Order F
      → MoveHelper F
      → Option (ℤ × MoveHelper F)
  unfolding clear_subpath
  set_target split adjust current o h =
      let h1 =
        clear_subpath fl (record h { car_running_mode = o.mode; max_speed_allowed = o.speed }) in
      elim (plan split adjust current o h1) [
        | inl (code, h2) ↦ some (negsuc 0, send (event_of important ev_path_mag_error code) h2)
        | inr h2 ↦ begin_way current o h2
      ]

  -- What is done at the end of the last leg.
  unfoldable pub arrive : MoveHelper F → MoveHelper F
  unfolding is_int is_rotate_mode clear_subpath
  arrive h =
      let p = h.target_point in
      let orders =
        if (is_int 4 p.action && is_int 2 h.wheels.running_mode) || is_int 5 p.action
        then stop_base true ∷ []
        else if is_int 1 p.action && (if is_rotate_mode p.mode then false else true)
        then stop_base false ∷ set_break true ∷ []
        else [] in
      send (event_of important ev_next_path_point p.station) (
        clear_subpath fl (record h {
          told = h.told ++ orders;
          wheels = record h.wheels { running_mode = stop_mode };
          path_index = 0;
        }))

  -- What follows the routine's call: the next leg, the end of the way, an error, or nothing.
  unfoldable pub follow : Pose F → ℤ → MoveHelper F → Option (MoveHelper F)
  unfolding is_int
  follow current ret h =
      if is_int 1 ret
      then (if ltb (suc h.path_index) h.subpath_size
          then take_leg fl (suc h.path_index) current h
          else some (arrive h))
      else if ltb_ℤ ret (pos 0)
      then some (send (event_of important ev_path_mag_error ret) h)
      else some h

  abbrev pub steered_by : Steered F → MoveHelper F → MoveHelper F
  steered_by s h = record h { wheels = s.wheels; told = h.told ++ s.told }

  -- LoopRunning, with the routine for the running mode and the pose after it.
  unfoldable pub loop_running :
      (Pose F → MoveHelper F → Steered F) → Pose F → Pose F → MoveHelper F → Option (MoveHelper F)
  loop_running steer current current' h =
      let s = steer current h in
      if h.is_running
      then (if is_steered h.wheels.running_mode
          then follow current' s.ret (steered_by s h)
          else some h)
      else some h
