-- ===== src/Controler/Again.antt =====
-- controler/AgvCarControler.cpp: ResetLastTargetStation after any calls of the controler.
use hxdl_driving_control.Prelude.{ℕ, List, [], ◌∷◌, Bool}
use hxdl_driving_control.Prelude.Int.{ℤ}
use hxdl_driving_control.Car.{OperateMode}
use hxdl_driving_control.Controler.{
  Controler, PathMag, no_path_mag, clean_last_path_mag, set_target_station,
  reset_last_target_station, stop_car, set_operate_mode, is_lidar_ok, auto_set_barrier_distance,
  arrived, target_height, set_lift_height,
}

-- The order that is given again.
abbrev pub again : PathMag → PathMag
again p = record p { lift_height = p.action }

-- The calls of the controler.
pub data Call : Type 0 where
  ordered_to : PathMag → Call
  ordered_again cleaned looked : Call
  stopped : Bool → Call
  switched : OperateMode → Call
  watched : Bool → ℕ → Call
  lifted aimed asked : ℤ → Call

module _ (ret_of : PathMag → ℤ) where
  unfoldable pub do_call : Call → Controler → Controler
  do_call (ordered_to p) k = (set_target_station ret_of p k).1
  do_call ordered_again k = (reset_last_target_station ret_of k).1
  do_call cleaned k = clean_last_path_mag k
  do_call looked k = auto_set_barrier_distance k
  do_call (stopped en_break) k = stop_car en_break k
  do_call (switched mode) k = set_operate_mode mode k
  do_call (watched same limit) k = (is_lidar_ok same limit k).1
  do_call (lifted height) k = set_lift_height height k
  do_call (aimed height) k = target_height height k
  do_call (asked height) k = (arrived height k).1

  -- The newest call stands first.
  unfoldable pub do_calls : List Call → Controler → Controler
  do_calls [] k = k
  do_calls (call ∷ earlier) k = do_call call (do_calls earlier k)

-- The order that a call leaves to be repeated, and a row of them.
abbrev pub kept_by : Call → PathMag → PathMag
kept_by (ordered_to p) q = p
kept_by cleaned q = no_path_mag
kept_by _ q = q

abbrev pub last_order : List Call → PathMag → PathMag
last_order [] q = q
last_order (call ∷ earlier) q = kept_by call (last_order earlier q)
