-- ===== src/Tests/Routes.antt =====
-- The planner of controler/AgvRoutePlanner.cpp on a path of two stations.
use hxdl_driving_control.Prelude.{◌≡◌, refl, inl, [], ◌∷◌, ◌++◌, true, false, none, some, arith}
use hxdl_driving_control.Prelude.Int.{pos, negsuc}
use hxdl_driving_control.Messages.Path.{StationInfo}
use hxdl_driving_control.Route.{WayPoint, Setting, RoutePlanner, on_get_new_path}
use hxdl_driving_control.Route.Positions.{
  move_to_next_station, move_to_last_station, clean_last_station_point,
}
use hxdl_driving_control.Route.Moves.{IsPlanned}
use hxdl_driving_control.Route.Invariant.{next, last, clean, rest, call, Run-IsPlanned}
use hxdl_driving_control.Route.NewPath.{on_get_new_path-overrun}
use hxdl_driving_control.Tests.Scheduling.{outside, resting}

abbrev station : StationInfo
station = record {
  id = 12;
  x_pos = 100000;
  y_pos = 200;
  path_angle = 9000;
  turn_radius = 0;
  mode = 1;
  action = 0;
  lift_height = 0;
}

-- A mode without a name.
abbrev unnamed : StationInfo
unnamed = record station { mode = 13 }

abbrev point : WayPoint
point = record {
  id = pos 12;
  card_id = pos 0;
  x_pos = pos 100000;
  y_pos = pos 200;
  angle = 9000;
  radius = pos 0;
  run_mode = pos 1;
  action = pos 0;
  lift_height = pos 0;
  action_finish = false;
}

abbrev setting : Setting
setting = record {
  path_point_count = 0;
  target_point_id = pos 0;
  last_point_id = negsuc 0;
  saved_target = pos 0;
  saved_last = negsuc 0;
}

abbrev pub planner : RoutePlanner
planner = record {
  scheduler = resting;
  path_list = point ∷ point ∷ [];
  setting = setting;
  file = [];
  target_path_id = pos 0;
  last_path_id = negsuc 0;
  last_station_point = pos 0;
  x_pos = pos 0;
  y_pos = pos 0;
  car_angle = pos 0;
  wheel_base = pos 0;
  car_direction = pos 0;
  is_way_point_finished = false;
}

Run-IsPlanned_example :
    IsPlanned
      (move_to_last_station false
        (clean_last_station_point (move_to_next_station true planner).1)).1
Run-IsPlanned_example =
    Run-IsPlanned {out = outside} {r = planner}
      (call (next true) (call clean (call (last false) rest))) (0, refl, refl, inl (omega arith))

on_get_new_path-overrun_example :
    on_get_new_path true ((some station ∷ []) ++ some unnamed ∷ []) planner ≡ none
on_get_new_path-overrun_example =
    on_get_new_path-overrun true (some station ∷ []) [] unnamed planner (inl (omega arith))
