-- ===== src/Route.antt =====
-- controler/AgvRoutePlanner.cpp, class CAgvRoutePlanner: the list of way points, the last and the
-- target station, and what is kept of them in the settings and in the path's file.
-- Whether fopen succeeds is an argument. The file is the list of the lines that were printed to it.
-- Route/Reload reads the file back.
pub mod Positions
pub mod Reports
pub mod Moves
pub mod Invariant
pub mod Arrival
pub mod NewPath
pub mod Reload
use hxdl_driving_control.Prelude.{
  ℕ, zero, suc, ◌+◌, ◌-◌, ◌%◌, List, [], ◌∷◌, Bool, true, false, ◌&&◌, Option, none, some, leb, ltb,
  ◌==◌, if◌then◌else◌, length, get_elem?, set,
}
use hxdl_driving_control.Prelude.Int.{ℤ, pos, negsuc, ◌+ℤ◌, ◌-ℤ◌, ltb_ℤ, pos_part, neg_part}
use hxdl_driving_control.Messages.Path.{StationInfo}
use hxdl_driving_control.Event.{normal, ev_apply_path}
use hxdl_driving_control.Wire.{int_of}
use hxdl_driving_control.Scheduler.{
  Outside, Scheduler, send_event, report_task_status, request_new_path,
  request_system_time_synchronization,
}

-- A list of stations of the server; `none` is one that was allocated and never written.
abbrev pub Stations : Type 0
Stations = List (Option StationInfo)

-- `angle` counts hundredths of a degree.
pub record WayPoint : Type 0 where
  pub id : ℤ
  pub card_id : ℤ
  pub x_pos : ℤ
  pub y_pos : ℤ
  pub angle : ℕ
  pub radius : ℤ
  pub run_mode : ℤ
  pub action : ℤ
  pub lift_height : ℤ
  pub action_finish : Bool

-- The eight numbers of a line of the path's file, in their order.
pub record Line : Type 0 where
  pub first : ℤ
  pub second : ℤ
  pub third : ℤ
  pub fourth : ℤ
  pub fifth : ℕ
  pub sixth : ℤ
  pub seventh : ℤ
  pub eighth : ℤ

-- What sprintf is given of a point.
unfoldable pub line_of : WayPoint → Line
line_of p = record {
  first = p.id;
  second = p.card_id;
  third = p.x_pos;
  fourth = p.y_pos;
  fifth = p.angle;
  sixth = p.run_mode;
  seventh = p.action;
  eighth = p.lift_height;
}

unfoldable pub lines_of : List WayPoint → List Line
lines_of [] = []
lines_of (p ∷ points) = line_of p ∷ lines_of points

-- The settings that the planner writes: three members, and two values of the file, `saved_target` under
-- the key "TargetPoinId" and `saved_last` under "LastPointId".
pub record Setting : Type 0 where
  pub path_point_count : ℕ
  pub target_point_id : ℤ
  pub last_point_id : ℤ
  pub saved_target : ℤ
  pub saved_last : ℤ

pub record RoutePlanner : Type 0 where
  pub scheduler : Scheduler
  pub path_list : List WayPoint
  pub setting : Setting
  pub file : List Line
  pub target_path_id : ℤ
  pub last_path_id : ℤ
  pub last_station_point : ℤ
  pub x_pos : ℤ
  pub y_pos : ℤ
  pub car_angle : ℤ
  pub wheel_base : ℤ
  pub car_direction : ℤ
  pub is_way_point_finished : Bool

-- The planner as it is constructed, with its scheduler and the settings of the program.
unfoldable pub new_planner : Scheduler → Setting → List Line → RoutePlanner
new_planner scheduler setting file = record {
  scheduler = scheduler;
  path_list = [];
  setting = setting;
  file = file;
  target_path_id = pos 0;
  last_path_id = negsuc 0;
  last_station_point = pos 0;
  x_pos = pos 0;
  y_pos = pos 0;
  car_angle = pos 0;
  wheel_base = pos 0;
  car_direction = pos 0;
  is_way_point_finished = false;
}

unfoldable pub clear_path_list : RoutePlanner → RoutePlanner
clear_path_list r = record r {
  path_list = [];
  target_path_id = pos 0;
  last_path_id = negsuc 0;
  car_direction = pos 0;
}

-- The number returned, and the planner.
unfoldable pub save_path_info : Bool → Bool → RoutePlanner → ℤ × RoutePlanner
save_path_info can_open all r =
    let r1 = record r {
      setting = record r.setting {
        path_point_count = length r.path_list;
        target_point_id = r.target_path_id;
        last_point_id = r.last_path_id;
      };
    } in
    let r2 = if all then record r1 { file = lines_of r.path_list } else r1 in
    let r3 = record r2 {
      setting = record r2.setting { saved_target = r.target_path_id; saved_last = r.last_path_id };
    } in
    if all
    then (if can_open then (pos (length r.path_list), r3) else (negsuc 0, r1))
    else (pos (length r.path_list), r3)

unfoldable pub way_point_of : StationInfo → WayPoint
way_point_of info = record {
  id = pos info.id;
  card_id = pos 0;
  x_pos = int_of info.x_pos;
  y_pos = int_of info.y_pos;
  angle = info.path_angle;
  radius = pos 0;
  run_mode = pos info.mode;
  action = pos info.action;
  lift_height = if info.lift_height == 0xFFFF then negsuc 0 else pos info.lift_height;
  action_finish = false;
}

-- A station that was never written is a fault.
unfoldable pub way_points : Stations → Option (List WayPoint)
way_points [] = some []
way_points (none ∷ list) = none
way_points (some info ∷ list) = elim (way_points list) [
  | none ↦ none
  | some points ↦ some (way_point_of info ∷ points)
]

-- The print-out of a point reads `RunModeString[runMode]`, of 13 entries, and `ActionString[action]`,
-- of 6.
unfoldable pub is_index : ℕ → ℤ → Bool
is_index size (pos i) = ltb i size
is_index size (negsuc i) = false

unfoldable pub is_printable : WayPoint → Bool
unfolding is_index
is_printable p = is_index 13 p.run_mode && is_index 6 p.action

unfoldable pub are_printable : List WayPoint → Bool
are_printable [] = true
are_printable (p ∷ points) = let rest = are_printable points in is_printable p && rest

unfoldable pub on_get_new_path : Bool → Stations → RoutePlanner → Option (ℤ × RoutePlanner)
unfolding way_points are_printable
on_get_new_path can_open list r0 = elim (way_points list) [
  | none ↦ none
  | some [] ↦ let r = clear_path_list r0 in some (pos 0, (save_path_info can_open true r).1)
  | some (p ∷ points) ↦
      let r = record (clear_path_list r0) {
        path_list = p ∷ points;
        target_path_id = pos 0;
        last_path_id = negsuc 0;
      } in
      elim (send_event normal ev_apply_path (pos 0) none r.scheduler) [
        | none ↦ none
        | some (_, scheduler) ↦
            if are_printable (p ∷ points)
            then some (
              pos (length (p ∷ points)),
              (save_path_info can_open true (record r { scheduler = scheduler })).1,
            )
            else none
      ]
]
