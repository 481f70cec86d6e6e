-- ===== src/Route/Reload.antt =====
-- controler/AgvRoutePlanner.cpp: loadPathInfo, ReloadPathList and Start. A line of the path's file holds one
-- point; which eight numbers sscanf finds in the line that sprintf made of eight is a parameter, `none`
-- where it does not find eight. An angle counts hundredths of a degree, which are printed with six decimals.
pub mod Restored
use hxdl_driving_control.Prelude.{
  ℕ, List, [], ◌∷◌, Bool, false, Option, none, some, length, if◌then◌else◌,
}
use hxdl_driving_control.Prelude.Int.{ℤ, pos, negsuc}
use hxdl_driving_control.Wire.{◌>>=◌}
use hxdl_driving_control.Route.{Line, WayPoint, RoutePlanner, clear_path_list, are_printable}
use hxdl_driving_control.Route.Positions.{reset_path_list}

-- What sscanf stores; the rest of the point is zero.
unfoldable pub point_of : Line → WayPoint
point_of l = record {
  id = l.first;
  card_id = l.second;
  x_pos = l.third;
  y_pos = l.fourth;
  angle = l.fifth;
  radius = pos 0;
  run_mode = l.sixth;
  action = l.seventh;
  lift_height = l.eighth;
  action_finish = false;
}

unfoldable pub read_points : (Line → Option Line) → List Line → List WayPoint
unfolding point_of
read_points read_back [] = []
read_points read_back (l ∷ file) =
    let rest = read_points read_back file in
    elim (read_back l) [ some found ↦ point_of found ∷ rest | none ↦ rest ]

-- The print-out of a point can be a fault, as in OnGetNewPath.
unfoldable pub load_path_info :
    (Line → Option Line) → Bool → RoutePlanner → Option (ℤ × RoutePlanner)
load_path_info read_back can_open r0 =
    let r = clear_path_list r0 in
    let points = read_points read_back r.file in
    if can_open
    then (if are_printable points
        then some (
          pos (length points),
          record r {
            path_list = points;
            setting = record r.setting { path_point_count = length points };
            target_path_id = r.setting.target_point_id;
            last_path_id = r.setting.last_point_id;
          },
        )
        else none)
    else some (negsuc 0, r)

unfoldable pub reload_path_list :
    (Line → Option Line) → Bool → RoutePlanner → Option (ℤ × RoutePlanner)
reload_path_list read_back can_open r =
    load_path_info read_back can_open (reset_path_list can_open r)

-- The thread is started in any case; what its start returns is an argument. The address of the server is
-- not modelled; `agv_id` is the identifier of the settings.
unfoldable pub start :
    (Line → Option Line) → Bool → ℕ → ℤ → RoutePlanner → Option (ℤ × RoutePlanner)
start read_back can_open agv_id started r0 =
    let identified = record r0 {
      scheduler = record r0.scheduler {
        agv_id = agv_id;
        cur_status = record r0.scheduler.cur_status { id = agv_id };
      };
    } in
    load_path_info read_back can_open identified >>= λ (_, r).
    some (started, record r { scheduler = record r.scheduler { is_connected = false } })
