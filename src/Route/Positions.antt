-- ===== src/Route/Positions.antt =====
-- controler/AgvRoutePlanner.cpp: moving along the path and inserting points.
use hxdl_driving_control.Prelude.{
  ℕ, zero, suc, ◌-◌, List, [], ◌∷◌, Bool, true, false, Option, none, some, ◌==◌, if◌then◌else◌,
  length, get_elem?,
}
use hxdl_driving_control.Prelude.Int.{ℤ, pos, negsuc, ◌+ℤ◌, ◌-ℤ◌, ltb_ℤ}
use hxdl_driving_control.Route.{WayPoint, RoutePlanner, clear_path_list, save_path_info}

-- An entry of the list; NULL for an index that is not one.
unfoldable pub station_at : ℤ → List WayPoint → Option WayPoint
station_at (pos n) points = get_elem? points n
station_at (negsuc n) points = none

unfoldable pub get_target_station : RoutePlanner → Option WayPoint
get_target_station r = station_at r.target_path_id r.path_list

unfoldable pub get_last_station : RoutePlanner → Option WayPoint
get_last_station r = station_at r.last_path_id r.path_list

-- The guard `0 <= lastPathId && lastPathId < size` is that of GetLastStation too.
unfoldable pub note_last_station : RoutePlanner → RoutePlanner
note_last_station r = elim (get_last_station r) [
  | none ↦ r
  | some p ↦ record r { last_station_point = p.id }
]

unfoldable pub move_to_next_station : Bool → RoutePlanner → Bool × RoutePlanner
move_to_next_station can_open r =
    if length r.path_list == 0
    then (false, r)
    else if ltb_ℤ r.target_path_id (pos (length r.path_list - 1))
    then (let r1 = record r {
      last_path_id = r.target_path_id;
      target_path_id = r.target_path_id +ℤ pos 1;
    } in
        (true, (save_path_info can_open false (note_last_station r1)).1))
    else (false, (save_path_info can_open false (note_last_station r)).1)

unfoldable pub move_to_last_station : Bool → RoutePlanner → Bool × RoutePlanner
move_to_last_station can_open r =
    if length r.path_list == 0
    then (false, r)
    else if ltb_ℤ (pos 0) r.target_path_id
    then (let r1 = record r {
      target_path_id = r.target_path_id -ℤ pos 1;
      last_path_id = r.target_path_id -ℤ pos 1 -ℤ pos 1;
    } in
        (true, (save_path_info can_open false (note_last_station r1)).1))
    else (false, (save_path_info can_open false (note_last_station r)).1)

unfoldable pub reset_path_list : Bool → RoutePlanner → RoutePlanner
reset_path_list can_open r = (save_path_info can_open false (clear_path_list r)).1

unfoldable pub clean_last_station_point : RoutePlanner → RoutePlanner
clean_last_station_point r = record r { last_station_point = pos 0 }

-- `vector::insert` before an index; one behind the end is a fault.
unfoldable pub insert_at : ℕ → WayPoint → List WayPoint → Option (List WayPoint)
insert_at zero p points = some (p ∷ points)
insert_at (suc n) p [] = none
insert_at (suc n) p (q ∷ points) = elim (insert_at n p points) [
  | none ↦ none
  | some points' ↦ some (q ∷ points')
]

unfoldable pub insert_before : ℤ → WayPoint → List WayPoint → Option (List WayPoint)
unfolding insert_at
insert_before (pos n) p points = insert_at n p points
insert_before (negsuc n) p points = none

unfoldable pub insert_point : WayPoint → WayPoint → RoutePlanner → Option (ℤ × RoutePlanner)
insert_point first second r = elim (insert_before (r.target_path_id +ℤ pos 1) first r.path_list) [
  | none ↦ none
  | some points ↦ elim (insert_before (r.target_path_id +ℤ pos 2) second points) [
    | none ↦ none
    | some points' ↦ some (pos 0, record r { path_list = points' })
  ]
]
