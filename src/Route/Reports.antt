-- ===== src/Route/Reports.antt =====
-- controler/AgvRoutePlanner.cpp: the end of an action, and what is reported to the server.
use hxdl_driving_control.Prelude.{
  ℕ, ◌%◌, Bool, true, false, ◌&&◌, Option, none, some, ◌==◌, if◌then◌else◌, set,
}
use hxdl_driving_control.Prelude.Int.{ℤ, pos, negsuc, ltb_ℤ, pos_part, neg_part}
use hxdl_driving_control.Wire.{short_of, unsigned_of}
use hxdl_driving_control.Scheduler.{
  Outside, report_task_status, request_new_path, request_system_time_synchronization,
}
use hxdl_driving_control.Route.{WayPoint, RoutePlanner}
use hxdl_driving_control.Route.Positions.{get_target_station}

-- The object that GetTargetStation points to is changed in the list.
unfoldable pub set_target_station : WayPoint → RoutePlanner → RoutePlanner
set_target_station p r = record r { path_list = set r.path_list (pos_part r.target_path_id) p }

unfoldable pub update_car_info : ℤ → ℤ → ℤ → ℤ → ℤ → ℤ → RoutePlanner → RoutePlanner
update_car_info x y angle speed power status r = record r {
  x_pos = x;
  y_pos = y;
  car_angle = angle;
  scheduler = record r.scheduler {
    cur_status = record r.scheduler.cur_status {
      x_pos = unsigned_of x;
      y_pos = unsigned_of y;
      car_angle = short_of angle;
      speed = unsigned_of speed % 256;
      power_level = unsigned_of power % 256;
      status = unsigned_of status % 256;
      last_point = short_of r.last_station_point;
    };
  };
}

-- `action == ActionLiftUpDown`.
unfoldable pub is_lift : ℤ → Bool
is_lift (pos n) = n == 4
is_lift (negsuc n) = false

module _ (out : Outside) where
  unfoldable pub report_lift : ℤ → WayPoint → RoutePlanner → Option RoutePlanner
  report_lift last_lift_hight p r =
      let report : ℕ → Option RoutePlanner = λ status.
        elim (report_task_status out (short_of p.id) status r.scheduler) [
          | none ↦ none
          | some (ret, scheduler) ↦ some (record r { scheduler = scheduler })
        ] in
      if ltb_ℤ p.lift_height last_lift_hight
      then report 2
      else if ltb_ℤ last_lift_hight p.lift_height
      then report 1
      else some r

  -- With no target the read through NULL is a fault.
  unfoldable pub on_action_finished : ℤ → RoutePlanner → Option (ℤ × RoutePlanner)
  on_action_finished last_lift_hight r = elim (get_target_station r) [
    | none ↦ none
    | some p ↦
        if p.action_finish
        then some (pos 1, r)
        else (let r1 = set_target_station (record p { action_finish = true }) r in
            if neg_part p.lift_height == 0 && is_lift p.action
            then elim (report_lift last_lift_hight p r1) [
              | none ↦ none
              | some r2 ↦ some (pos 0, r2)
            ]
            else some (pos 0, r1))
  ]

  unfoldable pub request_path : RoutePlanner → Option (ℤ × RoutePlanner)
  request_path r =
      elim (request_new_path out (unsigned_of r.x_pos) (unsigned_of r.y_pos)
        (short_of r.last_station_point) r.scheduler) [
          | none ↦ none
          | some (ret, scheduler) ↦ some (ret, record r { scheduler = scheduler })
        ]

  unfoldable pub synchronize_time : RoutePlanner → Option RoutePlanner
  synchronize_time r = elim (request_system_time_synchronization out r.scheduler) [
    | none ↦ none
    | some (ret, scheduler) ↦ some (record r { scheduler = scheduler })
  ]
