-- ===== src/Route/Invariant.antt =====
-- controler/AgvRoutePlanner.cpp: the planner's indices under any row of calls.
use mathlib.Core.Path.{subst}
use hxdl_driving_control.Prelude.{
  ℕ, zero, suc, ◌<◌, ◌≡◌, refl, sym, ap, ◌∙◌, inl, inr, List, [], ◌∷◌, Bool, Option, none, some,
  arith, ltb, length, length-set, eq_nil, Bool-cases, Option-cases, List-cases,
}
use hxdl_driving_control.Prelude.Int.{ℤ, pos, negsuc, ◌+ℤ◌, pos_part}
use hxdl_driving_control.Wire.After.{After, After-if}
use hxdl_driving_control.Wire.{unsigned_of, short_of}
use hxdl_driving_control.Scheduler.{
  Outside, Scheduler, request_new_path, request_system_time_synchronization,
}
use hxdl_driving_control.Route.{
  Stations, Line, WayPoint, RoutePlanner, are_printable, clear_path_list, save_path_info,
  on_get_new_path,
}
use hxdl_driving_control.Route.Positions.{
  move_to_next_station, move_to_last_station, reset_path_list, clean_last_station_point, insert_at,
  insert_before, insert_point,
}
use hxdl_driving_control.Route.Reports.{
  update_car_info, on_action_finished, request_path, synchronize_time,
}
use hxdl_driving_control.Route.Reload.{read_points, load_path_info, reload_path_list}
use hxdl_driving_control.Route.Reload.Restored.{at_first}
use hxdl_driving_control.Route.Arrival.{on_get_new_path-Stands, finish, on_action_finished-Finishes}
use hxdl_driving_control.Route.Moves.{
  before, IsPlanned, Stands, move_to_next_station-Stands, move_to_next_station-Stands_end,
  move_to_last_station-Stands, move_to_last_station-Stands_first,
}

-- One call of a method of the planner but Start, which takes the two stations from the settings, and Stop,
-- which only ends the thread. Whether the path's file can be opened is free, and so is what is found in it.
pub data Step (out : Outside) : RoutePlanner → RoutePlanner → Type 0 where
  new_path :
      {r r' : RoutePlanner} (can_open : Bool) (list : Stations) (n : ℤ)
      → on_get_new_path can_open list r ≡ some (n, r')
      → Step out r r'
  next : {r : RoutePlanner} (can_open : Bool) → Step out r (move_to_next_station can_open r).1
  last : {r : RoutePlanner} (can_open : Bool) → Step out r (move_to_last_station can_open r).1
  reset : {r : RoutePlanner} (can_open : Bool) → Step out r (reset_path_list can_open r)
  clean : {r : RoutePlanner} → Step out r (clean_last_station_point r)
  insert :
      {r r' : RoutePlanner} (first second : WayPoint) (n : ℤ)
      → insert_point first second r ≡ some (n, r')
      → Step out r r'
  finished :
      {r r' : RoutePlanner} (last_lift_hight n : ℤ)
      → on_action_finished out last_lift_hight r ≡ some (n, r')
      → Step out r r'
  reload :
      {r r' : RoutePlanner} (read_back : Line → Option Line) (can_open : Bool) (n : ℤ)
      → reload_path_list read_back can_open r ≡ some (n, r')
      → Step out r r'
  request : {r r' : RoutePlanner} (n : ℤ) → request_path out r ≡ some (n, r') → Step out r r'
  synchronize : {r r' : RoutePlanner} → synchronize_time out r ≡ some r' → Step out r r'
  update :
      {r : RoutePlanner} (x y angle speed power status : ℤ)
      → Step out r (update_car_info x y angle speed power status r)

-- Calls in a row.
pub data Run (out : Outside) : RoutePlanner → RoutePlanner → Type 0 where
  rest : {r : RoutePlanner} → Run out r r
  call : {r r' r'' : RoutePlanner} → Step out r r' → Run out r' r'' → Run out r r''

Stands-IsPlanned :
    (r : RoutePlanner) (t : ℕ) (points : List WayPoint)
    → Stands r (pos t) (before t) points
    → t < length points
    → IsPlanned r
Stands-IsPlanned r t points s h =
    (t, s.target_is, s.last_is, inl (omega (arith, ap length s.path_is)))

Stands-IsPlanned_same :
    (r r' : RoutePlanner)
    → IsPlanned r
    → Stands r' r.target_path_id r.last_path_id r.path_list
    → IsPlanned r'
Stands-IsPlanned_same r r' (t, target, last_is, inl h) s =
    (t, s.target_is ∙ target, s.last_is ∙ last_is, inl (omega (arith, ap length s.path_is)))
Stands-IsPlanned_same r r' (t, target, last_is, inr (z, e)) s =
    (t, s.target_is ∙ target, s.last_is ∙ last_is, inr (z, s.path_is ∙ e))

next-IsPlanned :
    (can_open : Bool) (r : RoutePlanner)
    → IsPlanned r
    → IsPlanned (move_to_next_station can_open r).1
next-IsPlanned can_open r (t, target, last_is, fits) =
    elim (Bool-cases (ltb (suc t) (length r.path_list))) [
      | inl inside ↦
          let h : suc t < length r.path_list = ground arith in
          Stands-IsPlanned _ (suc t) r.path_list
            (move_to_next_station-Stands can_open r t target h).1 h
      | inr behind ↦
          Stands-IsPlanned_same r _ (t, target, last_is, fits)
            (move_to_next_station-Stands_end can_open r t target (ground arith)).1
    ]

last-IsPlanned :
    (can_open : Bool) (r : RoutePlanner)
    → IsPlanned r
    → IsPlanned (move_to_last_station can_open r).1
last-IsPlanned can_open r (zero, target, last_is, fits) =
    Stands-IsPlanned_same r _ (zero, target, last_is, fits)
      (move_to_last_station-Stands_first can_open r target).1
last-IsPlanned can_open r (suc t, target, last_is, inl h) =
    Stands-IsPlanned _ t r.path_list (move_to_last_station-Stands can_open r t target h).1
      (omega arith)
last-IsPlanned can_open r (suc t, target, last_is, inr (z, e)) = absurd (omega arith)

length-insert_at :
    (i : ℕ) (p : WayPoint) (points points' : List WayPoint)
    → insert_at i p points ≡ some points'
    → length points' ≡ suc (length points)
unfolding insert_at
length-insert_at zero p points points' e = ground arith
length-insert_at (suc i) p [] points' e = cc
length-insert_at (suc i) p (q ∷ points) points' e = elim (Option-cases (insert_at i p points)) [
  | inl bad ↦ absurd (ground (arith, bad))
  | inr (more, fine) ↦ ground (arith, fine, length-insert_at i p points more fine)
]

length-insert_before :
    (i : ℤ) (p : WayPoint) (points points' : List WayPoint)
    → insert_before i p points ≡ some points'
    → length points' ≡ suc (length points)
unfolding insert_before
length-insert_before (pos i) p points points' e = length-insert_at i p points points' e
length-insert_before (negsuc i) p points points' e = cc

insert_point-IsPlanned :
    (first second : WayPoint) (n : ℤ) (r r' : RoutePlanner)
    → insert_point first second r ≡ some (n, r')
    → IsPlanned r
    → IsPlanned r'
unfolding insert_point
insert_point-IsPlanned first second n r r' e (t, target, last_is, fits) =
    elim (Option-cases (insert_before (r.target_path_id +ℤ pos 1) first r.path_list)) [
      | inl bad ↦ absurd (ground (arith, bad))
      | inr (points, one) ↦
          elim (Option-cases (insert_before (r.target_path_id +ℤ pos 2) second points)) [
            | inl bad ↦ absurd (ground (arith, one, bad))
            | inr (points', two) ↦
                let same : record r { path_list = points' } ≡ r' = ground (arith, one, two) in
                let longer : length points' ≡ suc (suc (length r.path_list)) =
                  length-insert_before _ second points points' two
                  ∙ ap suc (length-insert_before _ first r.path_list points one) in
                let inside : t < length r'.path_list = elim fits [
                  | inl h ↦ omega (arith, ap (λ (q : RoutePlanner). length q.path_list) same)
                  | inr (z, no_path) ↦
                      omega (arith, ap (λ (q : RoutePlanner). length q.path_list) same)
                ] in
                (
                  t,
                  sym (ap (λ (q : RoutePlanner). q.target_path_id) same) ∙ target,
                  sym (ap (λ (q : RoutePlanner). q.last_path_id) same) ∙ last_is,
                  inl inside,
                )
          ]
    ]

new_path-IsPlanned :
    (can_open : Bool) (list : Stations) (n : ℤ) (r r' : RoutePlanner)
    → on_get_new_path can_open list r ≡ some (n, r')
    → IsPlanned r'
new_path-IsPlanned can_open list n r r' e =
    let (points, converted, s) = on_get_new_path-Stands can_open list n r r' e in
    elim (List-cases points) [
      | inl no_path ↦ (0, s.target_is, s.last_is, inr (refl, s.path_is ∙ no_path))
      | inr (p, more, some_path) ↦ Stands-IsPlanned r' 0 points s (ground (arith, some_path))
    ]

finished-IsPlanned :
    (out : Outside) (l n : ℤ) (r r' : RoutePlanner)
    → on_action_finished out l r ≡ some (n, r')
    → IsPlanned r
    → IsPlanned r'
finished-IsPlanned out l n r r' e (t, target, last_is, fits) =
    let f = on_action_finished-Finishes out l n r r' e in
    elim f.marks [
      | inl (marked, one, same) ↦ rw same (t, target, last_is, fits)
      | inr (unmarked, z, s) ↦
          let size : length r'.path_list ≡ length r.path_list =
            ap length s.path_is
            ∙ length-set r.path_list (pos_part r.target_path_id) (finish f.point) in
          (
            t,
            s.target_is ∙ target,
            s.last_is ∙ last_is,
            elim fits [
              | inl h ↦ inl (omega arith)
              | inr (first, no_path) ↦ inr (first, eq_nil r'.path_list (size ∙ ap length no_path))
            ],
          )
    ]

-- The planner that a call leaves is planned.
abbrev PlannedAfter : Option (ℤ × RoutePlanner) → Type 0
PlannedAfter = After (λ (o : ℤ × RoutePlanner). IsPlanned o.1)

reload-IsPlanned :
    (read_back : Line → Option Line) (can_open : Bool) (n : ℤ) (r r' : RoutePlanner)
    → reload_path_list read_back can_open r ≡ some (n, r')
    → IsPlanned r'
unfolding reload_path_list load_path_info reset_path_list save_path_info clear_path_list
reload-IsPlanned read_back can_open n r r' e =
    let points = read_points read_back r.file in
    subst PlannedAfter e (
      After-if (λ (o : ℤ × RoutePlanner). IsPlanned o.1) can_open _ _
        (After-if (λ (o : ℤ × RoutePlanner). IsPlanned o.1) (are_printable points) _ none
          (0, refl, refl, at_first points) tt)
        (0, refl, refl, inr (refl, refl)))

request_path-IsPlanned :
    (out : Outside) (n : ℤ) (r r' : RoutePlanner)
    → request_path out r ≡ some (n, r')
    → IsPlanned r
    → IsPlanned r'
unfolding request_path
request_path-IsPlanned out n r r' e h =
    subst PlannedAfter e
      (elim (request_new_path out (unsigned_of r.x_pos) (unsigned_of r.y_pos)
          (short_of r.last_station_point) r.scheduler)
        as (λ (o : Option (ℤ × Scheduler)).
          PlannedAfter (elim o as (λ x. Option (ℤ × RoutePlanner)) [
            | none ↦ none
            | some (ret, s) ↦ some (ret, record r { scheduler = s })
          ])) [ none ↦ tt | some (_, s) ↦ h ])

synchronize_time-IsPlanned :
    (out : Outside) (r r' : RoutePlanner)
    → synchronize_time out r ≡ some r'
    → IsPlanned r
    → IsPlanned r'
unfolding synchronize_time
synchronize_time-IsPlanned out r r' e h =
    subst (After IsPlanned) e
      (elim (request_system_time_synchronization out r.scheduler)
        as (λ (o : Option (ℤ × Scheduler)). After IsPlanned (elim o as (λ x. Option RoutePlanner) [
          | none ↦ none
          | some (ret, s) ↦ some (record r { scheduler = s })
        ])) [ none ↦ tt | some (_, s) ↦ h ])

-- Every call keeps the target inside of the path, and the last station right before it.
pub Step-IsPlanned :
    {out : Outside} {r r' : RoutePlanner} → Step out r r' → IsPlanned r → IsPlanned r'
unfolding reset_path_list save_path_info clear_path_list clean_last_station_point update_car_info
Step-IsPlanned {r = r} {r' = r'} (new_path can_open list n e) h =
    new_path-IsPlanned can_open list n r r' e
Step-IsPlanned {r = r} (next can_open) h = next-IsPlanned can_open r h
Step-IsPlanned {r = r} (last can_open) h = last-IsPlanned can_open r h
Step-IsPlanned (reset can_open) h = (0, refl, refl, inr (refl, refl))
Step-IsPlanned clean h = h
Step-IsPlanned {r = r} {r' = r'} (insert first second n e) h =
    insert_point-IsPlanned first second n r r' e h
Step-IsPlanned {out = out} {r = r} {r' = r'} (finished last_lift_hight n e) h =
    finished-IsPlanned out last_lift_hight n r r' e h
Step-IsPlanned {r = r} {r' = r'} (reload read_back can_open n e) h =
    reload-IsPlanned read_back can_open n r r' e
Step-IsPlanned {out = out} {r = r} {r' = r'} (request n e) h = request_path-IsPlanned out n r r' e h
Step-IsPlanned {out = out} {r = r} {r' = r'} (synchronize e) h =
    synchronize_time-IsPlanned out r r' e h
Step-IsPlanned (update x y angle speed power status) h = h

-- Whatever is called but Start, and in whatever order, on a planner whose target is a station of its path (or 0
-- with no path) and whose last station is the one before the target: that stays so.
pub Run-IsPlanned :
    {out : Outside} {r r' : RoutePlanner} → Run out r r' → IsPlanned r → IsPlanned r'
Run-IsPlanned rest h = h
Run-IsPlanned (call step more) h = Run-IsPlanned more (Step-IsPlanned step h)
