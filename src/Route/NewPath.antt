-- ===== src/Route/NewPath.antt =====
-- controler/AgvRoutePlanner.cpp: OnGetNewPath on the stations of the server.
use hxdl_driving_control.Prelude.{
  ◌≤◌, ◌<◌, ◌≡◌, refl, ◌⊎◌, inl, inr, List, [], ◌∷◌, ◌++◌, Bool, true, false, none, some, arith,
  Option-cases,
}
use hxdl_driving_control.Prelude.Int.{pos}
use hxdl_driving_control.Messages.Path.{StationInfo}
use hxdl_driving_control.Event.{Event, normal, ev_apply_path}
use hxdl_driving_control.Scheduler.{Shared, send_event}
use hxdl_driving_control.Route.{
  Stations, WayPoint, RoutePlanner, clear_path_list, way_point_of, way_points, is_printable,
  are_printable, on_get_new_path,
}

-- The numbers have a name in the tables of the print-out.
abbrev pub IsNamed : StationInfo → Type 0
IsNamed info = (info.mode < 13) × (info.action < 6)

no_points : are_printable [] ≡ true
unfolding are_printable
no_points = refl

overrun_printed :
    (front rest : Stations) (info : StationInfo) (points : List WayPoint)
    → (13 ≤ info.mode) ⊎ (6 ≤ info.action)
    → way_points (front ++ some info ∷ rest) ≡ some points
    → are_printable points ≡ false
unfolding way_points are_printable is_printable way_point_of
overrun_printed [] rest info points h e = elim (Option-cases (way_points rest)) [
  | inl bad ↦ absurd (ground (arith, bad))
  | inr (more, converted) ↦ elim h [
    | inl mode ↦ ground (arith, converted)
    | inr action ↦ ground (arith, converted)
  ]
]
overrun_printed (none ∷ front) rest info points h e = cc
overrun_printed (some other ∷ front) rest info points h e =
    elim (Option-cases (way_points (front ++ some info ∷ rest))) [
      | inl bad ↦ absurd (ground (arith, bad))
      | inr (more, converted) ↦
          ground (arith, converted, overrun_printed front rest info more h converted)
    ]

-- A path with a station anywhere in it whose mode is 13 or more, or whose action is 6 or more, is a
-- fault.
pub on_get_new_path-overrun :
    (can_open : Bool) (front rest : Stations) (info : StationInfo) (r : RoutePlanner)
    → (13 ≤ info.mode) ⊎ (6 ≤ info.action)
    → on_get_new_path can_open (front ++ some info ∷ rest) r ≡ none
unfolding on_get_new_path
on_get_new_path-overrun can_open front rest info r h =
    elim (Option-cases (way_points (front ++ some info ∷ rest))) [
      | inl bad ↦ rw (bad, on_get_new_path)
      | inr ([], converted) ↦
          let bad = overrun_printed front rest info [] h converted in
          absurd (ground (arith, bad, no_points))
      | inr (p ∷ points, converted) ↦
          let bad = overrun_printed front rest info (p ∷ points) h converted in
          elim (Option-cases
            (send_event normal ev_apply_path (pos 0) none (clear_path_list r).scheduler)) [
              | inl stuck ↦ rw (converted, on_get_new_path, stuck)
              | inr (done, sent) ↦ rw (converted, on_get_new_path, sent, bad)
            ]
    ]

-- The event that asks for the path to be followed.
abbrev pub apply_path : Event Shared
apply_path = record { event = ev_apply_path; param = pos 0; priority = normal; payload = none }
