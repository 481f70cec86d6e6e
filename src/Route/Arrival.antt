-- ===== src/Route/Arrival.antt =====
-- controler/AgvRoutePlanner.cpp: the planner after OnGetNewPath, and OnActionFinished.
use hxdl_driving_control.Prelude.{
  ℕ, zero, suc, ◌<◌, ◌≡◌, sym, ap, ap₂, ◌∙◌, ◌⊎◌, inl, inr, List, [], ◌∷◌, Bool, true, false, none,
  some, arith, ◌==◌, length, get_elem?, get_elem?-set_self, set, ◌&&◌, Bool-cases, Option-cases,
}
use hxdl_driving_control.Prelude.Int.{ℤ, pos, negsuc, pos_part, neg_part}
use hxdl_driving_control.Scheduler.{Outside, send_event}
use hxdl_driving_control.Event.{normal, ev_apply_path}
use hxdl_driving_control.Route.{
  Stations, WayPoint, RoutePlanner, clear_path_list, save_path_info, way_points, on_get_new_path,
}
use hxdl_driving_control.Route.Positions.{get_target_station, station_at}
use hxdl_driving_control.Route.Reports.{
  is_lift, set_target_station, report_lift, on_action_finished,
}
use hxdl_driving_control.Route.Moves.{Stands}

pub saved_all-Stands :
    (can_open : Bool) (r : RoutePlanner)
    → Stands (save_path_info can_open true r).1 r.target_path_id r.last_path_id r.path_list
unfolding save_path_info
saved_all-Stands can_open r = record {
  target_is = ground arith;
  last_is = ground arith;
  path_is = ground arith;
}

-- The path that a successful call leaves is the list's, from its start.
pub on_get_new_path-Stands :
    (can_open : Bool) (list : Stations) (n : ℤ) (r r' : RoutePlanner)
    → on_get_new_path can_open list r ≡ some (n, r')
    → (points : List WayPoint) × (way_points list ≡ some points)
      × Stands r' (pos 0) (negsuc 0) points
unfolding on_get_new_path clear_path_list
on_get_new_path-Stands can_open list n r r' e = elim (Option-cases (way_points list)) [
  | inl bad ↦ absurd (ground (arith, bad))
  | inr ([], converted) ↦
      let k = saved_all-Stands can_open (clear_path_list r) in
      let same : (save_path_info can_open true (clear_path_list r)).1 ≡ r' =
        ground (arith, converted) in
      (
        [],
        converted,
        record {
          target_is = sym (ap (λ (q : RoutePlanner). q.target_path_id) same) ∙ k.target_is;
          last_is = sym (ap (λ (q : RoutePlanner). q.last_path_id) same) ∙ k.last_is;
          path_is = sym (ap (λ (q : RoutePlanner). q.path_list) same) ∙ k.path_is;
        },
      )
  | inr (p ∷ points, converted) ↦
      elim (Option-cases (send_event normal ev_apply_path (pos 0) none r.scheduler)) [
        | inl bad ↦ absurd (ground (arith, converted, bad))
        | inr ((u, scheduler), sent) ↦
            let r1 = record (clear_path_list r) {
              path_list = p ∷ points;
              target_path_id = pos 0;
              last_path_id = negsuc 0;
              scheduler = scheduler;
            } in
            let k = saved_all-Stands can_open r1 in
            let same : (save_path_info can_open true r1).1 ≡ r' = ground (arith, converted, sent) in
            (
              p ∷ points,
              converted,
              record {
                target_is = sym (ap (λ (q : RoutePlanner). q.target_path_id) same) ∙ k.target_is;
                last_is = sym (ap (λ (q : RoutePlanner). q.last_path_id) same) ∙ k.last_is;
                path_is = sym (ap (λ (q : RoutePlanner). q.path_list) same) ∙ k.path_is;
              },
            )
      ]
]

-- The end of an action changes one point of the path and, maybe, the scheduler.
report_lift-kept :
    (out : Outside) (last_lift_hight : ℤ) (p : WayPoint) (r r' : RoutePlanner)
    → report_lift out last_lift_hight p r ≡ some r'
    → Stands r' r.target_path_id r.last_path_id r.path_list
unfolding report_lift
report_lift-kept out l p r r' e = record {
  target_is = ground arith;
  last_is = ground arith;
  path_is = ground arith;
}

-- The target with its mark.
abbrev pub finish : WayPoint → WayPoint
finish p = record p { action_finish = true }

-- What a successful call does: nothing at a point that is marked, else it marks the point.
pub record Finishes (r r' : RoutePlanner) (n : ℤ) : Type 0 where
  pub point : WayPoint
  pub target : get_target_station r ≡ some point
  pub marks :
      ((point.action_finish ≡ true) × (n ≡ pos 1) × (r' ≡ r))
      ⊎ ((point.action_finish ≡ false)
          × (n ≡ pos 0)
          × Stands r' r.target_path_id r.last_path_id
              (set r.path_list (pos_part r.target_path_id) (finish point)))

pub on_action_finished-Finishes :
    (out : Outside) (l n : ℤ) (r r' : RoutePlanner)
    → on_action_finished out l r ≡ some (n, r')
    → Finishes r r' n
unfolding on_action_finished set_target_station is_lift
on_action_finished-Finishes out l n r r' e = elim (Option-cases (get_target_station r)) [
  | inl bad ↦ absurd (ground (arith, bad))
  | inr (p, found) ↦ elim (Bool-cases p.action_finish) [
    | inl marked ↦ record {
      point = p;
      target = found;
      marks = inl (marked, ground (arith, found, marked), ground (arith, found, marked));
    }
    | inr unmarked ↦
        let r1 = set_target_station (finish p) r in
        elim (Bool-cases (neg_part p.lift_height == 0 && is_lift p.action)) [
          | inr plain ↦
              let same : (pos 0, r1) ≡ (n, r') = ground (arith, found, unmarked, plain) in
              record {
                point = p;
                target = found;
                marks = inr (
                  unmarked,
                  sym (ap (λ (q : ℤ × RoutePlanner). q.0) same),
                  record {
                    target_is = sym (ap (λ (q : ℤ × RoutePlanner). q.1.target_path_id) same);
                    last_is = sym (ap (λ (q : ℤ × RoutePlanner). q.1.last_path_id) same);
                    path_is = sym (ap (λ (q : ℤ × RoutePlanner). q.1.path_list) same);
                  },
                );
              }
          | inl lifts ↦ elim (Option-cases (report_lift out l p r1)) [
            | inl bad ↦ absurd (ground (arith, found, unmarked, lifts, bad))
            | inr (r2, reported) ↦
                let k = report_lift-kept out l p r1 r2 reported in
                let same : (pos 0, r2) ≡ (n, r') =
                  ground (arith, found, unmarked, lifts, reported) in
                record {
                  point = p;
                  target = found;
                  marks = inr (
                    unmarked,
                    sym (ap (λ (q : ℤ × RoutePlanner). q.0) same),
                    record {
                      target_is =
                          sym (ap (λ (q : ℤ × RoutePlanner). q.1.target_path_id) same)
                          ∙ k.target_is;
                      last_is =
                          sym (ap (λ (q : ℤ × RoutePlanner). q.1.last_path_id) same) ∙ k.last_is;
                      path_is = sym (ap (λ (q : ℤ × RoutePlanner). q.1.path_list) same) ∙ k.path_is;
                    },
                  );
                }
          ]
        ]
  ]
]

get_elem?-length :
    {A : Type 0} (xs : List A) (i : ℕ) (x : A) → get_elem? xs i ≡ some x → i < length xs
get_elem?-length [] i x e = cc
get_elem?-length (y ∷ xs) zero x e = omega arith
get_elem?-length (y ∷ xs) (suc i) x e = omega (arith, get_elem?-length xs i x e)

station_at-set :
    (i : ℤ) (points : List WayPoint) (p q : WayPoint)
    → station_at i points ≡ some p
    → station_at i (set points (pos_part i) q) ≡ some q
unfolding station_at
station_at-set (pos i) points p q e = get_elem?-set_self points i q (get_elem?-length points i p e)
station_at-set (negsuc i) points p q e = cc

target-marked :
    (r r' : RoutePlanner) (p : WayPoint)
    → get_target_station r ≡ some p
    → Stands r' r.target_path_id r.last_path_id
        (set r.path_list (pos_part r.target_path_id) (finish p))
    → get_target_station r' ≡ some (finish p)
unfolding get_target_station
target-marked r r' p e s =
    ap₂ station_at s.target_is s.path_is
    ∙ station_at-set r.target_path_id r.path_list p (finish p) e

-- The end of an action counts once: after a call that is no fault, a second call returns 1 and changes
-- nothing.
on_action_finished_twice :
    (out : Outside) (l k n : ℤ) (r r' : RoutePlanner)
    → on_action_finished out l r ≡ some (n, r')
    → on_action_finished out k r' ≡ some (pos 1, r')
unfolding on_action_finished
on_action_finished_twice out l k n r r' e =
    let f = on_action_finished-Finishes out l n r r' e in
    elim f.marks [
      | inl (marked, one, same) ↦
          let found : get_target_station r' ≡ some f.point =
            ap get_target_station same ∙ f.target in
          rw (found, on_action_finished, marked)
      | inr (unmarked, z, s) ↦ rw (target-marked r r' f.point f.target s, on_action_finished)
    ]
