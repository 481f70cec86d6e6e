-- ===== src/Route/Moves.antt =====
-- controler/AgvRoutePlanner.cpp: MoveToNextStation and MoveToLastStation.
use hxdl_driving_control.Prelude.{
  ℕ, zero, suc, ◌+◌, ◌-◌, ◌≤◌, ◌<◌, ◌≡◌, refl, ap, ◌∙◌, ◌⊎◌, inl, inr, List, [], Bool, true, false,
  arith, ◌==◌, length, Bool-cases,
}
use hxdl_driving_control.Prelude.Int.{ℤ, pos, negsuc, ◌+ℤ◌, ◌-ℤ◌, ltb_ℤ}
use hxdl_driving_control.Route.{WayPoint, RoutePlanner, save_path_info}
use hxdl_driving_control.Route.Positions.{
  note_last_station, move_to_next_station, move_to_last_station,
}

-- The station before an index: -1 before the first.
abbrev pub before : ℕ → ℤ
before zero = negsuc 0
before (suc t) = pos t

-- The target is a station of the path, or there is no path and the target is 0; the last station is
-- the one before the target.
abbrev pub IsPlanned : RoutePlanner → Type 0
IsPlanned r =
    (t : ℕ) × (r.target_path_id ≡ pos t)
    × (r.last_path_id ≡ before t)
    × ((t < length r.path_list) ⊎ ((t ≡ 0) × (r.path_list ≡ [])))

-- Where the planner stands: the two indices and the path.
pub record Stands (r : RoutePlanner) (target last : ℤ) (points : List WayPoint) : Type 0 where
  pub target_is : r.target_path_id ≡ target
  pub last_is : r.last_path_id ≡ last
  pub path_is : r.path_list ≡ points

saved-Stands :
    (can_open : Bool) (r : RoutePlanner)
    → Stands
        (save_path_info can_open false (note_last_station r)).1
        r.target_path_id
        r.last_path_id
        r.path_list
unfolding save_path_info note_last_station
saved-Stands can_open r = record {
  target_is = ground arith;
  last_is = ground arith;
  path_is = ground arith;
}

-- Before the end of the path the planner moves on by one.
pub move_to_next_station-Stands :
    (can_open : Bool) (r : RoutePlanner) (t : ℕ)
    → r.target_path_id ≡ pos t
    → suc t < length r.path_list
    → ((move_to_next_station can_open r).0 ≡ true)
      × Stands (move_to_next_station can_open r).1 (pos (suc t)) (pos t) r.path_list
unfolding move_to_next_station ◌+ℤ◌
move_to_next_station-Stands can_open r t e h =
    let r1 = record r {
      last_path_id = r.target_path_id;
      target_path_id = r.target_path_id +ℤ pos 1;
    } in
    let some_path : (length r.path_list == 0) ≡ false = ground arith in
    let moves : ltb_ℤ r.target_path_id (pos (length r.path_list - 1)) ≡ true =
      ap (λ z. ltb_ℤ z (pos (length r.path_list - 1))) e ∙ ground arith in
    let k = saved-Stands can_open r1 in
    rw (some_path, moves)
      (
        refl,
        record {
          target_is = k.target_is ∙ ap (λ z. z +ℤ pos 1) e ∙ ground arith;
          last_is = k.last_is ∙ e;
          path_is = k.path_is;
        },
      )

-- At its end it stays.
pub move_to_next_station-Stands_end :
    (can_open : Bool) (r : RoutePlanner) (t : ℕ)
    → r.target_path_id ≡ pos t
    → length r.path_list ≤ suc t
    → ((move_to_next_station can_open r).0 ≡ false)
      × Stands (move_to_next_station can_open r).1 r.target_path_id r.last_path_id r.path_list
unfolding move_to_next_station
move_to_next_station-Stands_end can_open r t e h = elim (Bool-cases (length r.path_list == 0)) [
  | inl no_path ↦ rw no_path (refl, record { target_is = refl; last_is = refl; path_is = refl })
  | inr some_path ↦
      let stays : ltb_ℤ r.target_path_id (pos (length r.path_list - 1)) ≡ false =
        ap (λ z. ltb_ℤ z (pos (length r.path_list - 1))) e ∙ ground arith in
      rw (some_path, stays) (refl, saved-Stands can_open r)
]

two_back : (t : ℕ) → pos (suc t) -ℤ pos 1 -ℤ pos 1 ≡ before t
unfolding ◌-ℤ◌
two_back zero = refl
two_back (suc t) = ground arith

-- Behind the first station it moves back by one.
pub move_to_last_station-Stands :
    (can_open : Bool) (r : RoutePlanner) (t : ℕ)
    → r.target_path_id ≡ pos (suc t)
    → suc t < length r.path_list
    → ((move_to_last_station can_open r).0 ≡ true)
      × Stands (move_to_last_station can_open r).1 (pos t) (before t) r.path_list
unfolding move_to_last_station ◌-ℤ◌
move_to_last_station-Stands can_open r t e h =
    let r1 = record r {
      target_path_id = r.target_path_id -ℤ pos 1;
      last_path_id = r.target_path_id -ℤ pos 1 -ℤ pos 1;
    } in
    let some_path : (length r.path_list == 0) ≡ false = ground arith in
    let moves : ltb_ℤ (pos 0) r.target_path_id ≡ true = ap (ltb_ℤ (pos 0)) e ∙ ground arith in
    let k = saved-Stands can_open r1 in
    rw (some_path, moves)
      (
        refl,
        record {
          target_is = k.target_is ∙ ap (λ z. z -ℤ pos 1) e ∙ ground arith;
          last_is = k.last_is ∙ ap (λ z. z -ℤ pos 1 -ℤ pos 1) e ∙ two_back t;
          path_is = k.path_is;
        },
      )

-- At the first it stays.
pub move_to_last_station-Stands_first :
    (can_open : Bool) (r : RoutePlanner)
    → r.target_path_id ≡ pos 0
    → ((move_to_last_station can_open r).0 ≡ false)
      × Stands (move_to_last_station can_open r).1 r.target_path_id r.last_path_id r.path_list
unfolding move_to_last_station
move_to_last_station-Stands_first can_open r e = elim (Bool-cases (length r.path_list == 0)) [
  | inl no_path ↦ rw no_path (refl, record { target_is = refl; last_is = refl; path_is = refl })
  | inr some_path ↦
      let stays : ltb_ℤ (pos 0) r.target_path_id ≡ false = ap (ltb_ℤ (pos 0)) e ∙ ground arith in
      rw (some_path, stays) (refl, saved-Stands can_open r)
]

-- A step forward along the path, from its station `t`, and one back lead to the target, the last
-- station and the path where the planner was; both succeed unless `t` is the path's last station.
move_to_last_station-move_to_next_station :
    (can_open can_open' : Bool) (r : RoutePlanner) (t : ℕ)
    → r.target_path_id ≡ pos t
    → suc t < length r.path_list
    → let r' = (move_to_next_station can_open r).1 in
      ((move_to_next_station can_open r).0 ≡ true)
      × ((move_to_last_station can_open' r').0 ≡ true)
      × Stands (move_to_last_station can_open' r').1 (pos t) (before t) r.path_list
move_to_last_station-move_to_next_station can_open can_open' r t e h =
    let (moved, s) = move_to_next_station-Stands can_open r t e h in
    let r' = (move_to_next_station can_open r).1 in
    let (back, s') =
      move_to_last_station-Stands can_open' r' t s.target_is (omega (arith, ap length s.path_is)) in
    (
      moved,
      back,
      record { target_is = s'.target_is; last_is = s'.last_is; path_is = s'.path_is ∙ s.path_is },
    )

-- `n` steps forward.
walk : ℕ → RoutePlanner → RoutePlanner
walk zero r = r
walk (suc n) r = walk n (move_to_next_station true r).1

-- From the station `t`, `n` steps lead to the station `t + n`, through the path as it was, while that
-- is a station of the path; the last station is the one before.
walk-Stands :
    (n t : ℕ) (r : RoutePlanner)
    → r.target_path_id ≡ pos t
    → r.last_path_id ≡ before t
    → n + t < length r.path_list
    → Stands (walk n r) (pos (n + t)) (before (n + t)) r.path_list
unfolding walk
walk-Stands zero t r e l h = record {
  target_is = e ∙ ap pos (omega arith);
  last_is = l ∙ ap before (omega arith);
  path_is = refl;
}
walk-Stands (suc n) t r e l h =
    let (moved, s) = move_to_next_station-Stands true r t e (omega arith) in
    let more =
      walk-Stands n (suc t) (move_to_next_station true r).1 s.target_is s.last_is
        (omega (arith, ap length s.path_is)) in
    let count : n + suc t ≡ suc n + t = omega arith in
    record {
      target_is = more.target_is ∙ ap pos count;
      last_is = more.last_is ∙ ap before count;
      path_is = more.path_is ∙ s.path_is;
    }
