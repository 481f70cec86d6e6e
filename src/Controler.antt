-- ===== src/Controler.antt =====
-- controler/AgvCarControler.cpp: what the car asks of its sensors, its base and the helper that moves it.
-- Every sensor is there, as InitSensors makes them. With UpAndRunFlag 0, as it is set there, LiftStop,
-- SaveSourcePathMag and CompareSourcePathMag do nothing. What the devices are told is a list; a call that
-- only passes its arguments on is an entry of it. Angles are in hundredths of a degree here.
pub mod Again
pub mod Lost
use hxdl_driving_control.Prelude.{
  ℕ, suc, ◌+◌, ◌*◌, List, [], ◌∷◌, ◌++◌, Bool, true, false, ◌&&◌, ◌||◌, Option, none, some, ltb,
  ◌==◌, if◌then◌else◌,
}
use hxdl_driving_control.Prelude.Int.{ℤ, pos, negsuc, ltb_ℤ}
use hxdl_driving_control.Wire.{◌>>=◌}
use hxdl_driving_control.Sensor.Lifter.{Lifter, set_target_height, lift_is_arrived}
use hxdl_driving_control.Sensor.Barrier.{Barrier, front, get_barrier_error}
use hxdl_driving_control.Sensor.Drive.{Drive}
use hxdl_driving_control.Car.{OperateMode, auto, manual, no_known}
use hxdl_driving_control.Move.{
  Order, Pose, Floats, MoveHelper, Steered, is_int, set_barrier_status,
  clear_target as forget_target,
}
use hxdl_driving_control.Move.Way.{loop_running}

-- `PathMagStruct`: the arguments of SetTargetStation.
abbrev pub PathMag : Type 0
PathMag = Order ℤ

abbrev pub no_path_mag : PathMag
no_path_mag = record {
  station = pos 0;
  mode = pos 0;
  speed = pos 0;
  x_pos = pos 0;
  y_pos = pos 0;
  angle = pos 0;
  radius = pos 0;
  action = pos 0;
  lift_height = pos 0;
}

pub data Told : Type 0 where
  voice : ℕ → ℕ → Told
  rgb_light : ℕ → ℕ → ℕ → ℕ → Told
  car_state : ℕ → Told
  battery_capacity : ℤ → Told
  net_state : ℕ → Told
  charge_switch : Bool → Told
  sleep_switch : Bool → Told
  enable : Bool → Told
  base_stop : Bool → Told
  lift_up : ℤ → ℤ → Told
  lift_down : ℤ → ℤ → Told
  init_lift : Told
  barrier_distance : ℤ → ℤ → ℤ → ℤ → Told
  clear_target : Told
  set_target : PathMag → Told

-- The three numbers that IsLostPosition compares are those of the last call, or not: an argument.
pub record Controler : Type 0 where
  pub last_lift_height : ℤ
  pub last_path_mag : PathMag
  pub operate_mode : OperateMode
  pub lifter : Lifter
  pub barriers : Barrier
  pub drive : Drive
  pub lose_position_count : ℕ
  pub told : List Told

unfoldable pub tell : List Told → Controler → Controler
tell orders k = record k { told = k.told ++ orders }

unfoldable pub arrived : ℤ → Controler → Bool × Controler
arrived height k =
    let (there, l) = lift_is_arrived height k.lifter in (there, record k { lifter = l })

unfoldable pub target_height : ℤ → Controler → Controler
target_height height k = record k { lifter = set_target_height height k.lifter }

-- CAgvCar::SetLiftHeight: 0 to 3000 mm, both ends but the upper one. Its result, which is not set for
-- another height, is not used by its callers.
unfoldable pub set_lift_height : ℤ → Controler → Controler
set_lift_height height k =
    if ltb_ℤ (pos 0) height && ltb_ℤ height (pos 3000)
    then tell (lift_up (pos 30) height ∷ []) k
    else elim height [
      | pos n ↦ (if n == 0 then tell (lift_down (pos 30) (pos 0) ∷ []) k else k)
      | _ ↦ k
    ]

unfoldable pub auto_set_barrier_distance : Controler → Controler
auto_set_barrier_distance k =
    let distance = if ltb_ℤ (pos 700) k.drive.speed && (k.drive.direction == 1) then 13 else 10 in
    tell (barrier_distance (pos 2) (pos 1) (pos 0) (pos distance) ∷ []) k

unfoldable pub stop_car : Bool → Controler → Controler
stop_car en_break k = record k {
  last_lift_height = pos k.lifter.current_height;
  told = k.told ++ clear_target ∷ base_stop en_break ∷ [];
}

unfoldable pub get_laser_stuta : Controler → ℕ
get_laser_stuta k = get_barrier_error front k.barriers

unfoldable pub set_operate_mode : OperateMode → Controler → Controler
set_operate_mode mode k = record k { operate_mode = mode }

unfoldable pub save_last_path_mag : PathMag → Controler → Controler
save_last_path_mag p k = record k { last_path_mag = p }

unfoldable pub clean_last_path_mag : Controler → Controler
clean_last_path_mag = save_last_path_mag no_path_mag

-- No order was given yet.
unfoldable pub is_no_station : PathMag → Bool
is_no_station p = elim p.station [ pos n ↦ n == 0 | _ ↦ false ]

-- `ret_of` is what the helper's SetTarget returns.
module _ (ret_of : PathMag → ℤ) where
  unfoldable pub set_target_station : PathMag → Controler → ℤ × Controler
  set_target_station p k = (ret_of p, tell (set_target p ∷ []) (save_last_path_mag p k))

  -- The last argument is the action again.
  unfoldable pub reset_last_target_station : Controler → ℤ × Controler
  reset_last_target_station k =
      let p = record k.last_path_mag { lift_height = k.last_path_mag.action } in
      if is_no_station k.last_path_mag
      then (negsuc 0, k)
      else (ret_of p, tell (set_target p ∷ []) k)

-- The limit is `maxTimeOfLostPos`; a car at rest has 1000 calls more.
unfoldable pub is_lost_position : Bool → ℕ → Controler → Bool × Controler
is_lost_position same limit k =
    let count = suc k.lose_position_count in
    let most = if ltb_ℤ (pos 0) k.drive.speed then limit else limit + 1000 in
    let lost = same && ltb most count in
    (
      lost,
      record k {
        lose_position_count = if same && (if lost then false else true) then count else 0;
      },
    )

-- IsLidarOK: the position is lost, or not.
unfoldable pub is_lidar_ok : Bool → ℕ → Controler → Bool × Controler
is_lidar_ok same limit k =
    let (lost, k1) = is_lost_position same limit k in (lost, if lost then stop_car true k1 else k1)

module _ {F : Type 0} (fl : Floats F) where
  -- What Run hands to the helper before its round.
  unfoldable pub see_barriers : Controler → MoveHelper F → MoveHelper F
  see_barriers k h =
      if is_int 1 h.car_running_mode
      then set_barrier_status (pos (get_laser_stuta k)) h
      else if is_int 2 h.car_running_mode
      then set_barrier_status (pos 0) h
      else h

  -- A round of Run: only in the automatic mode does the helper move the car.
  unfoldable pub run_round :
      (Pose F → MoveHelper F → Steered F)
      → Pose F
      → Pose F
      → Controler × MoveHelper F
      → Option (Controler × MoveHelper F)
  run_round steer current current' (k, h) =
      let round = loop_running fl steer current current' (see_barriers k h) >>= λ h1.
      if is_int 0 h1.car_running_mode && ltb_ℤ (pos 0) k.drive.speed
      then some (stop_car false k, forget_target h1)
      else some (k, h1) in
      elim k.operate_mode [ auto ↦ round | _ ↦ some (k, h) ]
