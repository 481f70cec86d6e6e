-- ===== src/Move/Speed.antt =====
-- controler/AgvMoveHelperForklift.cpp: ManageWheelSpeed and what it goes by. Speeds are in mm/s, negative
-- when the car backs. `F` is float; `scale b a s` stands for `b * ((float)a / s)`, which is an infinity or
-- no number when `s` is 0.
use hxdl_driving_control.Prelude.{
  ℕ, suc, ◌-◌, ◌*◌, ◌/◌, ◌%◌, ◌^◌, Bool, true, false, ◌&&◌, ◌||◌, ltb, ◌==◌, if◌then◌else◌,
}
use hxdl_driving_control.Wire.{int_of}
use hxdl_driving_control.Prelude.Int.{ℤ, pos, negsuc, ◌+ℤ◌, ◌-ℤ◌, ltb_ℤ}

abbrev pub min_aspeed : ℕ
min_aspeed = 15

abbrev pub min_dspeed : ℕ
min_dspeed = 15

abbrev pub low_speed_allowed : ℤ
low_speed_allowed = pos 300

pub record Wheels (F : Type 0) : Type 0 where
  pub running_mode : ℤ
  pub init_para_flag : Bool
  pub is_change_speed_init : Bool
  pub current_linear_speed : ℤ
  pub target_speed : ℤ
  pub aspeed : ℤ
  pub dspeed : ℤ
  pub base_angular_speed : F

-- `x <= y`.
abbrev pub leb_ℤ : ℤ → ℤ → Bool
leb_ℤ x y = if ltb_ℤ y x then false else true

-- An int of 32 bits: a result that does not fit is cut, as the machine does.
unfoldable pub int32 : ℤ → ℤ
int32 (pos n) = int_of (n % 2 ^ 32)
int32 (negsuc n) = int_of (2 ^ 32 - suc (n % 2 ^ 32))

-- One step of at most `d` upwards, cut at the target.
unfoldable pub step_up : ℤ → ℤ → ℤ → ℤ
step_up current target d =
    let next = int32 (current +ℤ d) in if ltb_ℤ target next then target else next

unfoldable pub step_down : ℤ → ℤ → ℤ → ℤ
step_down current target d =
    let next = int32 (current -ℤ d) in if ltb_ℤ next target then target else next

-- A barrier that is far or in the middle.
unfoldable pub is_slowed : ℤ → Bool
is_slowed (pos n) = (n == 1) || (n == 2)
is_slowed (negsuc n) = false

-- The linear speed in forward mode.
unfoldable pub forward_speed : ℤ → ℤ → ℤ → ℤ → ℤ → ℤ
unfolding is_slowed
forward_speed barrier current target aspeed dspeed =
    if is_slowed barrier
    then (if ltb_ℤ low_speed_allowed current then low_speed_allowed else current)
    else if ltb_ℤ target current
    then step_down current target dspeed
    else if ltb_ℤ current target
    then step_up current target aspeed
    else current

unfoldable pub backward_speed : ℤ → ℤ → ℤ → ℤ → ℤ
backward_speed current target aspeed dspeed =
    if ltb_ℤ current target
    then step_up current target dspeed
    else if ltb_ℤ target current
    then step_down current target aspeed
    else current

module _ {F : Type 0} (scale : F → ℤ → ℤ → F) where
  -- The argument is BarrierStatus. A speed and a target on different sides of 0 are left as they are.
  unfoldable pub manage_wheel_speed : ℤ → Wheels F → Wheels F
  manage_wheel_speed barrier w =
      let saved = w.current_linear_speed in
      if leb_ℤ (pos 0) w.target_speed && leb_ℤ (pos 0) saved
      then (let next = forward_speed barrier saved w.target_speed w.aspeed w.dspeed in
          record w {
            current_linear_speed = next;
            base_angular_speed = scale w.base_angular_speed next saved;
          })
      else if leb_ℤ w.target_speed (pos 0) && leb_ℤ saved (pos 0)
      then (let next = backward_speed saved w.target_speed w.aspeed w.dspeed in
          record w {
            current_linear_speed = next;
            base_angular_speed = scale w.base_angular_speed next saved;
          })
      else w

-- `abs`; that of the smallest number, which C leaves open, is here the number that has no place in 32 bits.
unfoldable pub abs : ℤ → ℕ
abs (pos n) = n
abs (negsuc n) = suc n

-- The change of speed in each of 4 * 15 periods.
unfoldable pub cal_aspeed : ℤ → ℤ → ℕ
unfolding abs
cal_aspeed current target =
    let a = abs (int32 (target -ℤ current)) / (4 * 15) in if ltb a min_aspeed then min_aspeed else a

unfoldable pub cal_dspeed : ℤ → ℤ → ℕ
unfolding abs
cal_dspeed current target =
    let d = abs (int32 (current -ℤ target)) / (4 * 15) in if ltb d min_dspeed then min_dspeed else d

unfoldable pub speed_for : ℤ → ℤ
speed_for distance =
    if ltb_ℤ (pos 7000) distance
    then pos 1500
    else if ltb_ℤ (pos 5000) distance
    then pos 1300
    else if ltb_ℤ (pos 3000) distance
    then pos 1000
    else if ltb_ℤ (pos 2000) distance
    then pos 500
    else if ltb_ℤ (pos 500) distance
    then pos 300
    else pos 150

-- The first argument is MAXSPEEDALLOWED.
unfoldable pub cal_target_speed_by_path_distance : ℤ → ℤ → ℤ
unfolding speed_for
cal_target_speed_by_path_distance max_speed distance =
    let speed = speed_for distance in if ltb_ℤ max_speed speed then max_speed else speed
