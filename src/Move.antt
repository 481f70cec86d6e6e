-- ===== src/Move.antt =====
-- controler/AgvMoveHelper.cpp and controler/AgvMoveHelperForklift.cpp: the legs on which the car goes to its
-- target. There are no floats here: `Floats` is what is needed of them. The poses come from the lidar, and
-- the routines that steer along a leg, and those that cut the way into legs, are parameters too; all of
-- these compute with floats. Waiting, and what is printed, is left out.
pub mod Way
pub mod Speed
pub mod Ramp
pub mod Sixty
pub mod Legs
pub mod Start
use hxdl_driving_control.Prelude.{
  ◌⊎◌, inl, inr, ℕ, suc, ◌+◌, List, [], ◌∷◌, ◌++◌, Bool, true, false, ◌&&◌, ◌||◌, Option, none,
  some, ltb, ◌==◌, if◌then◌else◌, get_elem?, replicate,
}
use hxdl_driving_control.Prelude.Int.{ℤ, pos, negsuc, ltb_ℤ}
use hxdl_driving_control.Wire.{◌>>=◌}
use hxdl_driving_control.Event.{important, ev_path_mag_error, ev_next_path_point}
use hxdl_driving_control.Sensor.{SensorEvent, event_of}
use hxdl_driving_control.Move.Speed.{Wheels}

-- `x == n`.
unfoldable pub is_int : ℕ → ℤ → Bool
is_int n (pos k) = k == n
is_int n (negsuc k) = false

-- `RunMode`.
abbrev pub stop_mode : ℤ
stop_mode = pos 0

unfoldable pub is_line_mode : ℤ → Bool
unfolding is_int
is_line_mode mode = is_int 1 mode || is_int 2 mode

unfoldable pub is_rotate_mode : ℤ → Bool
unfolding is_int
is_rotate_mode mode = is_int 5 mode || is_int 6 mode

pub data RotateMode : Type 0 where
  relative absolute : RotateMode

-- `F` is float.
pub record Pose (F : Type 0) : Type 0 where
  pub x_pos : ℤ
  pub y_pos : ℤ
  pub angle : F

-- `transform_angle` is that of CAgvMathUtils with the limits -360, 360 and 180.
pub record Floats (F : Type 0) : Type 0 where
  pub zero_angle : F
  pub sub : F → F → F
  pub transform_angle : F → F

pub record SubPath (F : Type 0) : Type 0 where
  pub target : Pose F
  pub runmode : ℤ
  pub distance : ℤ
  pub speed : ℤ

pub record RunContext (F : Type 0) : Type 0 where
  pub station : ℤ
  pub mode : ℤ
  pub x_pos : ℤ
  pub y_pos : ℤ
  pub angle : F
  pub radius : ℤ
  pub speed : ℤ
  pub action : ℤ
  pub need_stop : Bool
  pub lift_height : ℤ

-- What the base controler is told.
pub data BaseCommand : Type 0 where
  stop_base : Bool → BaseCommand
  set_break : Bool → BaseCommand

-- The subpath has five places. What is told to the base controler and the events sent are oldest first.
pub record MoveHelper (F : Type 0) : Type 0 where
  pub is_running : Bool
  pub car_running_mode : ℤ
  pub max_speed_allowed : ℤ
  pub target_point : RunContext F
  pub target_pose : Pose F
  pub path_index : ℕ
  pub subpath_size : ℕ
  pub subpath : List (SubPath F)
  pub rotate_mode : RotateMode
  pub wheels : Wheels F
  pub barrier_status : ℤ
  pub last_barrier : ℤ
  pub told : List BaseCommand
  pub events : List SensorEvent

-- The arguments of SetTarget.
pub record Order (F : Type 0) : Type 0 where
  pub station : ℤ
  pub mode : ℤ
  pub speed : ℤ
  pub x_pos : ℤ
  pub y_pos : ℤ
  pub angle : F
  pub radius : ℤ
  pub action : ℤ
  pub lift_height : ℤ

-- What SplitToSubTarget or AttitudeAdjustToFork leaves: the number returned, the legs and their count.
pub record Split (F : Type 0) : Type 0 where
  pub error_code : ℤ
  pub legs : List (SubPath F)
  pub count : ℕ

-- One call of a routine that steers: the number returned, what it leaves of the wheels, and what it tells.
pub record Steered (F : Type 0) : Type 0 where
  pub ret : ℤ
  pub wheels : Wheels F
  pub told : List BaseCommand

unfoldable pub needs_stop : ℤ → ℤ → Bool
unfolding is_int
needs_stop action mode = is_int 1 action || ((is_int 4 action && is_int 2 mode) || is_int 5 action)

-- The modes for which a routine is called.
unfoldable pub is_steered : ℤ → Bool
unfolding is_line_mode is_rotate_mode is_int
is_steered mode = is_line_mode mode || (is_int 7 mode || (is_int 8 mode || is_rotate_mode mode))

module _ {F : Type 0} where
  unfoldable pub single_leg : Order F → List (SubPath F) → List (SubPath F)
  single_leg o [] = []
  single_leg o (leg ∷ legs) =
      record {
        target = record { x_pos = o.x_pos; y_pos = o.y_pos; angle = o.angle };
        runmode = o.mode;
        distance = pos 0;
        speed = pos 100;
      }
      ∷ legs

  -- The legs to the target, the flag needStop and how angles are read; `none` when the way cannot be cut
  -- into legs.
  unfoldable pub plan :
      (Pose F → Order F → Split F)
      → (Pose F → Order F → Split F)
      → Pose F
      → Order F
      → MoveHelper F
      → (ℤ × MoveHelper F) ⊎ MoveHelper F
  unfolding single_leg
  plan split adjust current o h =
      if is_line_mode o.mode
      then (let s = split current o in
          if is_int 0 s.error_code
          then inr (record h {
            subpath = s.legs;
            subpath_size = s.count;
            target_point = record h.target_point { need_stop = needs_stop o.action o.mode };
            rotate_mode = relative;
          })
          else inl (s.error_code, record h { subpath = s.legs; subpath_size = s.count }))
      else if is_int 10 o.mode
      then (let s = adjust current o in
          inr (record h {
            subpath = s.legs;
            subpath_size = s.count;
            target_point = record h.target_point { need_stop = true };
            rotate_mode = absolute;
          }))
      else inr (record h {
        subpath = single_leg o h.subpath;
        subpath_size = 0;
        target_point = record h.target_point { need_stop = false };
        rotate_mode = relative;
      })

  unfoldable pub point_of : Order F → Bool → RunContext F
  point_of o need_stop = record {
    station = o.station;
    mode = o.mode;
    x_pos = o.x_pos;
    y_pos = o.y_pos;
    angle = o.angle;
    radius = o.radius;
    speed = o.speed;
    action = o.action;
    need_stop = need_stop;
    lift_height = o.lift_height;
  }

  abbrev pub send : SensorEvent → MoveHelper F → MoveHelper F
  send e h = record h { events = h.events ++ e ∷ [] }

  unfoldable pub clear_target : MoveHelper F → MoveHelper F
  clear_target h = record h {
    is_running = false;
    car_running_mode = stop_mode;
    wheels = record h.wheels {
      running_mode = stop_mode;
      init_para_flag = false;
      is_change_speed_init = false;
    };
  }

  -- `last_barrier` is the static variable.
  unfoldable pub set_barrier_status : ℤ → MoveHelper F → MoveHelper F
  set_barrier_status status h =
      if ltb_ℤ h.last_barrier status || ltb_ℤ status h.last_barrier
      then record h { last_barrier = status; barrier_status = status }
      else h

module _ {F : Type 0} (fl : Floats F) where
  abbrev pub no_pose : Pose F
  no_pose = record { x_pos = pos 0; y_pos = pos 0; angle = fl.zero_angle }

  abbrev pub no_leg : SubPath F
  no_leg = record { target = no_pose; runmode = pos 0; distance = pos 0; speed = pos 0 }

  unfoldable pub clear_subpath : MoveHelper F → MoveHelper F
  clear_subpath h = record h { subpath = replicate 5 no_leg; subpath_size = 0 }

  -- A rotation to an angle that is given absolutely becomes one by the difference.
  unfoldable pub turn_by : RotateMode → ℤ → Pose F → Pose F → Pose F
  unfolding is_rotate_mode
  turn_by relative mode current target = target
  turn_by absolute mode current target =
      if is_rotate_mode mode
      then record target { angle = fl.transform_angle (fl.sub current.angle target.angle) }
      else target

  -- The leg at an index of the subpath; one that is not there is a read outside of the array.
  unfoldable pub take_leg : ℕ → Pose F → MoveHelper F → Option (MoveHelper F)
  unfolding turn_by
  take_leg index current h = get_elem? h.subpath index >>= λ leg. some (record h {
    path_index = index;
    target_pose = turn_by h.rotate_mode leg.runmode current leg.target;
    wheels = record h.wheels { running_mode = leg.runmode; target_speed = leg.speed };
  })
