-- ===== src/Tests/Moving.antt =====
-- The helper that moves the car: controler/AgvMoveHelperForklift.cpp on small inputs, with numbers for floats.
use hxdl_driving_control.Prelude.{
  ℕ, zero, suc, ◌-◌, ◌≡◌, refl, inl, inr, List, [], ◌∷◌, ◌++◌, true, false, some, arith, ◌<◌,
  replicate, get_elem?,
}
use hxdl_driving_control.Prelude.Int.{ℤ, pos, ◌-ℤ◌}
use hxdl_driving_control.Event.{important, ev_next_path_point}
use hxdl_driving_control.Sensor.{event_of}
use hxdl_driving_control.Wire.{int_of}
use hxdl_driving_control.Move.Speed.{Wheels, is_slowed, cal_aspeed, cal_dspeed, abs, int32}
use hxdl_driving_control.Move.Ramp.Rounds.{rounds}
use hxdl_driving_control.Move.Sixty.{rounds-64}
use hxdl_driving_control.Move.{
  Pose, Floats, SubPath, RunContext, MoveHelper, Order, Split, relative, no_leg, is_steered,
  is_line_mode, is_rotate_mode, is_int, stop_mode,
}
use hxdl_driving_control.Move.Way.{set_target}
use hxdl_driving_control.Move.Legs.{Round, brought, end_leg, go_on}
use hxdl_driving_control.Move.Legs.Along.{Trip, run, run-Trip}
use hxdl_driving_control.Move.Start.{set_target-Arrives}

abbrev floats : Floats ℕ
floats = record { zero_angle = 0; sub = λ a b. a - b; transform_angle = λ a. a }

abbrev wheels : Wheels ℕ
wheels = record {
  running_mode = pos 1;
  init_para_flag = false;
  is_change_speed_init = false;
  current_linear_speed = pos 100;
  target_speed = pos 1500;
  aspeed = pos 46;
  dspeed = pos 23;
  base_angular_speed = 0;
}

abbrev keep : ℕ → ℤ → ℤ → ℕ
keep base a s = base

steps : (cal_aspeed (pos 100) (pos 1500) ≡ 23) × (cal_dspeed (pos 100) (pos 1500) ≡ 23)
unfolding cal_aspeed cal_dspeed abs int32 int_of ◌-ℤ◌
steps = (refl, refl)

clear : is_slowed (pos 0) ≡ false
unfolding is_slowed
clear = refl

rounds-64_example : (rounds keep (pos 0) 64 wheels).current_linear_speed ≡ pos 1500
rounds-64_example =
    rounds-64 keep (pos 0) wheels 46 23 (omega arith) (omega arith) (omega arith) (omega arith) refl
      refl (omega (arith, steps.0)) (omega (arith, steps.1)) (inl (omega arith, omega arith, clear))

abbrev fast : Wheels ℕ
fast = record wheels { current_linear_speed = pos 900 }

abbrev here : Pose ℕ
here = record { x_pos = pos 0; y_pos = pos 0; angle = 0 }

abbrev leg : SubPath ℕ
leg = record { target = here; runmode = pos 1; distance = pos 0; speed = pos 300 }

abbrev legs : List (SubPath ℕ)
legs = leg ∷ record leg { runmode = pos 7 } ∷ replicate 3 (no_leg floats)

abbrev point : RunContext ℕ
point = record {
  station = pos 12;
  mode = pos 1;
  x_pos = pos 0;
  y_pos = pos 0;
  angle = 0;
  radius = pos 0;
  speed = pos 30;
  action = pos 1;
  need_stop = true;
  lift_height = pos 0;
}

abbrev helper : MoveHelper ℕ
helper = record {
  is_running = true;
  car_running_mode = pos 1;
  max_speed_allowed = pos 30;
  target_point = point;
  target_pose = here;
  path_index = 0;
  subpath_size = 2;
  subpath = legs;
  rotate_mode = relative;
  wheels = wheels;
  barrier_status = pos 0;
  last_barrier = pos 0;
  told = [];
  events = [];
}

-- A routine that ends its leg at once, and one that goes on.
abbrev ending : Round ℕ
ending = record {
  steer = λ p h. record { ret = pos 1; wheels = h.wheels; told = [] };
  current = here;
  after = here;
}

abbrev going : Round ℕ
going = record {
  steer = λ p h. record { ret = pos 0; wheels = h.wheels; told = [] };
  current = here;
  after = here;
}

steered : (is_steered (pos 1) ≡ true) × (is_steered (pos 7) ≡ true) × (is_line_mode (pos 1) ≡ true)
unfolding is_steered is_line_mode is_rotate_mode is_int
steered = (refl, refl, refl)

has_legs :
    (i : ℕ) → i < 2 → (l : SubPath ℕ) × (get_elem? legs i ≡ some l) × (is_steered l.runmode ≡ true)
has_legs zero h = (leg, refl, steered.0)
has_legs (suc zero) h = (record leg { runmode = pos 7 }, refl, steered.1)
has_legs (suc (suc i)) h = absurd (omega arith)

run-Trip_example :
    (h' : MoveHelper ℕ) × (run floats (going ∷ ending ∷ []) helper ≡ some h')
    × Trip floats 2 helper h'
run-Trip_example =
    run-Trip floats (going ∷ ending ∷ []) 2 helper (λ k. inl (refl, refl), (λ k. inr refl, tt))
      record {
        runs = refl;
        steered = steered.0;
        left = inl refl;
        positive = omega arith;
        legs = has_legs;
      }

abbrev order : Order ℕ
order = record {
  station = pos 12;
  mode = pos 1;
  speed = pos 30;
  x_pos = pos 100;
  y_pos = pos 0;
  angle = 0;
  radius = pos 0;
  action = pos 1;
  lift_height = pos 0;
}

abbrev split : Pose ℕ → Order ℕ → Split ℕ
split p o = record { error_code = pos 0; legs = legs; count = 2 }

set_target-Arrives_example :
    (h1 : MoveHelper ℕ) × (h2 : MoveHelper ℕ) × (set_target floats split split here order helper
      ≡ some (pos 0, h1))
    × (run floats (going ∷ ending ∷ ending ∷ []) h1 ≡ some h2)
    × (h2.wheels.running_mode ≡ stop_mode)
    × (h2.events ≡ [] ++ event_of important ev_next_path_point (pos 12) ∷ [])
set_target-Arrives_example =
    set_target-Arrives floats split split here order (going ∷ ending ∷ ending ∷ []) 2 helper
      (inl (
        steered.2,
        record { no_error = refl; counts = refl; some_legs = omega arith; legs = has_legs },
      ))
      (go_on going (λ k. (refl, refl))
        (end_leg ending (λ k. refl) (end_leg ending (λ k. refl) brought)))
