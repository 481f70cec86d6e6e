-- ===== src/Move/Start.antt =====
-- controler/AgvMoveHelperForklift.cpp: from SetTarget to the end of the way.
use hxdl_driving_control.Prelude.{
  ℕ, ◌≤◌, ◌<◌, ◌≡◌, refl, ap, ◌∙◌, ◌⊎◌, inl, inr, List, [], ◌∷◌, ◌++◌, true, false, Option, some,
  arith, get_elem?,
}
use hxdl_driving_control.Prelude.Int.{ℤ, pos, negsuc}
use hxdl_driving_control.Wire.{◌>>=◌}
use hxdl_driving_control.Event.{important, ev_next_path_point, ev_path_mag_error}
use hxdl_driving_control.Sensor.{event_of}
use hxdl_driving_control.Move.{
  Pose, Floats, SubPath, MoveHelper, Order, Split, is_line_mode, is_rotate_mode, is_int, point_of,
  turn_by, send, needs_stop, single_leg, relative, is_steered, plan, clear_subpath, take_leg,
  stop_mode,
}
use hxdl_driving_control.Move.Way.{begin_way, set_target}
use hxdl_driving_control.Move.Legs.{Round, HasLegs, IsGoing, Brings}
use hxdl_driving_control.Move.Legs.Along.{run, run-Arrives}

turn_modes :
    (mode : ℤ)
    → is_rotate_mode mode ≡ true
    → (is_line_mode mode ≡ false) × (is_int 10 mode ≡ false) × (is_steered mode ≡ true)
unfolding is_rotate_mode is_line_mode is_steered is_int
turn_modes (pos n) h = ground arith
turn_modes (negsuc n) h = absurd (ground arith)

module _ {F : Type 0} (fl : Floats F) (split adjust : Pose F → Order F → Split F) (current : Pose F)
    (o : Order F) where
  -- What SplitToSubTarget leaves of a way that can be driven: at least one leg, and all of them in modes
  -- that are steered.
  pub record IsDrivable (n : ℕ) : Type 0 where
    pub no_error : (split current o).error_code ≡ pos 0
    pub counts : (split current o).count ≡ n
    pub some_legs : 0 < n
    pub legs : HasLegs n (split current o).legs

  -- SetTarget went through, and `n` legs are ahead.
  pub record IsUnderWay (n : ℕ) (h h' : MoveHelper F) : Type 0 where
    pub done : set_target fl split adjust current o h ≡ some (pos 0, h')
    pub going : IsGoing n h'
    pub same_events : h'.events ≡ h.events
    pub station_is : h'.target_point.station ≡ o.station
    pub mode_is : h'.car_running_mode ≡ o.mode

  -- The helper before the way is cut into legs.
  abbrev cleared : MoveHelper F → MoveHelper F
  cleared h = clear_subpath fl (record h { car_running_mode = o.mode; max_speed_allowed = o.speed })

  abbrev ordered : MoveHelper F → MoveHelper F
  ordered h = record h { target_point = point_of o h.target_point.need_stop }

  abbrev driven : SubPath F → MoveHelper F → MoveHelper F
  driven leg h = record (ordered h) {
    is_running = true;
    path_index = 0;
    target_pose = turn_by fl h.rotate_mode leg.runmode current leg.target;
    wheels = record h.wheels {
      running_mode = leg.runmode;
      target_speed = leg.speed;
      init_para_flag = false;
      is_change_speed_init = false;
    };
  }

  begins :
      (h : MoveHelper F) (leg : SubPath F)
      → get_elem? h.subpath 0 ≡ some leg
      → begin_way fl current o h ≡ some (pos 0, driven leg h)
  unfolding begin_way take_leg
  begins h leg e =
      ap
        (λ z.
          (z >>= λ l. some (record (ordered h) {
            path_index = 0;
            target_pose = turn_by fl h.rotate_mode l.runmode current l.target;
            wheels = record h.wheels { running_mode = l.runmode; target_speed = l.speed };
          }))
          >>= λ h1. some (
            pos 0,
            record h1 {
              is_running = true;
              wheels = record h1.wheels { init_para_flag = false; is_change_speed_init = false };
            },
          ))
        e

  planned :
      (h h2 : MoveHelper F)
      → plan split adjust current o (cleared h) ≡ inr h2
      → set_target fl split adjust current o h ≡ begin_way fl current o h2
  unfolding set_target
  planned h h2 e =
      ap
        (λ (z : (ℤ × MoveHelper F) ⊎ MoveHelper F). elim z as (λ z. Option (ℤ × MoveHelper F)) [
          | inl (code, k) ↦ some (negsuc 0, send (event_of important ev_path_mag_error code) k)
          | inr h2 ↦ begin_way fl current o h2
        ])
        e

  -- The helper when the way is cut into lines.
  abbrev lined : MoveHelper F → MoveHelper F
  lined h = record (cleared h) {
    subpath = (split current o).legs;
    subpath_size = (split current o).count;
    target_point = record h.target_point { need_stop = needs_stop o.action o.mode };
    rotate_mode = relative;
  }

  plan-line :
      (h : MoveHelper F)
      → is_line_mode o.mode ≡ true
      → (split current o).error_code ≡ pos 0
      → plan split adjust current o (cleared h) ≡ inr (lined h)
  unfolding plan is_int clear_subpath
  plan-line h line e = rw (line, e) refl

  line-IsUnderWay :
      (n : ℕ) (h : MoveHelper F)
      → is_line_mode o.mode ≡ true
      → IsDrivable n
      → (h' : MoveHelper F) × IsUnderWay n h h'
  unfolding clear_subpath point_of
  line-IsUnderWay n h line d =
      let (leg, there, steered) = d.legs 0 d.some_legs in
      (
        driven leg (lined h),
        record {
          done = planned h (lined h) (plan-line h line d.no_error) ∙ begins (lined h) leg there;
          going = record {
            runs = refl;
            steered = steered;
            left = inl (omega (arith, d.counts));
            positive = d.some_legs;
            legs = λ i lt. d.legs i (omega (arith, d.counts));
          };
          same_events = refl;
          station_is = refl;
          mode_is = refl;
        },
      )

  abbrev turned : MoveHelper F → MoveHelper F
  turned h = record (cleared h) {
    subpath = single_leg o (cleared h).subpath;
    subpath_size = 0;
    target_point = record h.target_point { need_stop = false };
    rotate_mode = relative;
  }

  plan-turn :
      (h : MoveHelper F)
      → is_rotate_mode o.mode ≡ true
      → plan split adjust current o (cleared h) ≡ inr (turned h)
  unfolding plan clear_subpath
  plan-turn h turn = rw ((turn_modes o.mode turn).0, (turn_modes o.mode turn).1) refl

  turn-IsUnderWay :
      (h : MoveHelper F) → is_rotate_mode o.mode ≡ true → (h' : MoveHelper F) × IsUnderWay 1 h h'
  unfolding clear_subpath point_of single_leg
  turn-IsUnderWay h turn =
      let leg : SubPath F = record {
        target = record { x_pos = o.x_pos; y_pos = o.y_pos; angle = o.angle };
        runmode = o.mode;
        distance = pos 0;
        speed = pos 100;
      } in
      (
        driven leg (turned h),
        record {
          done = planned h (turned h) (plan-turn h turn) ∙ begins (turned h) leg refl;
          going = record {
            runs = refl;
            steered = (turn_modes o.mode turn).2;
            left = inr refl;
            positive = omega arith;
            legs = λ i lt. absurd (omega arith);
          };
          same_events = refl;
          station_is = refl;
          mode_is = refl;
        },
      )

  -- SetTarget with a way that can be driven, of `n` legs, or with a rotation, one leg, and then rounds of
  -- LoopRunning that go on or end their leg, at least `n` of them the latter: SetTarget returns 0, and in the
  -- end the running mode is StopMode and exactly one event has been sent, that the station ordered is
  -- reached.
  pub set_target-Arrives :
      (rs : List (Round F)) (n : ℕ) (h : MoveHelper F)
      → ((is_line_mode o.mode ≡ true) × IsDrivable n) ⊎ ((is_rotate_mode o.mode ≡ true) × (n ≡ 1))
      → Brings n rs
      → (h1 : MoveHelper F) × (h2 : MoveHelper F) × (set_target fl split adjust current o h
          ≡ some (pos 0, h1))
        × (run fl rs h1 ≡ some h2)
        × (h2.wheels.running_mode ≡ stop_mode)
        × (h2.events ≡ h.events ++ event_of important ev_next_path_point o.station ∷ [])
  set_target-Arrives rs n h way brings =
      let started : (m : ℕ) × (m ≤ n) × (h1 : MoveHelper F) × IsUnderWay m h h1 = elim way [
        | inl (line, d) ↦ let (h1, s) = line-IsUnderWay n h line d in (n, omega arith, h1, s)
        | inr (turn, one) ↦ let (h1, s) = turn-IsUnderWay h turn in (1, omega arith, h1, s)
      ] in
      let (m, le, h1, s) = started in
      let (h2, eq, a) = run-Arrives fl m h1 brings le s.going in
      (
        h1,
        h2,
        s.done,
        eq,
        a.stopped,
        a.announced
            ∙ ap (λ l. l ++ event_of important ev_next_path_point h1.target_point.station ∷ [])
                s.same_events
            ∙ ap (λ z. h.events ++ event_of important ev_next_path_point z ∷ []) s.station_is,
      )
