-- ===== src/Move/Legs.antt =====
-- controler/AgvMoveHelperForklift.cpp: the rounds of LoopRunning along the legs of a way.
pub mod Along
use hxdl_driving_control.Prelude.{
  ℕ, zero, suc, ◌+◌, ◌≤◌, ◌<◌, ◌≡◌, ◌≢◌, refl, ap, ◌∙◌, sym, ◌⊎◌, inl, inr, List, [], ◌∷◌, ◌++◌,
  true, false, Option, some, arith, ltb, get_elem?, All, if◌then◌else◌,
}
use hxdl_driving_control.Prelude.Int.{pos}
use hxdl_driving_control.Wire.{◌>>=◌}
use hxdl_driving_control.Event.{important, ev_next_path_point}
use hxdl_driving_control.Sensor.{event_of}
use hxdl_driving_control.Move.{
  Pose, Floats, SubPath, MoveHelper, Steered, is_steered, is_int, stop_mode, turn_by, take_leg,
  clear_subpath,
}
use hxdl_driving_control.Move.Way.{arrive, follow, steered_by, loop_running}

-- A round: the routine that steers, and the two poses.
pub record Round (F : Type 0) : Type 0 where
  pub steer : Pose F → MoveHelper F → Steered F
  pub current : Pose F
  pub after : Pose F

module _ {F : Type 0} where
  -- The `size` first places of the subpath hold legs in modes that are steered.
  abbrev pub HasLegs : ℕ → List (SubPath F) → Type 0
  HasLegs size legs =
      (i : ℕ)
      → i < size
      → (leg : SubPath F) × (get_elem? legs i ≡ some leg) × (is_steered leg.runmode ≡ true)

  -- `n` legs are left, the one that is driven included.
  pub record IsGoing (n : ℕ) (h : MoveHelper F) : Type 0 where
    pub runs : h.is_running ≡ true
    pub steered : is_steered h.wheels.running_mode ≡ true
    pub left : (h.path_index + n ≡ h.subpath_size) ⊎ (h.subpath_size ≡ 0)
    pub positive : 0 < n
    pub legs : HasLegs h.subpath_size h.subpath

  -- A call that goes on in its mode, or that ends its leg.
  abbrev pub Goes : Steered F → MoveHelper F → Type 0
  Goes s h = ((s.ret ≡ pos 0) × (s.wheels.running_mode ≡ h.wheels.running_mode)) ⊎ (s.ret ≡ pos 1)

  -- The whole way was driven: the running mode is StopMode, and there is one more event.
  pub record IsArrived (h h' : MoveHelper F) : Type 0 where
    pub stopped : h'.wheels.running_mode ≡ stop_mode
    pub announced :
        h'.events ≡ h.events ++ event_of important ev_next_path_point h.target_point.station ∷ []

  -- What one leg more, or one leg less, leaves.
  pub record Drives (n : ℕ) (h h' : MoveHelper F) : Type 0 where
    pub going : IsGoing n h'
    pub same_point : h'.target_point ≡ h.target_point
    pub same_events : h'.events ≡ h.events

-- Rounds of which `n` end a leg, whatever the helper, and the others go on.
pub data Brings {F : Type 0} : ℕ → List (Round F) → Type 0 where
  brought : {rs : List (Round F)} → Brings zero rs
  end_leg :
      {n : ℕ} {rs : List (Round F)} (r : Round F)
      → ((k : MoveHelper F) → (r.steer r.current k).ret ≡ pos 1)
      → Brings n rs
      → Brings (suc n) (r ∷ rs)
  go_on :
      {n : ℕ} {rs : List (Round F)} (r : Round F)
      → ((k : MoveHelper F)
          → ((r.steer r.current k).ret ≡ pos 0)
            × ((r.steer r.current k).wheels.running_mode ≡ k.wheels.running_mode))
      → Brings n rs
      → Brings n (r ∷ rs)

module _ {F : Type 0} (fl : Floats F) (h : MoveHelper F) where
  -- A round of a helper that is under way.
  steers :
      (steer : Pose F → MoveHelper F → Steered F)
      → (current after : Pose F) → (n : ℕ) → IsGoing n h
      → loop_running fl steer current after h
        ≡ follow fl after (steer current h).ret (steered_by fl (steer current h) h)
  unfolding loop_running
  steers steer current after n g =
      let s = steer current h in
      let goes = follow fl after s.ret (steered_by fl s h) in
      ap (λ b. if b then if is_steered h.wheels.running_mode then goes else some h else some h)
        g.runs
      ∙ ap (λ b. if b then goes else some h) g.steered

  next_leg :
      (after : Pose F) (n : ℕ)
      → HasLegs h.subpath_size h.subpath
      → h.is_running ≡ true
      → h.path_index + suc (suc n) ≡ h.subpath_size
      → (h' : MoveHelper F) × (follow fl after (pos 1) h ≡ some h') × Drives (suc n) h h'
  unfolding follow is_int take_leg
  next_leg after n legs runs left =
      let (leg, there, drives) = legs (suc h.path_index) (omega arith) in
      let more : ltb (suc h.path_index) h.subpath_size ≡ true = ground (arith, left) in
      let go = λ (l : SubPath F). record h {
        path_index = suc h.path_index;
        target_pose = turn_by fl h.rotate_mode l.runmode after l.target;
        wheels = record h.wheels { running_mode = l.runmode; target_speed = l.speed };
      } in
      (
        go leg,
        ap (λ b. if b then take_leg fl (suc h.path_index) after h else some (arrive fl h)) more
            ∙ ap (λ o. o >>= λ l. some (go l)) there,
        record {
          going = record {
            runs = runs;
            steered = drives;
            left = inl (omega (arith, left));
            positive = omega arith;
            legs = legs;
          };
          same_point = refl;
          same_events = refl;
        },
      )

  last_leg :
      (after : Pose F)
      → ltb (suc h.path_index) h.subpath_size ≡ false
      → (follow fl after (pos 1) h ≡ some (arrive fl h)) × IsArrived h (arrive fl h)
  unfolding follow is_int arrive clear_subpath
  last_leg after ends = (
    ap (λ b. if b then take_leg fl (suc h.path_index) after h else some (arrive fl h)) ends,
    record { stopped = refl; announced = refl },
  )
