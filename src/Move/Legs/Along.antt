-- ===== src/Move/Legs/Along.antt =====
-- controler/AgvMoveHelperForklift.cpp: a row of rounds of LoopRunning along a way.
use hxdl_driving_control.Prelude.{
  ℕ, zero, suc, ◌≤◌, ◌≡◌, ◌≢◌, refl, ap, ◌∙◌, sym, ◌⊎◌, inl, inr, List, [], ◌∷◌, ◌++◌, Option, some,
  arith, All, if◌then◌else◌,
}
use hxdl_driving_control.Prelude.Int.{pos}
use hxdl_driving_control.Wire.{◌>>=◌}
use hxdl_driving_control.Event.{important, ev_next_path_point}
use hxdl_driving_control.Sensor.{event_of}
use hxdl_driving_control.Move.{Floats, MoveHelper, is_steered, is_int, stop_mode}
use hxdl_driving_control.Move.Way.{arrive, follow, steered_by, loop_running}
use hxdl_driving_control.Move.Legs.{
  Round, IsGoing, Goes, IsArrived, Drives, Brings, brought, end_leg, go_on, steers, next_leg,
  last_leg,
}

zero_ne_one : pos 0 ≢ pos 1
zero_ne_one e = cc

module _ {F : Type 0} (fl : Floats F) where
  -- Rounds of LoopRunning, one after the other.
  unfoldable pub run : List (Round F) → MoveHelper F → Option (MoveHelper F)
  run [] h = some h
  run (r ∷ rs) h = loop_running fl r.steer r.current r.after h >>= λ h'. run rs h'

  -- After the end of the way nothing is steered.
  rests :
      (rs : List (Round F)) (h : MoveHelper F)
      → h.wheels.running_mode ≡ stop_mode
      → run rs h ≡ some h
  unfolding run loop_running is_steered
  rests [] h e = refl
  rests (r ∷ rs) h e =
      let s = r.steer r.current h in
      let goes = follow fl r.after s.ret (steered_by fl s h) in
      let stopped : loop_running fl r.steer r.current r.after h ≡ some h =
        ap (λ m. if h.is_running then if is_steered m then goes else some h else some h) e
        ∙ ground arith in
      ap (λ o. o >>= λ h'. run rs h') stopped ∙ rests rs h e

  -- One round: the way goes on with no more legs than before, or is at its end.
  abbrev Onward : Round F → ℕ → MoveHelper F → MoveHelper F → Type 0
  Onward r n h h' =
      ((m : ℕ) × (suc m ≡ n) × Drives m h h')
      ⊎ (Drives n h h' × ((r.steer r.current h).ret ≡ pos 0))
      ⊎ IsArrived h h'

  -- The end of a leg.
  ends_leg :
      (r : Round F) (n : ℕ) (h : MoveHelper F)
      → IsGoing n h
      → (r.steer r.current h).ret ≡ pos 1
      → (h' : MoveHelper F) × (follow fl r.after (pos 1) (steered_by fl (r.steer r.current h) h)
          ≡ some h')
        × Onward r n h h'
  ends_leg r zero h g e = absurd (omega (arith, g.positive))
  ends_leg r (suc zero) h g e =
      let h1 = steered_by fl (r.steer r.current h) h in
      let (eq, arrived) = last_leg fl h1 r.after (ground (arith, g.left)) in
      (
        arrive fl h1,
        eq,
        inr (inr record { stopped = arrived.stopped; announced = arrived.announced }),
      )
  ends_leg r (suc (suc k)) h g e = elim g.left [
    | inl left ↦
        let h1 = steered_by fl (r.steer r.current h) h in
        let (h', eq, d) = next_leg fl h1 r.after k g.legs g.runs left in
        (
          h',
          eq,
          inl (
            suc k,
            refl,
            record { going = d.going; same_point = d.same_point; same_events = d.same_events },
          ),
        )
    | inr single ↦
        let h1 = steered_by fl (r.steer r.current h) h in
        let (eq, arrived) = last_leg fl h1 r.after (ground (arith, single)) in
        (
          arrive fl h1,
          eq,
          inr (inr record { stopped = arrived.stopped; announced = arrived.announced }),
        )
  ]

  round :
      (r : Round F) (n : ℕ) (h : MoveHelper F)
      → Goes (r.steer r.current h) h
      → IsGoing n h
      → (h' : MoveHelper F) × (loop_running fl r.steer r.current r.after h ≡ some h')
        × Onward r n h h'
  unfolding follow is_int
  round r n h (inl (e, m)) g =
      let s = r.steer r.current h in
      (
        steered_by fl s h,
        steers fl h r.steer r.current r.after n g
            ∙ ap (λ z. follow fl r.after z (steered_by fl s h)) e,
        inr (
            inl (
              record {
                going = record {
                  runs = g.runs;
                  steered = ap is_steered m ∙ g.steered;
                  left = g.left;
                  positive = g.positive;
                  legs = g.legs;
                };
                same_point = refl;
                same_events = refl;
              },
              e,
            )),
      )
  round r n h (inr e) g =
      let s = r.steer r.current h in
      let (h', eq, onward) = ends_leg r n h g e in
      (
        h',
        steers fl h r.steer r.current r.after n g
            ∙ ap (λ z. follow fl r.after z (steered_by fl s h)) e
            ∙ eq,
        onward,
      )

  -- Under way with at most `n` legs left and nothing announced, or at the end with one event more.
  abbrev pub Trip : ℕ → MoveHelper F → MoveHelper F → Type 0
  Trip n h h' = ((m : ℕ) × (m ≤ n) × Drives m h h') ⊎ IsArrived h h'

  at_end_from : (m : ℕ) (h k h' : MoveHelper F) → Drives m h k → IsArrived k h' → IsArrived h h'
  at_end_from m h k h' d a = record {
    stopped = a.stopped;
    announced =
        a.announced
        ∙ ap (λ p. k.events ++ event_of important ev_next_path_point p.station ∷ []) d.same_point
        ∙ ap (λ l. l ++ event_of important ev_next_path_point h.target_point.station ∷ [])
            d.same_events;
  }

  further : (m n : ℕ) (h k h' : MoveHelper F) → m ≤ n → Drives m h k → Trip m k h' → Trip n h h'
  further m n h k h' le d (inl (l, le', d')) = inl (
    l,
    omega arith,
    record {
      going = d'.going;
      same_point = d'.same_point ∙ d.same_point;
      same_events = d'.same_events ∙ d.same_events;
    },
  )
  further m n h k h' le d (inr a) = inr (at_end_from m h k h' d a)

  -- Whatever rounds of LoopRunning come, with routines that go on in their mode or end their leg: each goes
  -- through, and then either no event has been sent and there
  -- are legs left, no more than at first, or the running mode is StopMode and exactly one event has been
  -- sent, that the station is reached.
  pub run-Trip :
      (rs : List (Round F)) (n : ℕ) (h : MoveHelper F)
      → All (λ r. (k : MoveHelper F) → Goes (r.steer r.current k) k) rs
      → IsGoing n h
      → (h' : MoveHelper F) × (run rs h ≡ some h') × Trip n h h'
  unfolding run
  run-Trip [] n h goes g =
      (h, refl, inl (n, omega arith, record { going = g; same_point = refl; same_events = refl }))
  run-Trip (r ∷ rs) n h goes g =
      let (k, eq, onward) = round r n h (goes.0 h) g in
      let gone = ap (λ o. o >>= λ h'. run rs h') eq in
      elim onward [
        | inl (m, e, d) ↦
            let (h', eq', trip) = run-Trip rs m k goes.1 d.going in
            (h', gone ∙ eq', further m n h k h' (omega arith) d trip)
        | inr (inl (d, _)) ↦
            let (h', eq', trip) = run-Trip rs n k goes.1 d.going in
            (h', gone ∙ eq', further n n h k h' (omega arith) d trip)
        | inr (inr a) ↦ (k, gone ∙ rests rs k a.stopped, inr a)
      ]

  -- When each round ends its leg or goes on, and at least as many rounds end one as there are legs left, the
  -- way is driven to its end, and the station is announced by exactly one event.
  pub run-Arrives :
      {n : ℕ} {rs : List (Round F)} (m : ℕ) (h : MoveHelper F)
      → Brings n rs
      → m ≤ n
      → IsGoing m h
      → (h' : MoveHelper F) × (run rs h ≡ some h') × IsArrived h h'
  unfolding run
  run-Arrives m h brought le g = absurd (omega (arith, g.positive))
  run-Arrives m h (end_leg {rs = rs} r end rest) le g =
      let (k, eq, onward) = round r m h (inr (end h)) g in
      let gone = ap (λ o. o >>= λ h'. run rs h') eq in
      elim onward [
        | inl (l, e, d) ↦
            let (h', eq', a) = run-Arrives l k rest (omega arith) d.going in
            (h', gone ∙ eq', at_end_from l h k h' d a)
        | inr (inl (d, e)) ↦ absurd (zero_ne_one (sym e ∙ end h))
        | inr (inr a) ↦ (k, gone ∙ rests rs k a.stopped, a)
      ]
  run-Arrives m h (go_on {rs = rs} r go rest) le g =
      let (k, eq, onward) = round r m h (inl (go h)) g in
      let gone = ap (λ o. o >>= λ h'. run rs h') eq in
      elim onward [
        | inl (l, e, d) ↦
            let (h', eq', a) = run-Arrives l k rest (omega arith) d.going in
            (h', gone ∙ eq', at_end_from l h k h' d a)
        | inr (inl (d, e)) ↦
            let (h', eq', a) = run-Arrives m k rest le d.going in
            (h', gone ∙ eq', at_end_from m h k h' d a)
        | inr (inr a) ↦ (k, gone ∙ rests rs k a.stopped, a)
      ]
