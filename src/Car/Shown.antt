-- ===== src/Car/Shown.antt =====
-- controler/AgvCar.cpp: SetCarStatus for a barrier leaves the errors as they are.
use hxdl_driving_control.Prelude.{
  ℕ, ◌≡◌, ◌≢◌, ◌<◌, refl, ap, ◌∙◌, inl, inr, List, [], ◌∷◌, true, false, ◌||◌, Option, none, some,
  arith, ltb, if◌then◌else◌, Bool-cases, Option-cases,
}
use hxdl_driving_control.Wire.{◌>>=◌}
use hxdl_driving_control.Car.{
  Car, CarStatus, Command, place_of, is_passing, status_error, status_warning,
  show_current_car_state, tell, log_status, on_error, on_low_power, enter, report, note_last,
  set_car_status, is_entered_again, same_status,
}
use hxdl_driving_control.Car.Obstacle.{
  BarrierEvent, barrier_ok, near_barrier, mid_barrier, far_barrier, barrier_touched, show_barrier,
}

-- The status that the car goes back to when a barrier ends is there, and StatusString has it.
abbrev pub IsReady : Option (CarStatus × ℕ) → Type 0
IsReady info = (s : CarStatus) × (voice : ℕ) × (info ≡ some (s, voice)) × (place_of s < 9)

-- The same flags, and the same status to go back to.
abbrev pub Same : Car → Car → Type 0
Same c c' = (c'.error ≡ c.error) × (c'.last_info ≡ c.last_info)

enter-Same : (s : CarStatus) (para : ℕ) (c : Car) → Same c (enter s para c)
unfolding enter on_error on_low_power tell
enter-Same s para c = ground arith

report-Same : (c : Car) → Same c (report c)
unfolding report tell
report-Same c = ground arith

log_status-Same : (s : CarStatus) (c c' : Car) → log_status s c ≡ some c' → Same c c'
unfolding log_status
log_status-Same s c c' e = ground (arith, e)

log_status-ne-none : (s : CarStatus) (c : Car) → place_of s < 9 → log_status s c ≢ none
unfolding log_status
log_status-ne-none s c h e = ground (arith, e, h)

-- The part of SetCarStatus that enters the status, or not.
entered-Same :
    (s : CarStatus) (para : ℕ) (c : Car)
    → place_of s < 9
    → (c2 : Car) × Same c c2
      × (set_car_status s para c ≡ some (report (record (note_last s para c2) { status = s })))
unfolding set_car_status
entered-Same s para c h =
    elim (Bool-cases (is_entered_again s || (if same_status s c.status then false else true))) [
      | inr left ↦ (c, (refl, refl), rw left)
      | inl entered ↦ elim (Option-cases (log_status s c)) [
        | inl bad ↦ absurd (log_status-ne-none s c h bad)
        | inr (c1, logged) ↦
            let (e1, i1) = log_status-Same s c c1 logged in
            let (e2, i2) = enter-Same s para c1 in
            (enter s para c1, (e2 ∙ e1, i2 ∙ i1), rw (entered, logged))
      ]
    ]

note_last-error : (s : CarStatus) (para : ℕ) (c : Car) → (note_last s para c).error ≡ c.error
unfolding note_last
note_last-error s para c = ground arith

note_last-last_info :
    (s : CarStatus) (para : ℕ) (c : Car)
    → (note_last s para c).last_info ≡ (if is_passing s then c.last_info else some (s, para))
unfolding note_last
note_last-last_info s para c = ground arith

-- A result with the flags and a status to go back to.
pub record Shown (o : Option Car) (c : Car) : Type 0 where
  pub after : Car
  pub done : o ≡ some after
  pub same : after.error ≡ c.error
  pub ready : IsReady after.last_info

set_car_status-Shown :
    (s : CarStatus) (para : ℕ) (c : Car)
    → place_of s < 9
    → IsReady c.last_info
    → Shown (set_car_status s para c) c
set_car_status-Shown s para c h ready =
    let (c2, (e, i), set) = entered-Same s para c h in
    let noted = record (note_last s para c2) { status = s } in
    let (e', i') = report-Same noted in
    let info = i' ∙ note_last-last_info s para c2 in
    record {
      after = report noted;
      done = set;
      same = e' ∙ note_last-error s para c2 ∙ e;
      ready = elim (Bool-cases (is_passing s)) [
        | inl passing ↦
            let (last, voice, there, low) = ready in
            let kept = ap (λ b. if b then c2.last_info else some (s, para)) passing in
            (last, voice, info ∙ kept ∙ i ∙ there, low)
        | inr lasting ↦
            let kept = ap (λ b. if b then c2.last_info else some (s, para)) lasting in
            (s, para, info ∙ kept, h)
      ];
    }

told-Shown :
    (commands : List Command) (o : Option Car) (c : Car)
    → Shown o c
    → Shown (o >>= λ c1. some (tell commands c1)) c
unfolding tell
told-Shown commands o c s = record {
  after = tell commands s.after;
  done = ap (λ o. o >>= λ c1. some (tell commands c1)) s.done;
  same = s.same;
  ready = s.ready;
}

pub show_barrier-Shown :
    (e : BarrierEvent) (side : ℕ) (c : Car)
    → side < 5
    → IsReady c.last_info
    → Shown (show_barrier e side c) c
unfolding show_barrier place_of
show_barrier-Shown barrier_ok side c h ready =
    let (s, voice, there, low) = ready in
    let shown =
      told-Shown (show_current_car_state 17 ∷ []) (set_car_status s voice c) c
        (set_car_status-Shown s voice c low ready) in
    record {
      after = shown.after;
      done =
          ap
            (λ info. info >>= λ (s, voice).
              set_car_status s voice c >>= λ c1. some (tell (show_current_car_state 17 ∷ []) c1))
            there
          ∙ shown.done;
      same = shown.same;
      ready = shown.ready;
    }
show_barrier-Shown near_barrier side c h ready =
    let inside : ltb side 5 ≡ true = ground arith in
    rw inside (
      told-Shown (show_current_car_state 12 ∷ []) (set_car_status status_error 5 c) c
        (set_car_status-Shown status_error 5 c (omega arith) ready))
show_barrier-Shown mid_barrier side c h ready =
    let inside : ltb side 5 ≡ true = ground arith in
    rw inside (
      told-Shown (show_current_car_state 11 ∷ []) (set_car_status status_warning 7 c) c
        (set_car_status-Shown status_warning 7 c (omega arith) ready))
show_barrier-Shown far_barrier side c h ready =
    let inside : ltb side 5 ≡ true = ground arith in
    rw inside (
      told-Shown (show_current_car_state 10 ∷ []) (set_car_status status_warning 6 c) c
        (set_car_status-Shown status_warning 6 c (omega arith) ready))
show_barrier-Shown barrier_touched side c h ready =
    let inside : ltb side 5 ≡ true = ground arith in
    rw inside (
      told-Shown (show_current_car_state 13 ∷ []) (set_car_status status_error 24 c) c
        (set_car_status-Shown status_error 24 c (omega arith) ready))
