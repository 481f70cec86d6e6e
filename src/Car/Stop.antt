-- ===== src/Car/Stop.antt =====
-- controler/AgvCar.cpp: a near barrier makes the car stop.
use hxdl_driving_control.Prelude.{
  ℕ, ◌≡◌, ◌<◌, ◌/◌, ◌%◌, refl, ap, ◌∙◌, inl, inr, List, [], ◌∷◌, ◌++◌, true, false, ◌&&◌, Option,
  some, arith, append_assoc, ltb, if◌then◌else◌, Bool-cases, Option-cases,
}
use hxdl_driving_control.Prelude.Int.{ℤ, pos}
use hxdl_driving_control.Wire.{◌>>=◌}
use hxdl_driving_control.Car.{
  Car, CarStatus, Command, auto, ReportStatus, obstacle, break_down, place_of, same_status,
  is_passing, is_entered_again, status_error, play_voice, set_rgb_light, stop_car, update_car_info,
  show_current_car_state, set_enable, reset_last_target_station, set_error_flag, clear_error_flag,
  tell, log_status, on_error, enter, report, note_last, set_car_status,
}
use hxdl_driving_control.Car.Obstacle.{
  near_barrier, is_beside, note_barrier, is_near, show_barrier, react, on_barrier_message,
}

-- The status that is reported for a near barrier.
abbrev pub reported : Car → ReportStatus
reported c = if c.error 21 then break_down else obstacle

-- What a near barrier makes of a car that runs by itself.
pub record Stops (c : Car) (o : Option (ℤ × Car)) : Type 0 where
  pub after : Car
  pub done : o ≡ some (pos 0, after)
  pub flagged : after.error 8 ≡ true
  pub entered : after.status ≡ status_error
  pub reports : after.report_status ≡ reported c
  pub commands :
      after.commands
      ≡ c.commands
        ++ play_voice 5 255
          ∷ set_rgb_light 3 1 0 0
          ∷ stop_car true
          ∷ update_car_info (reported c)
          ∷ show_current_car_state 12
          ∷ []

log_status_known :
    (c : Car) (last : CarStatus)
    → c.last_status ≡ some last
    → same_status last status_error ≡ true
    → log_status status_error c ≡ some c
unfolding log_status place_of
log_status_known c last there same = ground (arith, there, same)

log_status-error :
    (c : Car)
    → (last : Option CarStatus) × (log_status status_error c
        ≡ some (record c { last_status = last }))
unfolding log_status place_of
log_status-error c = elim (Option-cases c.last_status) [
  | inl none_yet ↦ (some status_error, rw (none_yet, log_status) refl)
  | inr (last, there) ↦ elim (Bool-cases (same_status last status_error)) [
    | inl same ↦ (c.last_status, log_status_known c last there same)
    | inr other ↦ (some status_error, rw (there, log_status, other) refl)
  ]
]

abbrev alarm : List Command
alarm = play_voice 5 255 ∷ set_rgb_light 3 1 0 0 ∷ stop_car true ∷ []

on_error-near :
    (c : Car)
    → c.error 8 ≡ true
    → on_error 5 c ≡ record c { report_status = reported c; commands = c.commands ++ alarm }
unfolding on_error tell
on_error-near c near = elim (Bool-cases (c.error 21)) [
  | inl lost ↦ ground (arith, near, lost)
  | inr found ↦ ground (arith, near, found)
]

report-auto :
    (c : Car)
    → c.operate_mode ≡ auto
    → c.first_set_status ≡ false
    → report c ≡ record c { commands = c.commands ++ update_car_info c.report_status ∷ [] }
unfolding report tell
report-auto c mode first = ground (arith, mode, first)

-- What SetCarStatus makes of a car with a near barrier.
set_car_status-near :
    (c : Car)
    → c.error 8 ≡ true
    → c.operate_mode ≡ auto
    → c.first_set_status ≡ false
    → (last : Option CarStatus) × (set_car_status status_error 5 c
        ≡ some (record c {
          status = status_error;
          last_status = last;
          report_status = reported c;
          commands = (c.commands ++ alarm) ++ update_car_info (reported c) ∷ [];
        }))
unfolding set_car_status is_entered_again note_last is_passing enter
set_car_status-near c near mode first =
    let (last, logged) = log_status-error c in
    let c1 = record c { last_status = last } in
    let c2 = record c1 { report_status = reported c; commands = c.commands ++ alarm } in
    (
      last,
      ap
            (λ o. (o >>= λ k. some (on_error 5 k)) >>= λ k.
              some (report (record k { status = status_error })))
            logged
          ∙ ap (λ k. some (report (record k { status = status_error }))) (on_error-near c1 near)
          ∙ ap some (report-auto (record c2 { status = status_error }) mode first),
    )

show_barrier-near :
    (side : ℕ) (c c' : Car)
    → ltb side 5 ≡ true
    → set_car_status status_error 5 c ≡ some c'
    → show_barrier near_barrier side c ≡ some (tell (show_current_car_state 12 ∷ []) c')
unfolding show_barrier
show_barrier-near side c c' inside set = rw (inside, set)

react-near :
    (side : ℕ) (c : Car)
    → react near_barrier side c ≡ show_barrier near_barrier side (record c { last_near = true })
unfolding react is_near
react-near side c =
    let told = tell (set_enable true ∷ reset_last_target_station ∷ []) c in
    let again : (c.last_near && false) ≡ false = ground arith in
    ap (λ b. show_barrier near_barrier side (record (if b then told else c) { last_near = true }))
      again

reacts :
    (mode dev : ℕ) (c c' : Car)
    → is_beside mode (dev / 256 % 256) ≡ false
    → c.stop_button ≡ false
    → react near_barrier (dev / 256 % 256) (note_barrier near_barrier c).1 ≡ some c'
    → on_barrier_message mode near_barrier dev c ≡ some (pos 0, c')
unfolding on_barrier_message note_barrier set_error_flag clear_error_flag
reacts mode dev c c' before goes shown =
    let c1 = (note_barrier near_barrier c).1 in
    let out = react near_barrier (dev / 256 % 256) c1 >>= λ c2. some (pos 0, c2) in
    let stopped = some (pos 0, record c1 { last_near = is_near near_barrier }) in
    ap (λ b. if b then some (pos 1, c) else if c.stop_button then stopped else out) before
    ∙ ap (λ b. if b then stopped else out) goes
    ∙ ap (λ o. o >>= λ c2. some (pos 0, c2)) shown

-- OnBarrierMessage for a near barrier that is not beside the way, of a car that runs by itself and has
-- been ready: the controler is told to stop the car and nothing that starts it, the flag and the status of
-- an error are set, and an obstacle is reported, or a breakdown when the position is lost.
pub on_barrier_message-Stops :
    (mode dev : ℕ) (c : Car)
    → is_beside mode (dev / 256 % 256) ≡ false
    → dev / 256 % 256 < 5
    → c.stop_button ≡ false
    → c.operate_mode ≡ auto
    → c.first_set_status ≡ false
    → Stops c (on_barrier_message mode near_barrier dev c)
unfolding note_barrier set_error_flag clear_error_flag tell
on_barrier_message-Stops mode dev c before inside goes auto_mode ready =
    let c1 = (note_barrier near_barrier c).1 in
    let (last, set) = set_car_status-near (record c1 { last_near = true }) refl auto_mode ready in
    let side : ltb (dev / 256 % 256) 5 ≡ true = ground arith in
    let noted = record c1 {
      last_near = true;
      status = status_error;
      last_status = last;
      report_status = reported c;
      commands = (c.commands ++ alarm) ++ update_car_info (reported c) ∷ [];
    } in
    record {
      after = tell (show_current_car_state 12 ∷ []) noted;
      done = reacts mode dev c (tell (show_current_car_state 12 ∷ []) noted) before goes (
          react-near (dev / 256 % 256) c1
          ∙ show_barrier-near (dev / 256 % 256) (record c1 { last_near = true }) noted side set);
      flagged = refl;
      entered = refl;
      reports = refl;
      commands =
          append_assoc (c.commands ++ alarm) (update_car_info (reported c) ∷ [])
            (show_current_car_state 12 ∷ [])
          ∙ append_assoc c.commands alarm
              (update_car_info (reported c) ∷ show_current_car_state 12 ∷ []);
    }
