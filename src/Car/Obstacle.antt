-- ===== src/Car/Obstacle.antt =====
-- controler/AgvCar.cpp: OnBarrierMessage.
use hxdl_driving_control.Prelude.{
  ℕ, ◌/◌, ◌%◌, [], ◌∷◌, Bool, true, false, ◌&&◌, ◌||◌, Option, none, some, ltb, ◌==◌, if◌then◌else◌,
}
use hxdl_driving_control.Prelude.Int.{ℤ, pos}
use hxdl_driving_control.Wire.{◌>>=◌}
use hxdl_driving_control.Car.{
  Car, set_error_flag, clear_error_flag, tell, set_car_status, status_error, status_warning,
  set_enable, reset_last_target_station, show_current_car_state,
}

-- The events of barriers that HandleEvent passes on.
pub data BarrierEvent : Type 0 where
  barrier_ok near_barrier mid_barrier far_barrier barrier_touched : BarrierEvent

-- Whether the side of a barrier does not matter in the mode in which the car runs.
unfoldable pub is_beside : ℕ → ℕ → Bool
is_beside mode side =
    ltb 0 side
    && (((mode == 1) && (if side == 1 then false else true))
        || (((mode == 2) && (if side == 2 then false else true)) || (mode == 5 || mode == 6)))

-- The flags; `true` when a nearer barrier is there and the call ends.
unfoldable pub note_barrier : BarrierEvent → Car → Bool × Car
note_barrier barrier_ok c = (
  false,
  clear_error_flag 17 (
      clear_error_flag 16 (
        clear_error_flag 15
          (clear_error_flag 14 (clear_error_flag 8 (clear_error_flag 9 (clear_error_flag 10 c)))))),
)
note_barrier barrier_touched c = (false, set_error_flag 14 c)
note_barrier near_barrier c = (false, clear_error_flag 10 (clear_error_flag 9 (set_error_flag 8 c)))
note_barrier mid_barrier c =
    if c.error 8
    then (true, c)
    else (false, clear_error_flag 8 (clear_error_flag 10 (set_error_flag 9 c)))
note_barrier far_barrier c =
    if c.error 8 || c.error 9
    then (true, c)
    else (false, clear_error_flag 8 (clear_error_flag 9 (set_error_flag 10 c)))

-- Near or touched.
unfoldable pub is_near : BarrierEvent → Bool
is_near e = elim e [ near_barrier ↦ true | barrier_touched ↦ true | _ ↦ false ]

-- The status, and the display, with what is logged: the side's entry of posStr, which has five.
unfoldable pub show_barrier : BarrierEvent → ℕ → Car → Option Car
show_barrier barrier_ok side c = c.last_info >>= λ (s, voice).
    set_car_status s voice c >>= λ c1. some (tell (show_current_car_state 17 ∷ []) c1)
show_barrier near_barrier side c =
    if ltb side 5
    then (set_car_status status_error 5 c >>= λ c1. some (tell (show_current_car_state 12 ∷ []) c1))
    else none
show_barrier mid_barrier side c =
    if ltb side 5
    then (set_car_status status_warning 7 c >>= λ c1.
        some (tell (show_current_car_state 11 ∷ []) c1))
    else none
show_barrier far_barrier side c =
    if ltb side 5
    then (set_car_status status_warning 6 c >>= λ c1.
        some (tell (show_current_car_state 10 ∷ []) c1))
    else none
show_barrier barrier_touched side c =
    if ltb side 5
    then (set_car_status status_error 24 c >>= λ c1.
        some (tell (show_current_car_state 13 ∷ []) c1))
    else none

-- What follows the flags when the car is not stopped. `last_near` is that `lastEvent` was near.
unfoldable pub react : BarrierEvent → ℕ → Car → Option Car
react e side c =
    let again = c.last_near && (if is_near e then false else true) in
    let c1 = if again then tell (set_enable true ∷ reset_last_target_station ∷ []) c else c in
    show_barrier e side (record c1 { last_near = is_near e })

-- OnBarrierMessage: the mode, the event and its device.
unfoldable pub on_barrier_message : ℕ → BarrierEvent → ℕ → Car → Option (ℤ × Car)
on_barrier_message mode e dev c =
    let side = dev / 256 % 256 in
    if is_beside mode side
    then some (pos 1, c)
    else (let (ends, c1) = note_barrier e c in
        let shown = react e side c1 in
        if ends
        then some (pos 1, c1)
        else if c1.stop_button
        then some (pos 0, record c1 { last_near = is_near e })
        else (shown >>= λ c2. some (pos 0, c2)))
