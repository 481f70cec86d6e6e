-- ===== src/Car/LowPower.antt =====
-- controler/AgvCar.cpp: the status of a battery that is low.
use hxdl_driving_control.Prelude.{
  ℕ, ◌≡◌, ◌≢◌, ap, ◌∙◌, inl, inr, true, none, some, arith, Bool-cases, Option-cases,
}
use hxdl_driving_control.Car.{
  Car, CarStatus, status_low_power, place_of, same_status, log_status, is_entered_again,
  set_car_status,
}

same_status-low_power :
    (s : CarStatus) → same_status s status_low_power ≡ true → s ≡ status_low_power
unfolding place_of
same_status-low_power s h = ground (arith, h)

log_status-low_power :
    (c : Car) → c.last_status ≢ some status_low_power → log_status status_low_power c ≡ none
unfolding log_status place_of
log_status-low_power c new = elim (Option-cases c.last_status) [
  | inl none_yet ↦ ground (arith, none_yet)
  | inr (last, there) ↦ elim (Bool-cases (same_status last status_low_power)) [
    | inl same ↦ absurd (new (there ∙ ap some (same_status-low_power last same)))
    | inr other ↦ ground (arith, there, other)
  ]
]

-- SetCarStatus with the status of a low battery is a fault, whatever the voice and whatever the state of
-- the car, unless that is the status that was logged last: StatusString has no entry for it.
pub set_car_status-low_power :
    (para : ℕ) (c : Car)
    → c.last_status ≢ some status_low_power
    → set_car_status status_low_power para c ≡ none
unfolding set_car_status is_entered_again
set_car_status-low_power para c new = rw (log_status-low_power c new)
