-- ===== src/Vehicle/Halt.antt =====
-- controler/AgvCar.cpp: the key to stop.
use hxdl_driving_control.Prelude.{
  ℕ, ◌≡◌, refl, sym, ap, ◌∙◌, inl, inr, List, [], ◌∷◌, ◌++◌, Bool, true, false, Option, some, arith,
  append-nil, append_assoc, ltb, if◌then◌else◌, Bool-cases, Option-cases,
}
use hxdl_driving_control.Prelude.Int.{ℤ}
use hxdl_driving_control.Wire.{◌>>=◌}
use hxdl_driving_control.Event.{ev_key_stop}
use hxdl_driving_control.Route.Reports.{update_car_info}
use hxdl_driving_control.Car.{
  Car, CarStatus, Command, status_stopped, place_of, status_strings, same_status, log_status, enter,
  is_entered_again, is_passing, note_last, report, set_car_status, stop, auto, OperateMode,
  play_voice, set_rgb_light, stop_car, lift_stop, ReportStatus, starting,
  update_car_info as report_car,
}
use hxdl_driving_control.Car as Car
use hxdl_driving_control.Controler.{Told, voice, rgb_light, clear_target, base_stop}
use hxdl_driving_control.Controler as Controler
use hxdl_driving_control.Vehicle.{
  Machine, Vehicle, carry_out, carry_out_all, on_car, stop_all, update,
}
use hxdl_driving_control.Vehicle.Handler.{Payload, is_auto}
use hxdl_driving_control.Vehicle.Dispatch.{handle_event}

-- What is told when the car enters the status: the lights, the helper and the base.
abbrev pub halt : List Told
halt = voice 0 1 ∷ rgb_light 3 0 0 1 ∷ clear_target ∷ base_stop false ∷ []

-- A status with an entry in StatusString is logged.
log_status-some :
    (s : CarStatus) (c : Car)
    → ltb (place_of s) status_strings ≡ true
    → (last : Option CarStatus) × (log_status s c ≡ some (record c { last_status = last }))
unfolding log_status
log_status-some s c named = elim (Option-cases c.last_status) [
  | inl none_yet ↦ (some s, rw (none_yet, log_status, named) refl)
  | inr (last, there) ↦ elim (Bool-cases (same_status last s)) [
    | inl same ↦ (
      some last,
      rw (there, log_status, same) (ap (λ o. some (record c { last_status = o })) there),
    )
    | inr other ↦ (some s, rw (there, log_status, other, named) refl)
  ]
]

-- What an automatic car reports is one command more.
report-tells :
    (c : Car)
    → c.operate_mode ≡ auto
    → (st : ReportStatus) × (report c
        ≡ record c { report_status = st; commands = c.commands ++ report_car st ∷ [] })
unfolding report Car.tell
report-tells c mode = elim (Bool-cases c.first_set_status) [
  | inl first ↦ (starting, ground (arith, mode, first))
  | inr later ↦ (c.report_status, ground (arith, mode, later))
]

-- What the car asks for when it is to stop.
abbrev asked : Bool → List Command
asked there = if there then [] else play_voice 0 1 ∷ set_rgb_light 3 0 0 1 ∷ stop_car false ∷ []

-- The car with nothing asked for yet, and with the button of StopCar.
abbrev quiet : Car → Car
quiet c = record c { stop_button = true; commands = [] }

record Stopped (c : Car) (o : Option Car) : Type 0 where
  after : Car
  status_after : ReportStatus
  done : o ≡ some after
  stands : after.status ≡ status_stopped
  button : after.stop_button ≡ true
  commands_are :
      after.commands ≡ asked (same_status status_stopped c.status) ++ report_car status_after ∷ []

named : ltb (place_of status_stopped) status_strings ≡ true
unfolding place_of
named = refl

-- SetCarStatus after the status was entered, or not.
abbrev settled : Option Car → Option Car
settled o = o >>= λ c.
    some (report (record c { last_info = some (status_stopped, 0); status = status_stopped }))

set_car_status-entered :
    (c : Car)
    → set_car_status status_stopped 0 c
      ≡ settled (
          if same_status status_stopped c.status
          then some c
          else (log_status status_stopped c >>= λ c1. some (enter status_stopped 0 c1)))
unfolding set_car_status is_entered_again note_last is_passing
set_car_status-entered c = elim (Bool-cases (same_status status_stopped c.status)) [
  | inl there ↦ rw there refl
  | inr entering ↦ rw entering refl
]

set_car_status-Stopped :
    (c : Car) → c.operate_mode ≡ auto → Stopped c (set_car_status status_stopped 0 (quiet c))
unfolding enter Car.tell
set_car_status-Stopped c mode =
    let (last, logged) = log_status-some status_stopped (quiet c) named in
    let c1 = record (quiet c) { last_status = last } in
    let entered = enter status_stopped 0 c1 in
    let logs = log_status status_stopped (quiet c) >>= λ c1. some (enter status_stopped 0 c1) in
    elim (Bool-cases (same_status status_stopped c.status)) [
      | inl there ↦
          let (st, told) =
            report-tells
              (record (quiet c) { last_info = some (status_stopped, 0); status = status_stopped })
              mode in
          record {
            after = _;
            status_after = st;
            done =
                set_car_status-entered (quiet c)
                ∙ ap (λ b. settled (if b then some (quiet c) else logs)) there
                ∙ ap some told;
            stands = refl;
            button = refl;
            commands_are = ap (λ b. asked b ++ report_car st ∷ []) (sym there);
          }
      | inr entering ↦
          let (st, told) =
            report-tells
              (record entered { last_info = some (status_stopped, 0); status = status_stopped })
              mode in
          record {
            after = _;
            status_after = st;
            done =
                set_car_status-entered (quiet c)
                ∙ ap (λ b. settled (if b then some (quiet c) else logs)) entering
                ∙ ap (λ o. settled (o >>= λ c1. some (enter status_stopped 0 c1))) logged
                ∙ ap some told;
            stands = refl;
            button = refl;
            commands_are = ap (λ b. asked b ++ report_car st ∷ []) (sym entering);
          }
    ]

-- What is told to the devices when the status is another, and what is kept of the lift's height.
abbrev pub told_to : CarStatus → List Told
told_to s = if same_status status_stopped s then [] else halt

pub record Halts (v : Vehicle) (o : Option Vehicle) : Type 0 where
  pub after : Vehicle
  pub done : o ≡ some after
  pub stands : after.car.status ≡ status_stopped
  pub button : after.car.stop_button ≡ true
  pub told_is : after.control.told ≡ v.control.told ++ told_to v.car.status
  pub same_path : after.router.path_list ≡ v.router.path_list
  pub same_target : after.router.target_path_id ≡ v.router.target_path_id

record Carried (there : Bool) (v : Vehicle) (o : Option Vehicle) : Type 0 where
  after : Vehicle
  done : o ≡ some after
  same_car : after.car ≡ v.car
  told_is : after.control.told ≡ v.control.told ++ (if there then [] else halt)
  same_path : after.router.path_list ≡ v.router.path_list
  same_target : after.router.target_path_id ≡ v.router.target_path_id

-- The commands of StopCar carried out.
carry_out_all-Carried :
    (m : Machine) (there : Bool) (st : ReportStatus) (v : Vehicle)
    → Carried there v (carry_out_all m ((asked there ++ report_car st ∷ []) ++ lift_stop ∷ []) v)
unfolding carry_out_all carry_out update update_car_info Controler.tell Controler.stop_car
carry_out_all-Carried m true st v = record {
  after = _;
  done = refl;
  same_car = refl;
  told_is = sym (append-nil v.control.told);
  same_path = refl;
  same_target = refl;
}
carry_out_all-Carried m false st v = record {
  after = _;
  done = refl;
  same_car = refl;
  told_is = rw append_assoc (rw append_assoc refl);
  same_path = refl;
  same_target = refl;
}

-- The key to stop, of a car in automatic mode: it is handled without a fault, the car is stopped and its
-- button noted, the path and the target stay, and the voice, the lights, the helper and the base are told so,
-- unless the car's status was that already: then they are told nothing.
pub handle_event-Halts :
    (m : Machine) (mode : ℕ) (same : Bool) (param : ℤ) (payload : Option Payload) (v : Vehicle)
    → v.car.operate_mode ≡ auto
    → Halts v (handle_event m mode same ev_key_stop param payload v)
unfolding handle_event is_auto stop_all on_car stop Car.tell
handle_event-Halts m mode same param payload v automatic =
    let s = set_car_status-Stopped v.car automatic in
    let there = same_status status_stopped v.car.status in
    let car = Car.tell (lift_stop ∷ []) s.after in
    let w = record v { car = record car { commands = [] } } in
    let c = carry_out_all-Carried m there s.status_after w in
    record {
      after = c.after;
      done =
          ap
            (λ md.
              if (elim md as (λ x. Bool) [ auto ↦ true | _ ↦ false ])
              then stop_all m false v
              else some v)
            automatic
          ∙ ap
              (λ o. (o >>= λ c1. some (Car.tell (lift_stop ∷ []) c1)) >>= λ c2.
                carry_out_all m c2.commands (record v { car = record c2 { commands = [] } }))
              s.done
          ∙ ap (λ l. carry_out_all m (l ++ lift_stop ∷ []) w) s.commands_are
          ∙ c.done;
      stands = ap (λ (k : Car). k.status) c.same_car ∙ s.stands;
      button = ap (λ (k : Car). k.stop_button) c.same_car ∙ s.button;
      told_is = c.told_is;
      same_path = c.same_path;
      same_target = c.same_target;
    }
