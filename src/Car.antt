-- ===== src/Car.antt =====
-- controler/AgvCar.cpp: the errors and the status of the car. What it asks of its controler
-- (AgvCarControler.cpp) and of the planner is a list of commands; the mode in which the car runs, which the
-- controler is asked for, is an argument. Log files are left out.
pub mod Obstacle
pub mod Shown
pub mod Barriers
pub mod Stop
pub mod LowPower
use hxdl_driving_control.Prelude.{
  ℕ, suc, ◌+◌, ◌/◌, ◌%◌, List, [], ◌∷◌, ◌++◌, Bool, true, false, ◌&&◌, ◌||◌, Option, none, some,
  ltb, leb, ◌==◌, if◌then◌else◌,
}
use hxdl_driving_control.Prelude.Int.{ℤ, pos, negsuc}
use hxdl_driving_control.Wire.{◌>>=◌}

pub data CarStatus : Type 0 where
  status_init status_normal status_running status_stopped status_turning_left status_turning_right
        status_error status_warning status_update_firmware status_low_power :
      CarStatus

-- The enumerator's number plus one: the place in StatusString.
unfoldable pub place_of : CarStatus → ℕ
place_of status_init = 0
place_of status_normal = 1
place_of status_running = 2
place_of status_stopped = 3
place_of status_turning_left = 4
place_of status_turning_right = 5
place_of status_error = 6
place_of status_warning = 7
place_of status_update_firmware = 8
place_of status_low_power = 9

-- The entries of StatusString.
abbrev pub status_strings : ℕ
status_strings = 9

-- The status that is reported to the server.
pub data ReportStatus : Type 0 where
  running stopped break_down obstacle derailed manual_mode low_power starting idle : ReportStatus

pub data OperateMode : Type 0 where
  auto manual no_known : OperateMode

-- `CarError`, as far as it is named here.
abbrev pub error_ir_near : ℕ
error_ir_near = 8

abbrev pub error_ir_mid : ℕ
error_ir_mid = 9

abbrev pub error_ir_far : ℕ
error_ir_far = 10

abbrev pub error_touch1 : ℕ
error_touch1 = 14

abbrev pub error_position : ℕ
error_position = 21

-- `CAgvVoicePlayer::Voices`, `CAgvRgbLight::LightMode` and `RunMode` by their numbers.
abbrev pub mp3_path_mag_fault : ℕ
mp3_path_mag_fault = 27

pub data Command : Type 0 where
  play_voice : ℕ → ℕ → Command
  set_rgb_light : ℕ → ℕ → ℕ → ℕ → Command
  stop_car : Bool → Command
  lift_stop : Command
  set_enable : Bool → Command
  reset_last_target_station : Command
  show_current_car_state : ℕ → Command
  update_car_info : ReportStatus → Command

-- `carInfo.Error` by its bits, and `carInfo.Status`; `lastCarInfo`, if it was written; the static
-- variables of SetCarStatus and OnBarrierMessage. The commands, oldest first.
pub record Car : Type 0 where
  pub error : ℕ → Bool
  pub status : CarStatus
  pub last_info : Option (CarStatus × ℕ)
  pub operate_mode : OperateMode
  pub report_status : ReportStatus
  pub stop_button : Bool
  pub first_set_status : Bool
  pub last_status : Option CarStatus
  pub last_near : Bool
  pub commands : List Command

unfoldable pub is_have_error : ℕ → Car → Bool
is_have_error flag c = c.error flag

unfoldable pub set_error_flag : ℕ → Car → Car
set_error_flag flag c = record c { error = λ k. if k == flag then true else c.error k }

unfoldable pub clear_error_flag : ℕ → Car → Car
clear_error_flag flag c = record c { error = λ k. if k == flag then false else c.error k }

unfoldable pub tell : List Command → Car → Car
tell commands c = record c { commands = c.commands ++ commands }

abbrev pub same_status : CarStatus → CarStatus → Bool
same_status a b = place_of a == place_of b

-- A new status is logged by its entry of StatusString.
unfoldable pub log_status : CarStatus → Car → Option Car
log_status status c = elim c.last_status [
  | none ↦
      if ltb (place_of status) status_strings
      then some (record c { last_status = some status })
      else none
  | some last ↦
      if same_status last status
      then some c
      else if ltb (place_of status) status_strings
      then some (record c { last_status = some status })
      else none
]

-- The case StatusError, with the voice to play.
unfoldable pub on_error : ℕ → Car → Car
on_error para c =
    let c' = tell (play_voice para 255 ∷ set_rgb_light 3 1 0 0 ∷ stop_car true ∷ []) c in
    if c.error error_position
    then record c' { report_status = break_down }
    else if para == mp3_path_mag_fault
    then record c' { report_status = derailed }
    else if c.error error_ir_near
        || (c.error error_touch1 || (c.error 15 || (c.error 16 || c.error 17)))
    then record c' { report_status = obstacle }
    else if ltb 0 para
    then record c' { report_status = break_down }
    else c'

unfoldable pub on_low_power : ℕ → Car → Car
on_low_power para c =
    let low = record (tell (play_voice para 255 ∷ set_rgb_light 3 2 0 0 ∷ []) c) {
      report_status = low_power;
    } in
    elim c.report_status [ obstacle ↦ c | break_down ↦ c | _ ↦ low ]

-- The switch of SetCarStatus.
unfoldable pub enter : CarStatus → ℕ → Car → Car
enter status_init para c = record (tell (play_voice 1 1 ∷ set_rgb_light 3 0 2 0 ∷ []) c) {
  first_set_status = false;
  report_status = idle;
}
enter status_normal para c =
    let voice = if para == 0 then play_voice 0 1 else play_voice 3 3 in
    record (tell (voice ∷ set_rgb_light 3 0 0 1 ∷ []) c) { report_status = idle }
enter status_running para c =
    let voice = if para == 2 then play_voice 23 255 else play_voice 2 255 in
    record (tell (voice ∷ set_rgb_light 3 0 1 0 ∷ []) c) { report_status = running }
enter status_stopped para c =
    record (tell (play_voice 0 1 ∷ set_rgb_light 3 0 0 1 ∷ stop_car false ∷ []) c) {
      report_status = stopped;
    }
enter status_turning_left para c =
    tell (play_voice 15 1 ∷ set_rgb_light 1 1 0 0 ∷ set_rgb_light 2 0 1 0 ∷ []) c
enter status_turning_right para c =
    tell (play_voice 15 1 ∷ set_rgb_light 1 0 1 0 ∷ set_rgb_light 2 1 0 0 ∷ []) c
enter status_update_firmware para c =
    record (tell (play_voice 0 1 ∷ set_rgb_light 3 3 3 3 ∷ []) c) { report_status = stopped }
enter status_error para c = on_error para c
enter status_warning para c =
    let voice = if ltb 0 para then play_voice para 3 ∷ [] else [] in
    tell (voice ++ set_rgb_light 3 2 0 0 ∷ []) c
enter status_low_power para c = on_low_power para c

-- The status that are entered again when they are already there.
unfoldable pub is_entered_again : CarStatus → Bool
is_entered_again s = elim s [
  | status_init ↦ true
  | status_error ↦ true
  | status_low_power ↦ true
  | status_running ↦ true
  | _ ↦ false
]

-- The status that a barrier's end does not go back to.
unfoldable pub is_passing : CarStatus → Bool
is_passing s = elim s [
  | status_error ↦ true
  | status_warning ↦ true
  | status_init ↦ true
  | _ ↦ false
]

-- The end of SetCarStatus: what is reported to the planner.
unfoldable pub report : Car → Car
report c =
    let c1 = if c.first_set_status then record c { report_status = starting } else c in
    let c2 : Car = elim c.operate_mode [
      | manual ↦ record c1 { report_status = manual_mode }
      | _ ↦ c1
    ] in
    tell (update_car_info c2.report_status ∷ []) c2

unfoldable pub note_last : CarStatus → ℕ → Car → Car
note_last s para c = if is_passing s then c else record c { last_info = some (s, para) }

-- SetCarStatus, which returns 0; `none` is a read behind StatusString.
unfoldable pub set_car_status : CarStatus → ℕ → Car → Option Car
set_car_status s para c =
    let entered =
      if is_entered_again s || (if same_status s c.status then false else true)
      then (log_status s c >>= λ c1. some (enter s para c1))
      else some c in
    entered >>= λ c2. some (report (record (note_last s para c2) { status = s }))

-- StopCar.
unfoldable pub stop : Bool → Car → Option Car
stop all c = set_car_status status_stopped 0 (record c { stop_button = true }) >>= λ c1.
    some (tell (lift_stop ∷ (if all then set_enable false ∷ [] else [])) c1)
