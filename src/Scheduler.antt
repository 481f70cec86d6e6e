-- ===== src/Scheduler.antt =====
-- controler/AgvScheduler.cpp: what the receiving thread does with the bytes of the server, and how a
-- command is sent. The socket's SocketWrite, mktime and settimeofday are not of this program: they are
-- the parameters of `Outside`. Waiting for an answer (a call with `ack`) is left out: no caller waits.
mod Cmd
pub mod Acknowledge
pub mod Receive
pub mod Parse
pub mod Garbage
pub mod Pushed
pub mod Frames
pub mod Stop
pub use Cmd.*
use hxdl_driving_control.Prelude.{
  ℕ, zero, suc, ◌+◌, ◌-◌, List, [], ◌∷◌, ◌++◌, Bool, true, false, Option, none, some, leb, ltb,
  ◌==◌, if◌then◌else◌, length, drop,
}
use hxdl_driving_control.Prelude.Int.{ℤ, pos, negsuc, ◌-ℤ◌}
use hxdl_driving_control.Wire.{short_of, u8, u16}
use hxdl_driving_control.Protocol.{
  Protocol, Pointer, external, deref, new, new_cmd, pack_data, unpack_data, Reply,
}
use hxdl_driving_control.Messages.Reports.{
  Packed, AckToServer, ack_to_server_pack, ReportStatus, report_status_pack, ReportActionStatus,
  report_action_status_pack, RequestPath, request_path_pack, HeartBeat, heart_beat_pack,
  system_time_pack,
}
use hxdl_driving_control.Messages.Commands.{
  DoAction, do_action_unpack, SetSpeed, set_speed_unpack, ServerAck, server_ack_unpack, SystemTime,
  system_time_unpack,
}
use hxdl_driving_control.Messages.Path.{
  StationInfo, SetPath, set_path_unpack, get_test_station_info,
}
use hxdl_driving_control.Event.{
  EventList, Event, EventHelper, normal, important, urgent, push_event, ev_key_start, ev_key_stop,
  ev_set_speed, ev_get_new_path, ev_turn_on_charge, ev_turn_off_charge, ev_set_barrier_distance,
  ev_agv_sleep, ev_agv_wake_up,
}

-- What the data pointer of an event leads to: the station list of the scheduler's own `pathList`. A
-- handler that follows it reads what the list holds by then.
pub data Shared : Type 0 where
  path_stations : Shared

-- `struct tm`, as far as it is filled from the message; the week day, the day of the year and the
-- daylight flag are the constants 1, 2 and -1.
pub record Tm : Type 0 where
  pub year : ℤ
  pub mon : ℤ
  pub mday : ℕ
  pub hour : ℕ
  pub min : ℕ
  pub sec : ℕ

-- Whether SocketWrite returns 0, what mktime returns (`none` for -1), whether settimeofday succeeds.
pub record Outside : Type 0 where
  pub socket_write : List ℕ → Bool
  pub mktime : Tm → Option ℕ
  pub set_time_of_day : ℕ → Bool

-- The scheduler with what it acts on: the event helper, the bytes given to the socket so far, oldest
-- first, and the system's clock where it was set.
pub record Scheduler : Type 0 where
  pub is_connected : Bool
  pub last_cmd : ℕ
  pub last_cmd_ack : Option ServerAck
  pub cmd_sem : ℕ
  pub cur_status : ReportStatus
  pub path_list : SetPath
  pub heart_beat_timeout : ℕ
  pub agv_id : ℕ
  pub send_buf : List ℕ
  pub events : EventHelper Shared
  pub sent : List (List ℕ)
  pub clock : Option ℕ

-- `none` is a fault: an access outside of an array or through NULL, or a use of a variable that was
-- never set.
abbrev pub M : Type 0 → Type 0
M A = Scheduler → Option (A × Scheduler)

abbrev pub pure : {A : Type 0} → A → M A
pure a s = some (a, s)

abbrev pub fault : {A : Type 0} → M A
fault s = none

infixl 5 ◌>>=◌ ◌>>◌
abbrev pub ◌>>=◌ : {A B : Type 0} → M A → (A → M B) → M B
◌>>=◌ m f s = elim (m s) [ none ↦ none | some (a, s') ↦ f a s' ]

abbrev pub ◌>>◌ : {B : Type 0} → M (Unit {0}) → M B → M B
m >> k = m >>= λ _. k

-- A value that is computed without the state; its fault is the scheduler's.
abbrev pub lift : {A : Type 0} → Option A → M A
lift none s = none
lift (some a) s = some (a, s)

-- `SendEvent`, `SendImportantEvent` and `SendUrgentEvent`, by the priority.
unfoldable pub send_event : ℤ → EventList → ℤ → Option Shared → M (Unit {0})
send_event priority event param payload s =
    let e : Event Shared = record {
      event = event;
      param = param;
      priority = priority;
      payload = payload;
    } in
    elim (push_event (some e) s.events) [
      | none ↦ none
      | some (_, events) ↦ some (tt, record s { events = events })
    ]

unfoldable pub tm_of : SystemTime → Tm
tm_of t = record {
  year = pos t.year -ℤ pos 1900;
  mon = pos t.mon -ℤ pos 1;
  mday = t.mday;
  hour = t.hour;
  min = t.min;
  sec = t.sec;
}

module _ (out : Outside) where
  -- `SendCmdAndReceive` with no `ack`. The frame goes to an array of 2048 bytes.
  unfoldable pub send_cmd : ℕ → Pointer → ℕ → M ℤ
  send_cmd cmd data_ptr len s = elim s.is_connected [
    | false ↦ some (negsuc 0, s)
    | true ↦ elim (pack_data (new_cmd cmd data_ptr len)) [
      | none ↦ none
      | some (p, frame) ↦
          if ltb 2048 (length frame)
          then none
          else if out.socket_write frame
          then some (pos 0, record s { sent = s.sent ++ (frame ∷ []) })
          else some (negsuc 1, s)
    ]
  ]

  -- A message is packed into `sendBuf`, and that is sent.
  unfoldable pub send_packed : ℕ → (Option (List ℕ) → ℕ → Packed) → M ℤ
  send_packed cmd pack s = elim (pack (some s.send_buf) 2048) [
    | none ↦ none
    | some (len, none) ↦ none
    | some (len, some buf) ↦
        send_cmd cmd (external buf) (short_of len) (record s { send_buf = buf })
  ]

  unfoldable pub send_ack_to_server : ℕ → ℕ → Option (List ℕ) → ℕ → M ℤ
  send_ack_to_server cmd result extra data_len s =
      let ack : AckToServer = record {
        id = s.agv_id;
        cmd = u16 cmd;
        result = u16 result;
        data_length = u16 data_len;
        extra = extra;
      } in
      send_packed agv_cmd_ack (ack_to_server_pack ack) s

  unfoldable pub report_status_to_server : M ℤ
  report_status_to_server s = send_packed agv_report_status (report_status_pack s.cur_status) s

  unfoldable pub report_task_status : ℕ → ℕ → M ℤ
  report_task_status id status s =
      let m : ReportActionStatus = record { id = s.agv_id; task_id = u16 id; status = u8 status } in
      send_packed agv_report_task_status (report_action_status_pack m) s

  unfoldable pub request_new_path : ℕ → ℕ → ℕ → M ℤ
  request_new_path x_pos y_pos last_station s =
      let m : RequestPath = record {
        id = s.agv_id;
        last_point = u16 last_station;
        x_pos = x_pos;
        y_pos = y_pos;
      } in
      send_packed agv_request_station (request_path_pack m) s

  unfoldable pub send_heart_beat : M ℤ
  send_heart_beat s =
      let m : HeartBeat = record { id = s.agv_id } in
      send_packed agv_heart_beat (heart_beat_pack m) s

  unfoldable pub request_system_time_synchronization : M ℤ
  request_system_time_synchronization s =
      send_packed agv_request_system_time_syn (system_time_pack s.agv_id) s

  -- `cagvSchedulerSystemTimeSet`.
  unfoldable pub set_system_time : List ℕ → ℕ → M (Unit {0})
  set_system_time bytes len s = elim (system_time_unpack bytes len) [
    | none ↦ none
    | some (ret, none) ↦ none
    | some (ret, some t) ↦ elim (out.mktime (tm_of t)) [
      | none ↦ some (tt, s)
      | some time ↦
          if out.set_time_of_day time
          then some (tt, record s { clock = some time })
          else some (tt, s)
    ]
  ]

  -- An acknowledgement without data, whose result nobody looks at.
  unfoldable pub acknowledge : ℕ → M (Unit {0})
  acknowledge cmd = do ret ← send_ack_to_server cmd 0 none 0; pure tt
