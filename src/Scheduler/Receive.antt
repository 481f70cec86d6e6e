-- ===== src/Scheduler/Receive.antt =====
-- controler/AgvScheduler.cpp, CAgvScheduler::ParseReceiveData: one case for each command of the
-- server, and the loop over the frames of a packet.
use hxdl_driving_control.Prelude.{
  ℕ, zero, suc, ◌+◌, ◌-◌, ◌*◌, List, [], ◌∷◌, Bool, true, false, Option, none, some, ltb, ◌==◌,
  if◌then◌else◌, length, drop,
}
use hxdl_driving_control.Prelude.Int.{ℤ, pos, negsuc}
use hxdl_driving_control.Protocol.{Protocol, deref, new, unpack_data}
use hxdl_driving_control.Messages.Commands.{
  DoAction, do_action_unpack, set_speed_unpack, ServerAck, server_ack_unpack,
}
use hxdl_driving_control.Messages.Path.{set_path_unpack, get_test_station_info}
use hxdl_driving_control.Event.{
  normal, important, urgent, ev_key_start, ev_key_stop, ev_set_speed, ev_get_new_path,
  ev_turn_on_charge, ev_turn_off_charge, ev_set_barrier_distance, ev_agv_sleep, ev_agv_wake_up,
}
use hxdl_driving_control.Scheduler.{
  path_stations, Outside, M, pure, lift, ◌>>=◌, ◌>>◌, send_event, send_ack_to_server, acknowledge,
  set_system_time, server_send_path, server_send_action, server_set_speed, server_response_ack,
  server_charger_turn_on, server_charger_turn_off, server_synchronize_time,
  server_set_barrier_distance, server_set_agv_sleep, server_set_agv_wake_up, server_run_test,
  agv_heart_beat,
}

-- The bytes behind `protocol.data`; NULL has none, so that every read through it is a fault.
unfoldable pub data_bytes : Protocol → List ℕ
data_bytes p = elim (deref p.buffer p.data_ptr) [ none ↦ [] | some bytes ↦ bytes ]

-- A message object that its unPackData did not fill is read all the same: a fault.
abbrev pub filled : {A : Type 0} → Option (ℤ × Option A) → M A
filled none s = none
filled (some (ret, none)) s = none
filled (some (ret, some m)) s = some (m, s)

abbrev pub is_negative : ℤ → Bool
is_negative (pos n) = false
is_negative (negsuc n) = true

-- The text of an error: "Error Data[", the number of bytes, "]:", and three characters for each byte. It
-- goes with its end into an array of 2048; a number of four digits is too much in any case.
unfoldable pub error_length : ℕ → ℕ
error_length len = 13 + (if ltb len 10 then 1 else if ltb len 100 then 2 else 3) + 3 * len

module _ (out : Outside) where
  unfoldable pub on_send_path : Protocol → M (Unit {0})
  on_send_path p s = elim (set_path_unpack s.path_list (data_bytes p) p.data_length) [
    | none ↦ none
    | some (ret, path) ↦
        (do
          send_event important ev_get_new_path (pos path.station_count) (some path_stations)
          acknowledge out p.cmd)
          (record s { path_list = path })
  ]

  -- The `switch` on the action. Two bytes of the acknowledgement are read from the action on; the
  -- second is reserved.
  unfoldable pub do_action : Protocol → DoAction → M (Unit {0})
  do_action p m =
      if m.action == 0
      then (do
        send_event normal ev_key_start (pos 0) none
        ret ← send_ack_to_server out p.cmd 0 (some (m.action ∷ m.reserved)) 2
        pure tt)
      else if m.action == 1
      then (do
        send_event urgent ev_key_stop (pos 0) none
        ret ← send_ack_to_server out p.cmd 0 (some (m.action ∷ m.reserved)) 2
        pure tt)
      else pure tt

  unfoldable pub on_send_action : Protocol → M (Unit {0})
  on_send_action p = do m ← filled (do_action_unpack (data_bytes p) p.data_length); do_action p m

  unfoldable pub on_set_speed : Protocol → M (Unit {0})
  on_set_speed p = do
    m ← filled (set_speed_unpack (data_bytes p) p.data_length)
    send_event normal ev_set_speed (pos m.speed) none
    acknowledge out p.cmd

  unfoldable pub keep_ack : ServerAck → M (Unit {0})
  keep_ack ack s =
      if ack.cmd == s.last_cmd
      then some (tt, record s { last_cmd_ack = some ack; cmd_sem = s.cmd_sem + 1 })
      else some (tt, s)

  unfoldable pub on_response_ack : Protocol → M (Unit {0})
  unfolding keep_ack
  on_response_ack p s =
      (do ack ← filled (server_ack_unpack (data_bytes p) p.data_length); keep_ack ack)
        (record s { heart_beat_timeout = 0 })

  unfoldable pub on_charger_turn_on : Protocol → M (Unit {0})
  on_charger_turn_on p = do send_event normal ev_turn_on_charge (pos 1) none; acknowledge out p.cmd

  unfoldable pub on_charger_turn_off : Protocol → M (Unit {0})
  on_charger_turn_off p = do
    send_event urgent ev_turn_off_charge (pos 1) none
    acknowledge out p.cmd

  -- The station is only printed.
  unfoldable pub on_run_test : Protocol → M (Unit {0})
  on_run_test p = do
    acknowledge out p.cmd
    info ← lift (get_test_station_info (drop 21 (data_bytes p)) (p.data_length - 21))
    pure tt

  unfoldable pub on_synchronize_time : Protocol → M (Unit {0})
  on_synchronize_time p = do acknowledge out p.cmd; set_system_time out (data_bytes p) p.data_length

  abbrev first_byte : List ℕ → M ℕ
  first_byte [] s = none
  first_byte (b ∷ bytes) s = some (b, s)

  unfoldable pub on_set_barrier_distance : Protocol → M (Unit {0})
  on_set_barrier_distance p = do
    distance ← first_byte (data_bytes p)
    acknowledge out p.cmd
    send_event urgent ev_set_barrier_distance (pos distance) none

  unfoldable pub on_set_agv_sleep : Protocol → M (Unit {0})
  on_set_agv_sleep p = do send_event urgent ev_agv_sleep (pos 1) none; acknowledge out p.cmd

  unfoldable pub on_set_agv_wake_up : Protocol → M (Unit {0})
  on_set_agv_wake_up p = do send_event urgent ev_agv_wake_up (pos 1) none; acknowledge out p.cmd

  -- The `switch` on the command. A heart beat and an unknown command are only logged.
  unfoldable pub handle_cmd : Protocol → M (Unit {0})
  handle_cmd p =
      if p.cmd == agv_heart_beat
      then pure tt
      else if p.cmd == server_send_path
      then on_send_path p
      else if p.cmd == server_send_action
      then on_send_action p
      else if p.cmd == server_set_speed
      then on_set_speed p
      else if p.cmd == server_response_ack
      then on_response_ack p
      else if p.cmd == server_charger_turn_on
      then on_charger_turn_on p
      else if p.cmd == server_charger_turn_off
      then on_charger_turn_off p
      else if p.cmd == server_run_test
      then on_run_test p
      else if p.cmd == server_synchronize_time
      then on_synchronize_time p
      else if p.cmd == server_set_barrier_distance
      then on_set_barrier_distance p
      else if p.cmd == server_set_agv_sleep
      then on_set_agv_sleep p
      else if p.cmd == server_set_agv_wake_up
      then on_set_agv_wake_up p
      else pure tt

  -- `do … while (left > 0)`. Each round recurs on the fuel; out of fuel the loop returns the number of
  -- frames so far. The object `protocol` lives across rounds.
  unfoldable pub parse_loop : ℕ → Protocol → List ℕ → ℕ → ℕ → M ℤ
  parse_loop zero p bytes left cnt s = some (pos cnt, s)
  parse_loop (suc fuel) p bytes left cnt s =
      elim (unpack_data p (drop (length bytes - left) bytes) left) [
        | none ↦ none
        | some r ↦ elim (is_negative r.ret) [
          | true ↦ elim (ltb (error_length (length bytes)) 2048) [
            | true ↦ some (negsuc 0, s)
            | false ↦ none
          ]
          | false ↦ elim (handle_cmd r.state s) [
            | none ↦ none
            | some (_, s') ↦ elim (ltb 0 r.left) [
              | true ↦ parse_loop fuel r.state bytes r.left (cnt + 1) s'
              | false ↦ some (pos (cnt + 1), s')
            ]
          ]
        ]
      ]

  unfoldable pub parse_receive_data : List ℕ → M ℤ
  unfolding parse_loop
  parse_receive_data bytes = parse_loop (length bytes + 1) new bytes (length bytes) 0
