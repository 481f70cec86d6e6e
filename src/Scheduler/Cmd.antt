-- ===== src/Scheduler/Cmd.antt =====
-- comm/AgvSchProtocol.h, `CAgvSchProtocol::CMD`: the numbers of the commands.
use hxdl_driving_control.Prelude.{ℕ}

abbrev pub server_send_path : ℕ
server_send_path = 0x0201

abbrev pub server_send_action : ℕ
server_send_action = 0x0202

abbrev pub server_set_speed : ℕ
server_set_speed = 0x0203

abbrev pub server_response_ack : ℕ
server_response_ack = 0x0204

abbrev pub server_charger_turn_on : ℕ
server_charger_turn_on = 0x0205

abbrev pub server_charger_turn_off : ℕ
server_charger_turn_off = 0x0206

abbrev pub server_synchronize_time : ℕ
server_synchronize_time = 0x0207

abbrev pub server_set_barrier_distance : ℕ
server_set_barrier_distance = 0x0208

abbrev pub server_set_agv_sleep : ℕ
server_set_agv_sleep = 0x0209

abbrev pub server_set_agv_wake_up : ℕ
server_set_agv_wake_up = 0x0210

abbrev pub server_run_test : ℕ
server_run_test = 0xFFFF

abbrev pub agv_report_status : ℕ
agv_report_status = 0x0101

abbrev pub agv_request_station : ℕ
agv_request_station = 0x0102

abbrev pub agv_heart_beat : ℕ
agv_heart_beat = 0x0103

abbrev pub agv_cmd_ack : ℕ
agv_cmd_ack = 0x0104

abbrev pub agv_report_task_status : ℕ
agv_report_task_status = 0x0105

abbrev pub agv_request_system_time_syn : ℕ
agv_request_system_time_syn = 0x0107
