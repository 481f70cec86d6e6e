-- ===== src/Tests/Scheduling.antt =====
-- The scheduler of controler/AgvScheduler.cpp at rest, with a socket that takes everything.
use hxdl_driving_control.Prelude.{
  zero, suc, length, ◌++◌, ℕ, ◌≡◌, refl, inr, List, [], ◌∷◌, true, none, some, arith, replicate,
}
use hxdl_driving_control.Prelude.Int.{ℤ, pos}
use hxdl_driving_control.Protocol.{new}
use hxdl_driving_control.Scheduler.{Outside, Scheduler, send_ack_to_server, agv_cmd_ack}
use hxdl_driving_control.Scheduler.Receive.{parse_loop}
use hxdl_driving_control.Protocol.{Protocol, external, new_cmd, pack_data}
use hxdl_driving_control.Protocol.Stuffing.{flag}
use hxdl_driving_control.Protocol.Fields.{payload}
use hxdl_driving_control.Event.Order.{lane, Holds}
use hxdl_driving_control.Scheduler.Receive.{parse_receive_data}
use hxdl_driving_control.Scheduler.Frames.{go_on, parse_loop-pack_data}
use hxdl_driving_control.Scheduler.Stop.{stop, parse_receive_data-Holds}
use hxdl_driving_control.Protocol.Scan.{Lacks}
use hxdl_driving_control.Scheduler.Garbage.{parse_receive_data-Lacks}
use hxdl_driving_control.Scheduler.Parse.{parse_loop-fuel}
use hxdl_driving_control.Messages.Reports.{ack_to_server_pack}
use hxdl_driving_control.Scheduler.Acknowledge.{Kept, IsPosted, send_ack_to_server-Kept}

abbrev pub outside : Outside
outside = record { socket_write = λ frame. true; mktime = λ t. none; set_time_of_day = λ t. true }

abbrev pub resting : Scheduler
resting = record {
  is_connected = true;
  last_cmd = 0x0103;
  last_cmd_ack = none;
  cmd_sem = 0;
  cur_status = record {
    id = 7;
    status = 0;
    power_level = 0;
    speed = 0;
    x_pos = 0;
    y_pos = 0;
    car_angle = 0;
    last_point = 0;
  };
  path_list = record { station_count = 0; station_list = [] };
  heart_beat_timeout = 0;
  agv_id = 7;
  send_buf = replicate 2048 0;
  events = record { normal_list = []; important_list = []; urgent_list = []; listener_list = [] };
  sent = [];
  clock = none;
}

-- A frame of a heart beat whose sum is wrong.
abbrev received : List ℕ
received = 0xFF ∷ 0 ∷ 6 ∷ 0 ∷ 0 ∷ 0 ∷ 1 ∷ 1 ∷ 3 ∷ 0xFF ∷ []

parse_loop-fuel_example :
    parse_loop outside 11 new received 10 0 resting
    ≡ parse_loop outside 12 new received 10 0 resting
parse_loop-fuel_example =
    parse_loop-fuel outside 11 12 new received 10 0 resting (unfold new in refl)
      (unfold new in refl) (omega arith) (omega arith) (omega arith)

send_ack_to_server-Kept_example :
    (ret : ℤ) × (s' : Scheduler) × (send_ack_to_server outside 0x0202 0
        (some (1 ∷ 0 ∷ []))
        2
        resting
      ≡ some (ret, s'))
    × Kept resting s'
    × (buf : List ℕ) × (ack_to_server_pack
          record {
            id = resting.agv_id;
            cmd = 0x0202;
            result = 0;
            data_length = 2;
            extra = some (1 ∷ 0 ∷ []);
          }
          (some resting.send_buf)
          2048
        ≡ some (pos 10, some buf))
    × IsPosted outside agv_cmd_ack buf 10 ret resting s'
send_ack_to_server-Kept_example =
    send_ack_to_server-Kept outside 0x0202 0 2 (some (1 ∷ 0 ∷ [])) resting refl (omega arith)
      (inr (1 ∷ 0 ∷ [], refl, omega arith))

pub resting-Holds : Holds resting.events []
unfolding lane
resting-Holds = record { lows = refl; mids = refl; highs = refl; ranked = tt }

-- A command to set the speed, behind a stray byte, and the first byte of what follows.
parse_loop-pack_data_example :
    (q p' : Protocol) × (frame : List ℕ) × (pack_data
        (new_cmd 0x0203 (external ((0 ∷ 50 ∷ 0 ∷ 0 ∷ []) ++ [])) 4)
      ≡ some (q, frame))
    × (p'.cmd ≡ 0x0203)
    × (p'.data_length ≡ 4)
    × (payload p' ≡ some (0 ∷ 50 ∷ 0 ∷ 0 ∷ []))
    × (p'.head ≡ flag)
    × (p'.tail ≡ flag)
    × ((fuel : ℕ)
        → let packet = (3 ∷ []) ++ (frame ++ flag ∷ []) in
          parse_loop outside (suc fuel) new packet (length packet) 0 resting
          ≡ go_on outside fuel p' packet 1 0 resting)
parse_loop-pack_data_example =
    parse_loop-pack_data outside 0x0203 0 (0 ∷ 50 ∷ 0 ∷ 0 ∷ []) [] (3 ∷ []) (flag ∷ []) new resting
      (omega arith) (omega arith) (ground arith) (unfold new in refl) (unfold new in refl)

parse_receive_data-Holds_example :
    (q : Protocol) × (frame : List ℕ) × (s' : Scheduler) × (pack_data
        (new_cmd 0x0202 (external ((1 ∷ 0 ∷ 0 ∷ 0 ∷ []) ++ [])) 4)
      ≡ some (q, frame))
    × (parse_receive_data outside ((3 ∷ []) ++ (frame ++ [])) resting ≡ some (pos 1, s'))
    × Holds s'.events ([] ++ stop ∷ [])
parse_receive_data-Holds_example =
    parse_receive_data-Holds outside 0 0 0 [] (3 ∷ []) resting [] (ground arith) refl resting-Holds

-- Seven hundred zeros.
abbrev garbage : List ℕ
garbage = replicate 700 0

garbage-Lacks : (n : ℕ) → Lacks (replicate n 0)
garbage-Lacks zero = tt
garbage-Lacks (suc n) = ((λ e. cc), garbage-Lacks n)

parse_receive_data-Lacks_example : parse_receive_data outside garbage resting ≡ none
parse_receive_data-Lacks_example =
    parse_receive_data-Lacks outside garbage resting (garbage-Lacks 700)
