-- ===== src/Tests/Payloads.antt =====
-- The payloads of comm/AgvSchProtocol.cpp on small inputs.
use hxdl_driving_control.Prelude.{◌≡◌, refl, [], ◌∷◌, ◌++◌, none, some, replicate, arith}
use hxdl_driving_control.Prelude.Int.{pos}
use hxdl_driving_control.Wire.{bin2buffer}
use hxdl_driving_control.Messages.Reports.{
  HeartBeat, ReportStatus, RequestPath, AckToServer, ack_to_server_pack,
}
use hxdl_driving_control.Messages.Reports.Laws.{ack_to_server_pack-overflow}
use hxdl_driving_control.Messages.Path.{StationInfo, SetPath, set_path_unpack}
use hxdl_driving_control.Messages.Path.RoundTrip.{
  encode_stations, set_path_unpack-encode, set_path_unpack-cut,
}

abbrev beat : HeartBeat
beat = record { id = 7 }

abbrev status : ReportStatus
status = record {
  id = 7;
  status = 1;
  power_level = 90;
  speed = 20;
  x_pos = 100000;
  y_pos = 200;
  car_angle = 90;
  last_point = 12;
}

abbrev request : RequestPath
request = record { id = 7; last_point = 12; x_pos = 100000; y_pos = 200 }

-- Four additional bytes.
abbrev ack : AckToServer
ack = record {
  id = 7;
  cmd = 0x0201;
  result = 0;
  data_length = 4;
  extra = some (1 ∷ 2 ∷ 3 ∷ 4 ∷ []);
}

abbrev station : StationInfo
station = record {
  id = 12;
  x_pos = 100000;
  y_pos = 200;
  path_angle = 9000;
  turn_radius = 0;
  mode = 1;
  action = 0;
  lift_height = 0;
}

abbrev no_path : SetPath
no_path = record { station_count = 0; station_list = [] }

ack_to_server_pack-overflow_example : ack_to_server_pack ack (some (replicate 10 0)) 10 ≡ none
ack_to_server_pack-overflow_example =
    ack_to_server_pack-overflow ack (1 ∷ 2 ∷ 3 ∷ 4 ∷ []) (replicate 10 0) 10 (omega arith)
      (omega arith) refl (omega arith)

set_path_unpack-encode_example :
    set_path_unpack no_path
      (bin2buffer 2 2 ++ (encode_stations (station ∷ station ∷ []) ++ 9 ∷ []))
      38
    ≡ some (pos 38, record { station_count = 2; station_list = some station ∷ some station ∷ [] })
set_path_unpack-encode_example =
    set_path_unpack-encode no_path (station ∷ station ∷ []) (9 ∷ []) (omega arith) (ground arith)

set_path_unpack-cut_example :
    set_path_unpack no_path (bin2buffer 2 2 ++ 1 ∷ 2 ∷ 3 ∷ []) 5
    ≡ some (pos 2, record { station_count = 2; station_list = none ∷ none ∷ [] })
set_path_unpack-cut_example =
    set_path_unpack-cut no_path 2 5 (1 ∷ 2 ∷ 3 ∷ []) (omega arith) (omega arith) (omega arith)
