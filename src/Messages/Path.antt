-- ===== src/Messages/Path.antt =====
-- comm/AgvSchProtocol.cpp: paths, the classes StationInfo, SetPath, TestStationInfo, SetTestPath.
pub mod RoundTrip
use hxdl_driving_control.Prelude.{
  ℕ, zero, suc, ◌+◌, ◌-◌, List, [], ◌∷◌, true, false, ◌&&◌, Option, none, some, ltb, ◌==◌,
  if◌then◌else◌, drop,
}
use hxdl_driving_control.Prelude.Int.{ℤ, pos, negsuc}
use hxdl_driving_control.Wire.{◌>>=◌, unpack_section}

-- `path_angle` counts hundredths of a degree; the source keeps the double `pathAngle * 0.01`.
pub record StationInfo : Type 0 where
  pub id : ℕ
  pub x_pos : ℕ
  pub y_pos : ℕ
  pub path_angle : ℕ
  pub turn_radius : ℕ
  pub mode : ℕ
  pub action : ℕ
  pub lift_height : ℕ

-- What the call returns, and the station if it is written: with fewer than 18 bytes it is not.
unfoldable pub get_station_info : List ℕ → ℕ → Option (ℕ × Option StationInfo)
get_station_info bytes len =
    if ltb len 18
    then some (0, none)
    else (unpack_section 2 bytes 0 >>= λ id. unpack_section 4 bytes 2 >>= λ x_pos.
        unpack_section 4 bytes 6 >>= λ y_pos. unpack_section 2 bytes 10 >>= λ path_angle.
        unpack_section 2 bytes 12 >>= λ turn_radius. unpack_section 1 bytes 14 >>= λ mode.
        unpack_section 1 bytes 15 >>= λ action. unpack_section 2 bytes 16 >>= λ lift_height. some (
          18,
          some (record {
            id = id;
            x_pos = x_pos;
            y_pos = y_pos;
            path_angle = path_angle;
            turn_radius = turn_radius;
            mode = mode;
            action = action;
            lift_height = lift_height;
          }),
        ))

-- `station_list` holds `none` for a station that was allocated and never written.
pub record SetPath : Type 0 where
  pub station_count : ℕ
  pub station_list : List (Option StationInfo)

-- The rounds left, and the offset; the offset never passes `len`, so `len - i` is exact.
unfoldable pub read_stations : ℕ → List ℕ → ℕ → ℕ → Option (ℕ × List (Option StationInfo))
read_stations zero bytes len i = some (i, [])
read_stations (suc rounds) bytes len i = elim (i == len) [
  | true ↦ some (i, [])
  | false ↦ get_station_info (drop i bytes) (len - i) >>= λ (k, info).
      read_stations rounds bytes len (i + k) >>= λ (j, infos). some (j, info ∷ infos)
]

-- A message of fewer than two bytes leaves the object as it was.
unfoldable pub set_path_unpack : SetPath → List ℕ → ℕ → Option (ℤ × SetPath)
set_path_unpack m bytes len =
    if ltb len 2
    then some (negsuc 0, m)
    else (unpack_section 2 bytes 0 >>= λ count. read_stations count bytes len 2 >>= λ (i, infos).
        some (pos i, record { station_count = count; station_list = infos }))

pub record TestStationInfo : Type 0 where
  pub id : ℕ
  pub x_pos : ℕ
  pub y_pos : ℕ
  pub direction : ℕ
  pub turn_radius : ℕ
  pub turn_angle : ℕ
  pub turn_mode : ℕ
  pub action : ℕ
  pub lift_height : ℕ

unfoldable pub get_test_station_info : List ℕ → ℕ → Option (ℕ × Option TestStationInfo)
get_test_station_info bytes len =
    if ltb len 19
    then some (0, none)
    else (unpack_section 2 bytes 0 >>= λ id. unpack_section 4 bytes 2 >>= λ x_pos.
        unpack_section 4 bytes 6 >>= λ y_pos. unpack_section 1 bytes 10 >>= λ direction.
        unpack_section 2 bytes 11 >>= λ turn_radius. unpack_section 2 bytes 13 >>= λ turn_angle.
        unpack_section 1 bytes 15 >>= λ turn_mode. unpack_section 1 bytes 16 >>= λ action.
        unpack_section 2 bytes 17 >>= λ lift_height. some (
          19,
          some (record {
            id = id;
            x_pos = x_pos;
            y_pos = y_pos;
            direction = direction;
            turn_radius = turn_radius;
            turn_angle = turn_angle;
            turn_mode = turn_mode;
            action = action;
            lift_height = lift_height;
          }),
        ))

-- The number returned, and the station if one is written. The count is an int of four bytes, which is
-- read as soon as there are two.
unfoldable pub set_test_path_unpack : List ℕ → ℕ → Option (ℤ × Option TestStationInfo)
set_test_path_unpack bytes len =
    if ltb len 2
    then some (negsuc 0, none)
    else (unpack_section 4 bytes 0 >>= λ count.
        if ltb 0 count && ltb count 2147483648
        then (get_test_station_info (drop 4 bytes) (len - 4) >>= λ (k, info).
            some (pos (4 + k), info))
        else some (pos 4, none))
