-- ===== src/Messages/Reports.antt =====
-- comm/AgvSchProtocol.cpp: what the vehicle sends, each class with its packData.
-- A destination is an array, or `none` for NULL. The outer `none` of a result is a fault: a write
-- behind the array or through NULL. Else it is the number returned and the array.
pub mod Laws
use hxdl_driving_control.Prelude.{
  ℕ, ◌+◌, List, [], ◌∷◌, Bool, true, false, ◌||◌, Option, none, some, ltb, if◌then◌else◌, length,
  take,
}
use hxdl_driving_control.Prelude.Int.{ℤ, pos, negsuc}
use hxdl_driving_control.Wire.{◌>>=◌, Section, value, empty, pack_sections, memcpy, unpack_section}

abbrev pub Packed : Type 0
Packed = Option (ℤ × Option (List ℕ))

abbrev pub is_null : Option (List ℕ) → Bool
is_null none = true
is_null (some buf) = false

-- The section macros in a row, from offset 0.
unfoldable pub fill : List Section → Option (List ℕ) → Packed
fill sections none = none
fill sections (some buf) = pack_sections sections 0 buf >>= λ (i, buf'). some (pos i, some buf')

pub record HeartBeat : Type 0 where
  pub id : ℕ

unfoldable pub heart_beat_pack : HeartBeat → Option (List ℕ) → ℕ → Packed
heart_beat_pack m dest maxlen =
    if ltb maxlen 2 then some (negsuc 0, dest) else fill (value m.id 2 ∷ []) dest

-- -1, or the offset reached and the identifier read.
unfoldable pub heart_beat_unpack : List ℕ → ℕ → Option (ℤ × Option HeartBeat)
heart_beat_unpack bytes len =
    if ltb len 2
    then some (negsuc 0, none)
    else (unpack_section 2 bytes 0 >>= λ id. some (pos 2, some (record { id = id })))

pub record ReportStatus : Type 0 where
  pub id : ℕ
  pub status : ℕ
  pub power_level : ℕ
  pub speed : ℕ
  pub x_pos : ℕ
  pub y_pos : ℕ
  pub car_angle : ℕ
  pub last_point : ℕ

abbrev pub report_status_sections : ReportStatus → List Section
report_status_sections m =
    value m.id 2
    ∷ value m.status 1
    ∷ value m.power_level 1
    ∷ value m.speed 1
    ∷ value m.x_pos 4
    ∷ value m.y_pos 4
    ∷ value m.car_angle 2
    ∷ value m.last_point 2
    ∷ empty 3
    ∷ []

unfoldable pub report_status_pack : ReportStatus → Option (List ℕ) → ℕ → Packed
report_status_pack m dest maxlen =
    if is_null dest || ltb maxlen 20
    then some (negsuc 0, dest)
    else fill (report_status_sections m) dest

pub record ReportActionStatus : Type 0 where
  pub id : ℕ
  pub task_id : ℕ
  pub status : ℕ

unfoldable pub report_action_status_pack : ReportActionStatus → Option (List ℕ) → ℕ → Packed
report_action_status_pack m dest maxlen =
    if is_null dest || ltb maxlen 8
    then some (negsuc 0, dest)
    else fill (value m.id 2 ∷ value m.task_id 2 ∷ value m.status 1 ∷ empty 3 ∷ []) dest

pub record RequestPath : Type 0 where
  pub id : ℕ
  pub last_point : ℕ
  pub x_pos : ℕ
  pub y_pos : ℕ

unfoldable pub request_path_pack : RequestPath → Option (List ℕ) → ℕ → Packed
request_path_pack m dest maxlen =
    if is_null dest || ltb maxlen 12
    then some (negsuc 0, dest)
    else fill (value m.id 2 ∷ value m.x_pos 4 ∷ value m.y_pos 4 ∷ value m.last_point 2 ∷ []) dest

pub record ReportTaskStatus : Type 0 where
  pub id : ℕ
  pub task_id : ℕ
  pub task_status : ℕ

unfoldable pub report_task_status_pack : ReportTaskStatus → Option (List ℕ) → ℕ → Packed
report_task_status_pack m dest maxlen =
    if is_null dest || ltb maxlen 8
    then some (negsuc 0, dest)
    else fill (value m.id 2 ∷ value m.task_id 2 ∷ value m.task_status 1 ∷ empty 3 ∷ []) dest

-- `data` leads to the additional bytes, or is NULL.
pub record AckToServer : Type 0 where
  pub id : ℕ
  pub cmd : ℕ
  pub result : ℕ
  pub data_length : ℕ
  pub extra : Option (List ℕ)

-- The copy of the additional bytes: a fault if they are fewer than `dataLength`, or do not fit.
unfoldable pub copy_extra : Option (List ℕ) → ℕ → ℕ → List ℕ → Option (ℕ × List ℕ)
copy_extra none n i buf = some (i, buf)
copy_extra (some bytes) n i buf =
    if ltb 0 n
    then (if ltb (length bytes) n
        then none
        else (memcpy buf i (take n bytes) >>= λ buf'. some (i + n, buf')))
    else some (i, buf)

unfoldable pub ack_to_server_sections : AckToServer → List Section
ack_to_server_sections m =
    value m.id 2 ∷ value m.cmd 2 ∷ value m.result 2 ∷ value m.data_length 2 ∷ []

unfoldable pub ack_to_server_fill : AckToServer → Option (List ℕ) → Packed
ack_to_server_fill m none = none
ack_to_server_fill m (some buf) = pack_sections (ack_to_server_sections m) 0 buf >>= λ (i, buf').
    copy_extra m.extra m.data_length i buf' >>= λ (j, buf''). some (pos j, some buf'')

unfoldable pub ack_to_server_pack : AckToServer → Option (List ℕ) → ℕ → Packed
ack_to_server_pack m dest maxlen =
    if is_null dest || ltb maxlen 8 then some (negsuc 0, dest) else ack_to_server_fill m dest

-- `SystemTime::packData` sends the vehicle's identifier alone.
unfoldable pub system_time_pack : ℕ → Option (List ℕ) → ℕ → Packed
system_time_pack agv_id dest maxlen =
    if is_null dest || ltb maxlen 8 then some (negsuc 0, dest) else fill (value agv_id 2 ∷ []) dest
