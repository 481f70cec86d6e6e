-- ===== src/Messages/Commands.antt =====
-- comm/AgvSchProtocol.cpp: what the server sends, each class with its unPackData.
-- The bytes are those that can be read from `data` on, `len` of them announced; the outer `none` is
-- a read behind them. Then come the number returned and, unless it is -1, the message.
use hxdl_driving_control.Prelude.{ℕ, ◌+◌, List, Option, none, some, ltb, if◌then◌else◌}
use hxdl_driving_control.Prelude.Int.{ℤ, pos, negsuc}
use hxdl_driving_control.Wire.{◌>>=◌, unpack_section, unpack_empty_section}

abbrev pub Unpacked : Type 0 → Type 0
Unpacked A = Option (ℤ × Option A)

abbrev pub refused : {A : Type 0} → Unpacked A
refused = some (negsuc 0, none)

pub record DoAction : Type 0 where
  pub action : ℕ
  pub reserved : List ℕ

unfoldable pub do_action_unpack : List ℕ → ℕ → Unpacked DoAction
do_action_unpack bytes len =
    if ltb len 4
    then refused
    else (unpack_section 1 bytes 0 >>= λ action. unpack_empty_section 3 bytes 1 >>= λ reserved.
        some (pos 4, some (record { action = action; reserved = reserved })))

pub record SetSpeed : Type 0 where
  pub speed : ℕ
  pub reserved : List ℕ

unfoldable pub set_speed_unpack : List ℕ → ℕ → Unpacked SetSpeed
set_speed_unpack bytes len =
    if ltb len 4
    then refused
    else (unpack_section 2 bytes 0 >>= λ speed. unpack_empty_section 2 bytes 2 >>= λ reserved.
        some (pos 4, some (record { speed = speed; reserved = reserved })))

-- `data` is set to the start of the message, not behind its three fields, or to NULL.
pub record ServerAck : Type 0 where
  pub cmd : ℕ
  pub result : ℕ
  pub data_length : ℕ
  pub extra : Option (List ℕ)

unfoldable pub server_ack_unpack : List ℕ → ℕ → Unpacked ServerAck
server_ack_unpack bytes len =
    if ltb len 6
    then refused
    else (unpack_section 2 bytes 0 >>= λ cmd. unpack_section 2 bytes 2 >>= λ result.
        unpack_section 2 bytes 4 >>= λ n. some (
          pos (if ltb 0 n then 6 + n else 6),
          some (record {
            cmd = cmd;
            result = result;
            data_length = n;
            extra = if ltb 0 n then some bytes else none;
          }),
        ))

pub record StopCar : Type 0 where
  pub agv_id : ℕ
  pub agv_state : ℕ

unfoldable pub stop_car_unpack : List ℕ → ℕ → Unpacked StopCar
stop_car_unpack bytes len =
    if ltb len 4
    then refused
    else (unpack_section 2 bytes 0 >>= λ agv_id. unpack_section 2 bytes 2 >>= λ agv_state.
        some (pos 4, some (record { agv_id = agv_id; agv_state = agv_state })))

pub record SystemTime : Type 0 where
  pub year : ℕ
  pub mon : ℕ
  pub mday : ℕ
  pub hour : ℕ
  pub min : ℕ
  pub sec : ℕ

-- The announced length is compared with 16 and then ignored.
unfoldable pub system_time_unpack : List ℕ → ℕ → Unpacked SystemTime
system_time_unpack bytes len = unpack_section 2 bytes 2 >>= λ year.
    unpack_section 2 bytes 4 >>= λ mon. unpack_section 2 bytes 6 >>= λ mday.
    unpack_section 2 bytes 8 >>= λ hour. unpack_section 2 bytes 10 >>= λ min.
    unpack_section 2 bytes 12 >>= λ sec. some (
      pos 14,
      some (record { year = year; mon = mon; mday = mday; hour = hour; min = min; sec = sec }),
    )
