-- ===== src/Can.antt =====
-- devices/canbus/AgvCanOperator.cpp: the filters and the listeners of the CAN bus, and what one round
-- of the monitor's thread does with a message. The socket (AgvSocketCan.cpp) is the operating system's:
-- a round starts from what GetCanBusMessage returned. Starting and stopping the thread is left out.
pub mod Filters
pub mod Bounds
pub mod Pieces
pub mod Packages
pub mod Sending
use hxdl_driving_control.Prelude.{
  ℕ, ◌+◌, ◌-◌, List, [], ◌∷◌, ◌++◌, Bool, true, false, ◌&&◌, ◌||◌, Option, none, some, ltb, ◌==◌,
  if◌then◌else◌, length, take, drop, replicate, map,
}
use hxdl_driving_control.Prelude.Int.{ℤ, pos, negsuc}
use hxdl_driving_control.Wire.{◌>>=◌, buffer2bin, memcpy}
use hxdl_driving_control.CheckSum.{get_crc16}

-- `data` has its eight bytes, of which the first `len` were received.
pub record CanBusMsg : Type 0 where
  pub can_id : ℕ
  pub len : ℕ
  pub bytes : List ℕ
  pub ret : ℤ

pub record CanFilter : Type 0 where
  pub can_id : ℕ
  pub can_mask : ℕ

-- The listeners by their addresses, and of `m_filter` the `m_canFilterCount` entries in use.
pub record CanOperator : Type 0 where
  pub listener_list : List ℕ
  pub filter : List CanFilter

-- `sizeof(m_filter) / sizeof(struct can_filter)`.
abbrev pub max_sensors : ℕ
max_sensors = 32

abbrev pub es0_canid : ℕ
es0_canid = 0x0301

abbrev pub can_eff_mask : ℕ
can_eff_mask = 0x1FFFFFFF

unfoldable pub has_can_listener : ℕ → List ℕ → Bool
has_can_listener l [] = false
has_can_listener l (x ∷ xs) = if x == l then true else has_can_listener l xs

unfoldable pub add_can_listener : Option ℕ → CanOperator → ℤ × CanOperator
add_can_listener none op = (negsuc 0, op)
add_can_listener (some l) op =
    if has_can_listener l op.listener_list
    then (pos 0, op)
    else (pos 0, record op { listener_list = op.listener_list ++ l ∷ [] })

-- The first entry that is equal is erased.
unfoldable pub erase_listener : ℕ → List ℕ → Option (List ℕ)
erase_listener l [] = none
erase_listener l (x ∷ xs) =
    let rest = erase_listener l xs in if x == l then some xs else (rest >>= λ xs'. some (x ∷ xs'))

unfoldable pub remove_can_listener : Option ℕ → CanOperator → ℤ × CanOperator
remove_can_listener none op = (negsuc 0, op)
remove_can_listener (some l) op = elim (erase_listener l op.listener_list) [
  | none ↦ (pos 1, op)
  | some xs ↦ (pos 0, record op { listener_list = xs })
]

-- The loop over the entries: the mask of the first one with the identifier is set.
unfoldable pub set_mask : ℕ → ℕ → List CanFilter → Option (List CanFilter)
set_mask can_id mask [] = none
set_mask can_id mask (f ∷ filters) =
    let rest = set_mask can_id mask filters in
    if f.can_id == can_id
    then some (record f { can_mask = mask } ∷ filters)
    else (rest >>= λ filters'. some (f ∷ filters'))

unfoldable pub add_can_filter : ℕ → ℕ → CanOperator → ℤ × CanOperator
add_can_filter can_id mask op = elim (set_mask can_id mask op.filter) [
  | some filters ↦ (pos 0, record op { filter = filters })
  | none ↦
      if ltb (length op.filter) (max_sensors - 1)
      then (
        pos 0,
        record op { filter = op.filter ++ record { can_id = can_id; can_mask = mask } ∷ [] },
      )
      else (negsuc 0, op)
]

unfoldable pub reset_can_filter : CanOperator → CanOperator
reset_can_filter op = (add_can_filter es0_canid can_eff_mask (record op { filter = [] })).1

-- The variables of Run, and the two members that it changes.
pub record Receiver : Type 0 where
  pub recv_buf : List ℕ
  pub recv_length : ℕ
  pub total_length : ℕ
  pub recv_crc : ℕ
  pub multi_mode : ℕ
  pub heart_beat_timer : ℕ
  pub loop_enable : Bool

unfoldable pub new_receiver : ℕ → Receiver
new_receiver heart_beat_timer = record {
  recv_buf = replicate 2048 0;
  recv_length = 0;
  total_length = 0;
  recv_crc = 0;
  multi_mode = 0;
  heart_beat_timer = heart_beat_timer;
  loop_enable = true;
}

-- What a round calls on every listener: nothing, SendHeartBeat, or HandlerData.
pub data Output : Type 0 where
  quiet : Output
  send_heart_beat : Output
  handler_data : ℕ → List ℕ → ℕ → Output

-- A fault is `none`: a copy or a sum beyond `recvBuf`.
abbrev pub Round : Type 0
Round = Option (Output × Receiver)

unfoldable pub deliver : CanBusMsg → Receiver → Round
deliver m r =
    some (
      handler_data m.can_id r.recv_buf r.recv_length,
      record r { recv_length = 0; total_length = 0 },
    )

-- The bytes of a message are appended, cut to the room that is left.
unfoldable pub collect : CanBusMsg → Receiver → Round
unfolding deliver
collect m r =
    if ltb 2048 (r.recv_length + m.len)
    then (memcpy r.recv_buf r.recv_length (take (2048 - r.recv_length) m.bytes) >>= λ buf.
        deliver m (record r { recv_buf = buf; recv_length = 2048; multi_mode = 0 }))
    else (memcpy r.recv_buf r.recv_length (take m.len m.bytes) >>= λ buf.
        let r' = record r { recv_buf = buf; recv_length = r.recv_length + m.len } in
        if r.multi_mode == 1 then some (quiet, r') else deliver m r')

abbrev pub start_over : Receiver → Receiver
start_over r = record r { multi_mode = 0; recv_length = 0; total_length = 0 }

-- The last message of a package. A mode of 2 lasts until the delivery, which sets it to 0.
unfoldable pub end_package : CanBusMsg → Receiver → Round
unfolding deliver collect
end_package m r =
    if r.recv_length == r.total_length
    then (get_crc16 r.recv_buf r.total_length 0 >>= λ crc.
        if crc == r.recv_crc
        then deliver m (record r { multi_mode = 0 })
        else some (quiet, start_over r))
    else if ltb r.total_length r.recv_length
    then some (quiet, start_over r)
    else collect m r

-- The first message of a package. Two bytes give an int that is not negative.
unfoldable pub begin_package : CanBusMsg → Receiver → Round
begin_package m r = buffer2bin (drop 2 m.bytes) 2 >>= λ total.
    buffer2bin (drop 4 m.bytes) 2 >>= λ crc.
    some (quiet, record r { recv_length = 0; total_length = total; recv_crc = crc; multi_mode = 1 })

-- `data[0] == 0xFE && data[1] == 0xFE`.
unfoldable pub is_mark : List ℕ → Bool
is_mark (a ∷ b ∷ bytes) = a == 0xFE && b == 0xFE
is_mark bytes = false

unfoldable pub handle_message : CanBusMsg → Receiver → Round
unfolding is_mark
handle_message m r =
    if is_mark m.bytes && (m.len == 2 && r.multi_mode == 1)
    then end_package m r
    else if is_mark m.bytes && m.len == 6
    then begin_package m r
    else collect m r

-- A round without data. The timer is compared before it is counted up.
unfoldable pub idle : Receiver → Output × Receiver
idle r =
    if ltb 10 r.heart_beat_timer
    then (send_heart_beat, record r { heart_beat_timer = 0 })
    else (quiet, record r { heart_beat_timer = r.heart_beat_timer + 1 })

-- `ret < 0 && ret != -3`.
abbrev pub is_failure : ℤ → Bool
is_failure (pos n) = false
is_failure (negsuc n) = if n == 2 then false else true

-- One round of Run's loop.
unfoldable pub run_round : CanBusMsg → Receiver → Round
run_round m r =
    if is_failure m.ret
    then some (quiet, record r { loop_enable = false })
    else if m.len == 0
    then some (idle r)
    else handle_message m r

-- The calls of a round: each listener in turn.
unfoldable pub calls : CanOperator → Output → List (ℕ × Output)
calls op out = map (λ l. (l, out)) op.listener_list

-- Run: the messages in turn, until the loop is left. The outputs, oldest first.
unfoldable pub run : List CanBusMsg → Receiver → Option (List Output × Receiver)
run [] r = some ([], r)
run (m ∷ messages) r =
    if r.loop_enable
    then (run_round m r >>= λ (out, r'). run messages r' >>= λ (outs, r''). some (out ∷ outs, r''))
    else some ([], r)
