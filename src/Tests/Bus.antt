-- ===== src/Tests/Bus.antt =====
-- The CAN bus: devices/canbus/AgvCanOperator.cpp and AgvSensorManager.cpp on small inputs.
use hxdl_driving_control.Prelude.{
  ℕ, ◌≡◌, refl, inl, List, [], ◌∷◌, ◌++◌, some, true, arith, All, replicate, length-replicate,
}
use hxdl_driving_control.Prelude.Int.{pos}
use hxdl_driving_control.CheckSum.{tabel, crc_check, crc_loop, get_crc16}
use hxdl_driving_control.Wire.{bin2buffer}
use hxdl_driving_control.Can.{
  CanBusMsg, CanOperator, Receiver, Output, quiet, is_mark, run, add_can_filter, es0_canid,
  can_eff_mask,
}
use hxdl_driving_control.Can.Bounds.{IsMessage, IsReceiver, IsOutput, run-IsReceiver}
use hxdl_driving_control.Can.Pieces.{IsPiece, IsLast}
use hxdl_driving_control.Can.Packages.{Handed, run-Package}
use hxdl_driving_control.Can.Filters.{Adds, add_can_filter-Adds}

abbrev empty_receiver : Receiver
empty_receiver = record {
  recv_buf = replicate 2048 0;
  recv_length = 0;
  total_length = 0;
  recv_crc = 0;
  multi_mode = 0;
  heart_beat_timer = 0;
  loop_enable = true;
}

abbrev message : ℕ → List ℕ → CanBusMsg
message len bytes = record { can_id = 0x0501; len = len; bytes = bytes; ret = pos 0 }

-- Ten bytes in two pieces.
abbrev piece1 : CanBusMsg
piece1 = message 8 (1 ∷ 2 ∷ 3 ∷ 4 ∷ 5 ∷ 6 ∷ 7 ∷ 8 ∷ [])

abbrev piece2 : CanBusMsg
piece2 = message 2 (9 ∷ 10 ∷ 0 ∷ 0 ∷ 0 ∷ 0 ∷ 0 ∷ 0 ∷ [])

abbrev ten : List ℕ
ten = 1 ∷ 2 ∷ 3 ∷ 4 ∷ 5 ∷ 6 ∷ 7 ∷ 8 ∷ 9 ∷ 10 ∷ []

abbrev first : CanBusMsg
first = message 6 (0xFE ∷ 0xFE ∷ (bin2buffer 10 2 ++ (bin2buffer 48155 2 ++ 0 ∷ 0 ∷ [])))

abbrev last : CanBusMsg
last = message 2 (0xFE ∷ 0xFE ∷ 0 ∷ 0 ∷ 0 ∷ 0 ∷ 0 ∷ 0 ∷ [])

ten-sum : get_crc16 ten 10 0 ≡ some 48155
unfolding get_crc16 crc_loop crc_check tabel
ten-sum = refl

pieces-IsPiece : All IsPiece (piece1 ∷ piece2 ∷ [])
unfolding is_mark
pieces-IsPiece = (
  (refl, omega arith, (refl, omega arith), inl refl),
  ((refl, omega arith, (refl, omega arith), inl refl), tt),
)

last-IsLast : IsLast last
unfolding is_mark
last-IsLast = (refl, refl, refl)

run-Package_example :
    Handed
      (run (first ∷ (piece1 ∷ piece2 ∷ last ∷ [])) empty_receiver)
      (quiet ∷ quiet ∷ quiet ∷ [])
      0x0501
      10
      ten
run-Package_example =
    run-Package first last (piece1 ∷ piece2 ∷ []) empty_receiver 10 48155 refl
      (length-replicate {A = ℕ} 2048 0) (refl, refl, (0 ∷ 0 ∷ [], refl)) pieces-IsPiece last-IsLast
      refl (omega arith) (omega arith) ten-sum

messages-IsMessage : All IsMessage (piece1 ∷ piece2 ∷ [])
messages-IsMessage = ((refl, omega arith), ((refl, omega arith), tt))

empty_receiver-IsReceiver : IsReceiver empty_receiver
empty_receiver-IsReceiver = (length-replicate {A = ℕ} 2048 0, omega arith)

run-IsReceiver_example :
    (outs : List Output) × (r' : Receiver) × (run (piece1 ∷ piece2 ∷ []) empty_receiver
      ≡ some (outs, r'))
    × All IsOutput outs
    × IsReceiver r'
run-IsReceiver_example =
    run-IsReceiver (piece1 ∷ piece2 ∷ []) empty_receiver messages-IsMessage
      empty_receiver-IsReceiver

abbrev one_filter : CanOperator
one_filter = record {
  listener_list = [];
  filter = record { can_id = es0_canid; can_mask = can_eff_mask } ∷ [];
}

add_can_filter-Adds_example :
    Adds 0x0501 can_eff_mask one_filter (add_can_filter 0x0501 can_eff_mask one_filter)
add_can_filter-Adds_example = add_can_filter-Adds 0x0501 can_eff_mask one_filter (omega arith)
