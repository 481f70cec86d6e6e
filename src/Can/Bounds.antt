-- ===== src/Can/Bounds.antt =====
-- devices/canbus/AgvCanOperator.cpp: the receive buffer of 2048 bytes under any row of messages.
use hxdl_driving_control.Prelude.{
  ℕ, ◌+◌, ◌-◌, ◌≤◌, ◌≡◌, refl, ◌∙◌, inl, inr, List, [], ◌∷◌, true, false, ◌&&◌, some, arith, All,
  ltb, ◌==◌, length, take, drop, length-take, length-drop, Bool-cases,
}
use hxdl_driving_control.Wire.{buffer2bin, buffer2bin_loop}
use hxdl_driving_control.Wire.Sections.{memcpy-some}
use hxdl_driving_control.CheckSum.{get_crc16}
use hxdl_driving_control.CheckSum.Laws.{get_crc16-some, get_crc16-take}
use hxdl_driving_control.Can.{
  CanBusMsg, Receiver, Output, quiet, send_heart_beat, handler_data, Round, deliver, collect,
  start_over, end_package, begin_package, is_mark, handle_message, idle, is_failure, run_round, run,
}

-- As the operating system gives a message: eight bytes, and at most eight of them received.
abbrev pub IsMessage : CanBusMsg → Type 0
IsMessage m = (length m.bytes ≡ 8) × (m.len ≤ 8)

abbrev pub IsReceiver : Receiver → Type 0
IsReceiver r = (length r.recv_buf ≡ 2048) × (r.recv_length ≤ 2048)

-- What is handed to the listeners lies in the buffer.
abbrev pub IsOutput : Output → Type 0
IsOutput quiet = Unit
IsOutput send_heart_beat = Unit
IsOutput (handler_data can_id buf n) = (length buf ≡ 2048) × (n ≤ 2048)

pub record Safe (o : Round) : Type 0 where
  pub out : Output
  pub after : Receiver
  pub done : o ≡ some (out, after)
  pub inside : IsOutput out
  pub kept : IsReceiver after

deliver-Safe : (m : CanBusMsg) (r : Receiver) → IsReceiver r → Safe (deliver m r)
unfolding deliver
deliver-Safe m r h = record {
  out = handler_data m.can_id r.recv_buf r.recv_length;
  after = record r { recv_length = 0; total_length = 0 };
  done = refl;
  inside = h;
  kept = omega arith;
}

collect-Safe : (m : CanBusMsg) (r : Receiver) → IsMessage m → IsReceiver r → Safe (collect m r)
unfolding collect
collect-Safe m r hm h = elim (Bool-cases (ltb 2048 (r.recv_length + m.len))) [
  | inl full ↦
      let (buf, copied, size) =
        memcpy-some r.recv_buf (take (2048 - r.recv_length) m.bytes) r.recv_length
          (ground (arith, length-take (2048 - r.recv_length) m.bytes)) in
      let r' = record r { recv_buf = buf; recv_length = 2048; multi_mode = 0 } in
      let kept : IsReceiver r' = (omega arith, omega arith) in
      rw (full, collect, copied) (deliver-Safe m r' kept)
  | inr fits ↦
      let (buf, copied, size) =
        memcpy-some r.recv_buf (take m.len m.bytes) r.recv_length
          (ground (arith, length-take m.len m.bytes)) in
      let r' = record r { recv_buf = buf; recv_length = r.recv_length + m.len } in
      let kept : IsReceiver r' = (omega arith, ground arith) in
      elim (Bool-cases (r.multi_mode == 1)) [
        | inl multi ↦
            rw (fits, collect, copied, multi)
              (record { out = quiet; after = r'; done = refl; inside = tt; kept = kept })
        | inr single ↦ rw (fits, collect, copied, single) (deliver-Safe m r' kept)
      ]
]

start_over-Safe : (r : Receiver) → IsReceiver r → Safe (some (quiet, start_over r))
start_over-Safe r h = record {
  out = quiet;
  after = start_over r;
  done = refl;
  inside = tt;
  kept = omega arith;
}

end_package-Safe :
    (m : CanBusMsg) (r : Receiver) → IsMessage m → IsReceiver r → Safe (end_package m r)
unfolding end_package
end_package-Safe m r hm h = elim (Bool-cases (r.recv_length == r.total_length)) [
  | inl whole ↦
      let n = r.total_length in
      let small : n ≤ 2048 = ground arith in
      let (crc, summed, c) =
        get_crc16-some (take n r.recv_buf) 0 (omega (arith, length-take n r.recv_buf)) in
      let sum : get_crc16 r.recv_buf n 0 ≡ some crc =
        get_crc16-take r.recv_buf n 0 (omega arith) (omega arith) ∙ summed in
      elim (Bool-cases (crc == r.recv_crc)) [
        | inl right ↦
            rw (whole, end_package, sum, right) (deliver-Safe m (record r { multi_mode = 0 }) h)
        | inr wrong ↦ rw (whole, end_package, sum, wrong) (start_over-Safe r h)
      ]
  | inr part ↦ elim (Bool-cases (ltb r.total_length r.recv_length)) [
    | inl more ↦ rw (part, end_package, more) (start_over-Safe r h)
    | inr less ↦ rw (part, end_package, less) (collect-Safe m r hm h)
  ]
]

-- Two bytes that are there are a number.
pub buffer2bin-some : (bytes : List ℕ) → 2 ≤ length bytes → (v : ℕ) × (buffer2bin bytes 2 ≡ some v)
unfolding buffer2bin buffer2bin_loop
buffer2bin-some [] h = absurd (omega arith)
buffer2bin-some (a ∷ []) h = absurd (omega arith)
buffer2bin-some (a ∷ b ∷ bytes) h = (_, refl)

begin_package-Safe :
    (m : CanBusMsg) (r : Receiver) → IsMessage m → IsReceiver r → Safe (begin_package m r)
unfolding begin_package
begin_package-Safe m r hm h =
    let (total, has_total) =
      buffer2bin-some (drop 2 m.bytes) (omega (arith, length-drop 2 m.bytes)) in
    let (crc, has_crc) = buffer2bin-some (drop 4 m.bytes) (omega (arith, length-drop 4 m.bytes)) in
    rw (has_total, begin_package, has_crc)
      (record {
        out = quiet;
        after = record r { recv_length = 0; total_length = total; recv_crc = crc; multi_mode = 1 };
        done = refl;
        inside = tt;
        kept = omega arith;
      })

idle-Safe : (r : Receiver) → IsReceiver r → Safe (some (idle r))
unfolding idle
idle-Safe r h = elim (Bool-cases (ltb 10 r.heart_beat_timer)) [
  | inl beat ↦
      rw (beat, idle)
        (record {
          out = send_heart_beat;
          after = record r { heart_beat_timer = 0 };
          done = refl;
          inside = tt;
          kept = h;
        })
  | inr wait ↦
      rw (wait, idle)
        (record {
          out = quiet;
          after = record r { heart_beat_timer = r.heart_beat_timer + 1 };
          done = refl;
          inside = tt;
          kept = h;
        })
]

handle_message-Safe :
    (m : CanBusMsg) (r : Receiver) → IsMessage m → IsReceiver r → Safe (handle_message m r)
unfolding handle_message
handle_message-Safe m r hm h =
    elim (Bool-cases (is_mark m.bytes && (m.len == 2 && r.multi_mode == 1))) [
      | inl ends ↦ rw (ends, handle_message) (end_package-Safe m r hm h)
      | inr no_end ↦ elim (Bool-cases (is_mark m.bytes && m.len == 6)) [
        | inl begins ↦ rw (no_end, handle_message, begins) (begin_package-Safe m r hm h)
        | inr other ↦ rw (no_end, handle_message, other) (collect-Safe m r hm h)
      ]
    ]

pub run_round-Safe :
    (m : CanBusMsg) (r : Receiver) → IsMessage m → IsReceiver r → Safe (run_round m r)
unfolding run_round
run_round-Safe m r hm h = elim (Bool-cases (is_failure m.ret)) [
  | inl failed ↦
      rw (failed, run_round)
        (record {
          out = quiet;
          after = record r { loop_enable = false };
          done = refl;
          inside = tt;
          kept = h;
        })
  | inr fine ↦ elim (Bool-cases (m.len == 0)) [
    | inl no_data ↦ rw (fine, run_round, no_data) (idle-Safe r h)
    | inr has_data ↦ rw (fine, run_round, has_data) (handle_message-Safe m r hm h)
  ]
]

pub run-cons :
    (m : CanBusMsg) (messages : List CanBusMsg) (r r' r'' : Receiver) (out : Output)
    (outs : List Output)
    → r.loop_enable ≡ true
    → run_round m r ≡ some (out, r')
    → run messages r' ≡ some (outs, r'')
    → run (m ∷ messages) r ≡ some (out ∷ outs, r'')
unfolding run
run-cons m messages r r' r'' out outs on one more = ground (arith, one, more)

run_left :
    (m : CanBusMsg) (messages : List CanBusMsg) (r : Receiver)
    → r.loop_enable ≡ false
    → run (m ∷ messages) r ≡ some ([], r)
unfolding run
run_left m messages r off = ground arith

-- From a receive buffer of 2048 bytes that holds at most as many, any row of messages of at most eight
-- bytes is handled without a fault: no copy and no check sum leaves the buffer, whatever lengths the
-- packages announce, the listeners are handed at most 2048 bytes of it, and it stays like that.
pub run-IsReceiver :
    (messages : List CanBusMsg) (r : Receiver)
    → All IsMessage messages
    → IsReceiver r
    → (outs : List Output) × (r' : Receiver) × (run messages r ≡ some (outs, r'))
      × All IsOutput outs
      × IsReceiver r'
unfolding run
run-IsReceiver [] r hm h = ([], r, refl, tt, h)
run-IsReceiver (m ∷ messages) r hm h = elim (Bool-cases r.loop_enable) [
  | inr left ↦ ([], r, run_left m messages r left, tt, h)
  | inl on ↦
      let s = run_round-Safe m r hm.0 h in
      let (outs, r', ran, all_inside, kept) = run-IsReceiver messages s.after hm.1 s.kept in
      (
        s.out ∷ outs,
        r',
        run-cons m messages r s.after r' s.out outs on s.done ran,
        (s.inside, all_inside),
        kept,
      )
]
