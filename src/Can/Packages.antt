-- ===== src/Can/Packages.antt =====
-- devices/canbus/AgvCanOperator.cpp: a package of several CAN messages, from its first to its last.
use mathlib.Core.List.{append_assoc}
use hxdl_driving_control.Prelude.{
  ℕ, ◌+◌, ◌≤◌, ◌<◌, ◌≡◌, refl, sym, ap, ap₂, ◌∙◌, List, [], ◌∷◌, ◌++◌, map, true, false, ◌&&◌,
  Option, some, arith, All, ◌==◌, length, length-append, take, drop, length-take, take_at, drop_at,
  append-nil,
}
use hxdl_driving_control.Wire.{buffer2bin, bin2buffer}
use hxdl_driving_control.Wire.RoundTrip.{buffer2bin-bin2buffer, length-bin2buffer}
use hxdl_driving_control.CheckSum.{get_crc16}
use hxdl_driving_control.CheckSum.Laws.{get_crc16-append}
use hxdl_driving_control.Can.{
  CanBusMsg, Receiver, Output, quiet, handler_data, deliver, end_package, begin_package, is_mark,
  handle_message, run_round, run,
}
use hxdl_driving_control.Can.Bounds.{run-cons}
use hxdl_driving_control.Can.Pieces.{IsPiece, IsFirst, IsLast, carried, Inside, piece-Inside}

-- What the package's last message hands over.
pub record Handed (o : Option (List Output × Receiver)) (front : List Output) (can_id n : ℕ)
    (payload : List ℕ) : Type 0 where
  pub buf : List ℕ
  pub after : Receiver
  pub done : o ≡ some (front ++ handler_data can_id buf n ∷ [], after)
  pub held : take n buf ≡ payload
  pub emptied : (after.recv_length ≡ 0) × (after.total_length ≡ 0) × (after.multi_mode ≡ 0)

last_round :
    (m : CanBusMsg) (r : Receiver) (crc : ℕ)
    → IsLast m
    → r.multi_mode ≡ 1
    → r.recv_length ≡ r.total_length
    → get_crc16 r.recv_buf r.total_length 0 ≡ some crc
    → r.recv_crc ≡ crc
    → run_round m r
      ≡ some (
        handler_data m.can_id r.recv_buf r.recv_length,
        record r { multi_mode = 0; recv_length = 0; total_length = 0 },
      )
unfolding run_round handle_message end_package deliver
last_round m r crc (fine, two, mark) multi whole summed same =
    let has_data : (m.len == 0) ≡ false = ground arith in
    let ends : (m.len == 2 && r.multi_mode == 1) ≡ true = ground arith in
    let equal : (r.recv_length == r.total_length) ≡ true = ground arith in
    let right : (crc == r.recv_crc) ≡ true = ground arith in
    rw (
      fine, run_round, has_data, handle_message, mark, ends, end_package, equal, summed, right,
      deliver,
    )

last-Handed :
    (m : CanBusMsg) (r : Receiver) (n crc : ℕ) (done todo : List ℕ)
    → IsLast m
    → Inside r n crc done todo
    → length done ≡ n
    → get_crc16 done n 0 ≡ some crc
    → Handed (run (m ∷ []) r) [] m.can_id n done
unfolding run
last-Handed m r n crc done todo hm i size summed =
    let after = record r { multi_mode = 0; recv_length = 0; total_length = 0 } in
    let whole : r.recv_length ≡ r.total_length = i.counted ∙ size ∙ sym i.announced in
    let sum : get_crc16 r.recv_buf r.total_length 0 ≡ some crc =
      ap₂ (λ b k. get_crc16 b k 0) i.buffered (i.announced ∙ sym size)
      ∙ get_crc16-append done todo 0 (omega (arith, i.size, length-append done todo))
      ∙ ap (λ k. get_crc16 done k 0) size
      ∙ summed in
    let ended = last_round m r crc hm i.mode whole sum i.summed in
    record {
      buf = r.recv_buf;
      after = after;
      done =
          run-cons m [] r after after (handler_data m.can_id r.recv_buf r.recv_length) [] i.on ended
            refl
          ∙ ap (λ k. some (handler_data m.can_id r.recv_buf k ∷ [], after)) (i.counted ∙ size);
      held = ap (take n) i.buffered ∙ take_at n done todo size;
      emptied = (refl, refl, refl);
    }

pieces-Handed :
    (pieces : List CanBusMsg) (last : CanBusMsg) (r : Receiver) (n crc : ℕ) (done todo : List ℕ)
    → All IsPiece pieces
    → IsLast last
    → Inside r n crc done todo
    → length (done ++ carried pieces) ≡ n
    → n ≤ 2048
    → get_crc16 (done ++ carried pieces) n 0 ≡ some crc
    → Handed
        (run (pieces ++ last ∷ []) r)
        (map (λ m. quiet) pieces)
        last.can_id
        n
        (done ++ carried pieces)
pieces-Handed [] last r n crc done todo hp hl i size small summed =
    let nothing = append-nil done in
    rw nothing (last-Handed last r n crc done todo hl i (rw nothing at size) (rw nothing at summed))
pieces-Handed (m ∷ pieces) last r n crc done todo hp hl i size small summed =
    let piece = take m.len m.bytes in
    let regroup = append_assoc done piece (carried pieces) in
    let room : length done + m.len ≤ 2048 = omega (
      arith,
      size,
      length-append done (piece ++ carried pieces),
      length-append piece (carried pieces),
      length-take m.len m.bytes,
      hp.0.2.1,
    ) in
    let (r', round, i') = piece-Inside m r n crc done todo hp.0 i room in
    let more =
      pieces-Handed pieces last r' n crc (done ++ piece) (drop (length piece) todo) hp.1 hl i'
        (ap length regroup ∙ size) small (ap (λ b. get_crc16 b n 0) regroup ∙ summed) in
    record {
      buf = more.buf;
      after = more.after;
      done =
          run-cons m (pieces ++ last ∷ []) r r' more.after quiet
            (map (λ m. quiet) pieces ++ handler_data last.can_id more.buf n ∷ []) i.on round
            more.done;
      held = more.held ∙ regroup;
      emptied = more.emptied;
    }

first-Inside :
    (m : CanBusMsg) (r : Receiver) (n crc : ℕ)
    → IsFirst n crc m
    → n < 65536
    → crc < 65536
    → r.loop_enable ≡ true
    → length r.recv_buf ≡ 2048
    → (r' : Receiver) × (run_round m r ≡ some (quiet, r')) × Inside r' n crc [] r.recv_buf
unfolding run_round handle_message begin_package is_mark
first-Inside m r n crc (fine, six, (rest, bytes)) hn hc on size =
    let has_data : (m.len == 0) ≡ false = ground arith in
    let mark : is_mark m.bytes ≡ true = ap is_mark bytes in
    let no_end : (m.len == 2 && r.multi_mode == 1) ≡ false = ground arith in
    let begins : (m.len == 6) ≡ true = ground arith in
    let total : buffer2bin (drop 2 m.bytes) 2 ≡ some n =
      ap (λ b. buffer2bin (drop 2 b) 2) bytes
      ∙ buffer2bin-bin2buffer 2 n (bin2buffer crc 2 ++ rest) (omega arith) (omega arith)
          (omega arith) in
    let sum : buffer2bin (drop 4 m.bytes) 2 ≡ some crc =
      ap (λ b. buffer2bin (drop 4 b) 2) bytes
      ∙ ap (λ b. buffer2bin b 2)
          (drop_at 2 (bin2buffer n 2) (bin2buffer crc 2 ++ rest) (length-bin2buffer n 2))
      ∙ buffer2bin-bin2buffer 2 crc rest (omega arith) (omega arith) (omega arith) in
    (
      record r { recv_length = 0; total_length = n; recv_crc = crc; multi_mode = 1 },
      rw (
        fine, run_round, has_data, handle_message, mark, no_end, begins, begin_package, total, sum,
      ),
      record {
        on = on;
        buffered = refl;
        counted = refl;
        announced = refl;
        summed = refl;
        mode = refl;
        size = size;
      },
    )

-- A package of at most 2048 bytes, whatever was received before it: a first message that announces its
-- length and its check sum, pieces that are not taken for a first or a last one, and a last one. The
-- listeners are called once, at the last message and with its identifier, and find the package's bytes
-- at the front of the buffer; then the receiver is empty again.
pub run-Package :
    (first last : CanBusMsg) (pieces : List CanBusMsg) (r : Receiver) (n crc : ℕ)
    → r.loop_enable ≡ true
    → length r.recv_buf ≡ 2048
    → IsFirst n crc first
    → All IsPiece pieces
    → IsLast last
    → length (carried pieces) ≡ n
    → n ≤ 2048
    → crc < 65536
    → get_crc16 (carried pieces) n 0 ≡ some crc
    → Handed
        (run (first ∷ (pieces ++ last ∷ [])) r)
        (quiet ∷ map (λ m. quiet) pieces)
        last.can_id
        n
        (carried pieces)
run-Package first last pieces r n crc on size hf hp hl count small hc summed =
    let (r', round, i) = first-Inside first r n crc hf (omega arith) hc on size in
    let more = pieces-Handed pieces last r' n crc [] r.recv_buf hp hl i count small summed in
    record {
      buf = more.buf;
      after = more.after;
      done =
          run-cons first (pieces ++ last ∷ []) r r' more.after quiet
            (map (λ m. quiet) pieces ++ handler_data last.can_id more.buf n ∷ []) on round
            more.done;
      held = more.held;
      emptied = more.emptied;
    }
