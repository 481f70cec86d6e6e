-- ===== src/Can/Pieces.antt =====
-- devices/canbus/AgvCanOperator.cpp: the messages of a package, and one in its middle.
use mathlib.Core.List.{append_assoc}
use hxdl_driving_control.Prelude.{
  ℕ, ◌+◌, ◌≤◌, ◌<◌, ◌≡◌, ◌≢◌, refl, sym, ap, ap₂, ◌∙◌, ◌⊎◌, inl, inr, List, [], ◌∷◌, ◌++◌, true,
  false, some, arith, ltb, ◌==◌, length, length-append, take, drop, length-take, length-drop,
}
use hxdl_driving_control.Wire.{bin2buffer, memcpy}
use hxdl_driving_control.Wire.Sections.{memcpy-append}
use hxdl_driving_control.Can.{
  CanBusMsg, Receiver, quiet, collect, is_mark, handle_message, is_failure, run_round,
}
use hxdl_driving_control.Can.Bounds.{IsMessage}

-- A message with data whose bytes are not taken for the first or the last of a package.
abbrev pub IsPiece : CanBusMsg → Type 0
IsPiece m =
    (is_failure m.ret ≡ false)
    × (0 < m.len)
    × IsMessage m
    × ((is_mark m.bytes ≡ false) ⊎ ((m.len ≢ 2) × (m.len ≢ 6)))

-- The first message of a package of `n` bytes with the sum `crc`, and the last one.
abbrev pub IsFirst : ℕ → ℕ → CanBusMsg → Type 0
IsFirst n crc m =
    (is_failure m.ret ≡ false)
    × (m.len ≡ 6)
    × ((rest : List ℕ) × (m.bytes ≡ 0xFE ∷ 0xFE ∷ (bin2buffer n 2 ++ (bin2buffer crc 2 ++ rest))))

abbrev pub IsLast : CanBusMsg → Type 0
IsLast m = (is_failure m.ret ≡ false) × (m.len ≡ 2) × (is_mark m.bytes ≡ true)

-- The bytes that the pieces carry.
abbrev pub carried : List CanBusMsg → List ℕ
carried [] = []
carried (m ∷ messages) = take m.len m.bytes ++ carried messages

-- In the middle of a package: `done` is there.
pub record Inside (r : Receiver) (n crc : ℕ) (done todo : List ℕ) : Type 0 where
  pub on : r.loop_enable ≡ true
  pub buffered : r.recv_buf ≡ done ++ todo
  pub counted : r.recv_length ≡ length done
  pub announced : r.total_length ≡ n
  pub summed : r.recv_crc ≡ crc
  pub mode : r.multi_mode ≡ 1
  pub size : length (done ++ todo) ≡ 2048

piece_collected :
    (m : CanBusMsg) (r : Receiver) → IsPiece m → r.multi_mode ≡ 1 → run_round m r ≡ collect m r
unfolding run_round handle_message
piece_collected m r (fine, some_data, hm, inl no_mark) multi =
    let has_data : (m.len == 0) ≡ false = ground arith in
    rw (fine, run_round, has_data, handle_message, no_mark)
piece_collected m r (fine, some_data, hm, inr (not_two, not_six)) multi = ground (arith, fine)

collect_lem :
    (m : CanBusMsg) (r : Receiver) (buf : List ℕ)
    → r.recv_length + m.len ≤ 2048
    → r.multi_mode ≡ 1
    → memcpy r.recv_buf r.recv_length (take m.len m.bytes) ≡ some buf
    → collect m r ≡ some (quiet, record r { recv_buf = buf; recv_length = r.recv_length + m.len })
unfolding collect
collect_lem m r buf fits multi copied =
    let room : ltb 2048 (r.recv_length + m.len) ≡ false = ground arith in
    let one : (r.multi_mode == 1) ≡ true = ground arith in rw (room, collect, copied, one)

pub piece-Inside :
    (m : CanBusMsg) (r : Receiver) (n crc : ℕ) (done todo : List ℕ)
    → IsPiece m
    → Inside r n crc done todo
    → length done + m.len ≤ 2048
    → (r' : Receiver) × (run_round m r ≡ some (quiet, r'))
      × Inside r' n crc (done ++ take m.len m.bytes) (drop (length (take m.len m.bytes)) todo)
piece-Inside m r n crc done todo hm i room =
    let piece = take m.len m.bytes in
    let count : length piece ≡ m.len = omega (arith, length-take m.len m.bytes, hm.2.0, hm.2.1) in
    let todo' = drop (length piece) todo in
    let enough : length piece ≤ length todo = omega (arith, length-append done todo, i.size) in
    let copied : memcpy r.recv_buf r.recv_length piece ≡ some ((done ++ piece) ++ todo') =
      ap₂ (λ b k. memcpy b k piece) i.buffered i.counted
      ∙ memcpy-append done todo piece (length done) refl enough
      ∙ ap some (sym (append_assoc done piece todo')) in
    (
      record r { recv_buf = (done ++ piece) ++ todo'; recv_length = r.recv_length + m.len },
      piece_collected m r hm i.mode
          ∙ collect_lem m r ((done ++ piece) ++ todo') (omega (arith, i.counted)) i.mode copied,
      record {
        on = i.on;
        buffered = refl;
        counted = omega (arith, i.counted, length-append done piece);
        announced = i.announced;
        summed = i.summed;
        mode = i.mode;
        size = omega (
          arith,
          i.size,
          length-append done todo,
          length-append (done ++ piece) todo',
          length-append done piece,
          length-drop (length piece) todo,
        );
      },
    )
