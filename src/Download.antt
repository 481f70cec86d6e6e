-- ===== src/Download.antt =====
-- devices/canbus/AgvDownloadBin.cpp: a file sent to a board on the CAN bus, in frames of eight bytes that
-- the board sends back. Opening and reading the file, the board's answers and the system call that writes a
-- frame are parameters. The waits of a millisecond and what is printed are left out.
pub mod Acknowledged
pub mod Transfer
pub mod Echo
use hxdl_driving_control.Prelude.{
  ℕ, zero, suc, ◌+◌, ◌-◌, ◌*◌, ◌/◌, ◌%◌, List, [], ◌∷◌, ◌++◌, replicate, Bool, true, false, ◌&&◌,
  Option, none, some, ltb, leb, ◌==◌, if◌then◌else◌, length, take, drop,
}
use hxdl_driving_control.Prelude.Int.{ℤ, pos, negsuc}
use hxdl_driving_control.Wire.{byte_of}
use hxdl_driving_control.Can.Sending.{CanFrame, SystemWrite, write}

-- What CAgvSocketCan::Read returned: -3, another number but 0, or 0 with the bytes of a frame.
pub data Reading : Type 0 where
  not_ready : Reading
  broken : Reading
  got : List ℕ → Reading

-- The frames written, and how often Read was called.
pub record Link : Type 0 where
  pub frames : List CanFrame
  pub reads : ℕ

-- The board's answer to a call of Read, by the frames written and the calls before.
abbrev pub Board : Type 0
Board = List CanFrame → ℕ → Reading

-- `memcmp(buf, bytes, len_out) == 0`. A frame has at most the eight bytes of the buffer.
unfoldable pub starts_with : List ℕ → List ℕ → Bool
starts_with [] buf = true
starts_with (b ∷ bytes) [] = false
starts_with (b ∷ bytes) (x ∷ buf) = b == x && starts_with bytes buf

-- The send buffer: eight bytes, the rest of them zero.
abbrev pub padded : List ℕ → List ℕ
padded payload = payload ++ replicate (8 - length payload) 0

-- `totalFrames`.
abbrev pub total_frames : ℕ → ℕ
total_frames filelen = filelen / 8 + (if ltb 0 (filelen % 8) then 1 else 0)

-- `readBuf[2] == boardNo`, where the board's number is an int.
unfoldable pub is_no : ℤ → ℕ → Bool
is_no (pos n) c = c == n
is_no (negsuc n) c = false

unfoldable pub is_ready : ℤ → List ℕ → Bool
is_ready board_no (a ∷ b ∷ c ∷ buf) = a == 0xAA && (b == 0xAA && is_no board_no c)
is_ready board_no [] = false
is_ready board_no (a ∷ []) = false
is_ready board_no (a ∷ b ∷ []) = false

module _ (fails : SystemWrite) (board : Board) where
  unfoldable pub write_link : ℕ → List ℕ → Link → ℤ × Link
  write_link can_id payload l =
      let (ret, frames) = write fails can_id payload l.frames in (ret, record l { frames = frames })

  -- The frame is written again, whatever that gives, when `i >= 100`.
  unfoldable pub resend : List ℕ → ℕ → Link → ℕ × Link
  resend payload i l = if leb 100 i then (0, (write_link 0x11 payload l).1) else (i, l)

  -- readDataToAckCheck: the rounds left and the rounds since the frame was written.
  unfoldable pub ack_check : ℕ → ℕ → List ℕ → Link → ℤ × Link
  ack_check zero i payload l = (negsuc 2, l)
  ack_check (suc r) i payload l =
      let l1 = record l { reads = l.reads + 1 } in
      elim (board l.frames l.reads) [
        | broken ↦ (negsuc 0, l1)
        | not_ready ↦ let (i2, l2) = resend payload (i + 1) l1 in ack_check r i2 payload l2
        | got bytes ↦ if starts_with bytes (padded payload) then (pos 0, l1) else (negsuc 1, l1)
      ]

  -- `i == 100`.
  unfoldable pub again : List ℕ → ℕ → Link → ℕ × Link
  again payload i l = if i == 100 then (0, (write_link 0x10 payload l).1) else (i, l)

  -- The first loop, in which the board sends the opening frame back. The count goes on when an answer
  -- that is not equal comes between.
  unfoldable pub handshake : ℕ → ℕ → List ℕ → Link → ℤ × Link
  handshake zero i payload l = (negsuc 1, l)
  handshake (suc r) i payload l =
      let l1 = record l { reads = l.reads + 1 } in
      elim (board l.frames l.reads) [
        | broken ↦ (negsuc 0, l1)
        | not_ready ↦ let (i2, l2) = again payload (i + 1) l1 in handshake r i2 payload l2
        | got bytes ↦
            let (i2, l2) = again payload (i + 1) l1 in
            let rest = handshake r i2 payload l2 in
            if starts_with bytes (padded payload) then (pos 0, l1) else rest
      ]

  -- The second loop, which has no bound: `none` when the rounds given are over.
  unfoldable pub wait_ready : ℕ → ℤ → List ℕ → Link → Option Link
  wait_ready zero board_no buf l = none
  wait_ready (suc r) board_no buf l =
      let l1 = record l { reads = l.reads + 1 } in
      let buf1 : List ℕ = elim (board l.frames l.reads) [
        | got bytes ↦ bytes ++ drop (length bytes) buf
        | _ ↦ buf
      ] in
      let rest = wait_ready r board_no buf1 l1 in if is_ready board_no buf1 then some l1 else rest

  -- One frame of the file: written, and sent back.
  unfoldable pub send_chunk : List ℕ → Link → ℤ × Link
  send_chunk chunk l =
      let (ret, l1) = write_link 0x11 chunk l in
      elim ret [ pos n ↦ ack_check 5000 0 chunk l1 | negsuc n ↦ (negsuc n, l1) ]

  -- The loop over the frames: those left, and what is left of the file. The last one is what is left.
  unfoldable pub send_chunks : ℕ → List ℕ → Link → ℤ × Link
  send_chunks zero file l = (pos 0, l)
  send_chunks (suc r) file l =
      let chunk = if r == 0 then file else take 8 file in
      let (ret, l1) = send_chunk chunk l in
      let rest = send_chunks r (drop 8 file) l1 in
      elim ret [ pos n ↦ rest | negsuc n ↦ (negsuc 0, l1) ]

  -- The frame that ends the transfer.
  unfoldable pub send_end : ℤ → Link → ℤ × Link
  send_end board_no l = write_link 0x10 (0xEE ∷ 0xEE ∷ byte_of board_no ∷ 0x00 ∷ 0x00 ∷ 0x01 ∷ []) l

  -- The two loops over the frames, when the board is ready.
  unfoldable pub transfer : ℤ → List ℕ → Link → ℤ × Link
  transfer board_no file l =
      let (ret, l1) = send_chunks (total_frames (length file)) file l in
      elim ret [ pos n ↦ send_end board_no l1 | negsuc n ↦ (negsuc 0, l1) ]

  -- SendFileViaCanBus on a file, or on none when it cannot be opened; `rounds` bounds the second loop.
  unfoldable pub send_file : ℕ → ℤ → Option (List ℕ) → Link → Option (ℤ × Link)
  send_file rounds board_no none l = some (negsuc 0, l)
  send_file rounds board_no (some file) l =
      let opening = 0xFF ∷ 0xFF ∷ byte_of board_no ∷ [] in
      let (ret, l1) = write_link 0x10 opening l in
      let (ret2, l2) = handshake 20000 0 opening l1 in
      let ready = wait_ready rounds board_no (replicate 8 0) l2 in
      if ltb (length file) 80 then some (negsuc 0, l) else elim ret [
        | negsuc n ↦ some (negsuc 0, l1)
        | pos n ↦ elim ret2 [
          | negsuc k ↦ some (negsuc k, l2)
          | pos k ↦ elim ready [ none ↦ none | some l3 ↦ some (transfer board_no file l3) ]
        ]
      ]
