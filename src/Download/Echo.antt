-- ===== src/Download/Echo.antt =====
-- devices/canbus/AgvDownloadBin.cpp: a transfer to a board that sends every frame back at once.
use hxdl_driving_control.Prelude.{
  ℕ, zero, suc, ◌+◌, ◌-◌, ◌*◌, ◌≤◌, ◌≡◌, refl, ◌∙◌, List, [], ◌∷◌, ◌++◌, replicate, true, false,
  arith, length, length-take, length-drop, drop,
}
use hxdl_driving_control.Prelude.Int.{ℤ, pos}
use hxdl_driving_control.Can.Sending.{CanFrame, SystemWrite, write}
use hxdl_driving_control.Download.{
  Reading, not_ready, got, Link, Board, starts_with, total_frames, write_link, ack_check,
  send_chunk, send_chunks, send_end, transfer,
}
use hxdl_driving_control.Download.Acknowledged.{frame_of, end_bytes, send_chunk_written}
use hxdl_driving_control.Download.Transfer.{
  chunk_of, send_chunks_next, send_chunks_over, transfer_done,
}

-- Every frame is taken, and the last one sent back.
abbrev pub takes_all : SystemWrite
takes_all frames frame = false

abbrev pub last_reading : List CanFrame → Reading
last_reading [] = not_ready
last_reading (f ∷ []) = got f.payload
last_reading (f ∷ g ∷ frames) = last_reading (g ∷ frames)

abbrev pub echo : Board
echo frames reads = last_reading frames

last_reading-snoc :
    (frames : List CanFrame) (f : CanFrame) → last_reading (frames ++ f ∷ []) ≡ got f.payload
last_reading-snoc [] f = refl
last_reading-snoc (g ∷ []) f = refl
last_reading-snoc (g ∷ h ∷ frames) f = last_reading-snoc (h ∷ frames) f

starts_with-append : (a b : List ℕ) → starts_with a (a ++ b) ≡ true
unfolding starts_with
starts_with-append [] b = refl
starts_with-append (x ∷ a) b = ground (arith, starts_with-append a b)

write_link_taken :
    (can_id : ℕ) (payload : List ℕ) (l : Link)
    → length payload ≤ 8
    → write_link takes_all echo can_id payload l
      ≡ (pos 0, record l { frames = l.frames ++ frame_of can_id payload ∷ [] })
unfolding write_link write
write_link_taken can_id payload l h = ground arith

ack_check-echo :
    (r : ℕ) (payload : List ℕ) (l : Link)
    → last_reading l.frames ≡ got payload
    → ack_check takes_all echo (suc r) 0 payload l ≡ (pos 0, record l { reads = l.reads + 1 })
unfolding ack_check
ack_check-echo r payload l e =
    rw (e, ack_check, starts_with-append payload (replicate (8 - length payload) 0))

send_chunk-echo :
    (chunk : List ℕ) (l : Link)
    → length chunk ≤ 8
    → (l1 : Link) × (send_chunk takes_all echo chunk l ≡ (pos 0, l1))
send_chunk-echo chunk l h =
    let l1 = record l { frames = l.frames ++ frame_of 0x11 chunk ∷ [] } in
    (
      record l1 { reads = l1.reads + 1 },
      send_chunk_written takes_all echo chunk l l1 (write_link_taken 0x11 chunk l h)
          ∙ ack_check-echo 4999 chunk l1 (last_reading-snoc l.frames (frame_of 0x11 chunk)),
    )

chunk_of-length : (r : ℕ) (file : List ℕ) → length file ≤ 8 * suc r → length (chunk_of r file) ≤ 8
chunk_of-length zero file h = omega (arith, h)
chunk_of-length (suc r) file h = ground (arith, length-take 8 file)

send_chunks-echo :
    (r : ℕ) (file : List ℕ) (l : Link)
    → length file ≤ 8 * r
    → (l1 : Link) × (send_chunks takes_all echo r file l ≡ (pos 0, l1))
send_chunks-echo zero file l h = (l, send_chunks_over takes_all echo file l)
send_chunks-echo (suc r) file l h =
    let (l1, sent) = send_chunk-echo (chunk_of r file) l (chunk_of-length r file h) in
    let (l2, rest) = send_chunks-echo r (drop 8 file) l1 (omega (arith, length-drop 8 file)) in
    (l2, send_chunks_next takes_all echo r 0 file l l1 sent ∙ rest)

total_frames_enough : (n : ℕ) → n ≤ 8 * total_frames n
total_frames_enough n = ground arith

-- When every frame is taken and the board sends each one back, the transfer of any file to a board that is
-- ready returns 0.
pub transfer-echo :
    (board_no : ℤ) (file : List ℕ) (l : Link)
    → (l1 : Link) × (transfer takes_all echo board_no file l ≡ (pos 0, l1))
unfolding send_end
transfer-echo board_no file l =
    let (l1, sent) =
      send_chunks-echo (total_frames (length file)) file l (total_frames_enough (length file)) in
    (
      record l1 { frames = l1.frames ++ frame_of 0x10 (end_bytes board_no) ∷ [] },
      transfer_done takes_all echo board_no 0 file l l1 sent
          ∙ write_link_taken 0x10 (end_bytes board_no) l1 (omega arith),
    )
