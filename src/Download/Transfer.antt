-- ===== src/Download/Transfer.antt =====
-- devices/canbus/AgvDownloadBin.cpp: the frames of a transfer that went through.
use hxdl_driving_control.Prelude.{
  ℕ, zero, suc, ◌<◌, ◌≡◌, refl, sym, ap, ap₂, ◌∙◌, inl, inr, List, [], ◌∷◌, ◌++◌, append_assoc,
  append-nil, replicate, arith, ◌==◌, if◌then◌else◌, length, take, drop, take-append-drop,
}
use hxdl_driving_control.Prelude.Int.{ℤ, pos, negsuc}
use hxdl_driving_control.Can.Sending.{SystemWrite}
use hxdl_driving_control.Download.{
  Link, Board, total_frames, send_chunk, send_chunks, send_end, transfer,
}
use hxdl_driving_control.Download.Acknowledged.{
  frame_of, image, carried, ℤ-cases, negsuc-ne-pos, end_bytes, total_frames_some, write_link-cases,
  send_chunk-Grows,
}

-- The bytes of the next frame.
abbrev pub chunk_of : ℕ → List ℕ → List ℕ
chunk_of r file = if r == 0 then file else take 8 file

module _ (fails : SystemWrite) (board : Board) where
  pub send_chunks_next :
      (r m : ℕ) (file : List ℕ) (l l1 : Link)
      → send_chunk fails board (chunk_of r file) l ≡ (pos m, l1)
      → send_chunks fails board (suc r) file l ≡ send_chunks fails board r (drop 8 file) l1
  unfolding send_chunks
  send_chunks_next r m file l l1 e = rw (e, send_chunks, e)

  send_chunks_failed :
      (r m : ℕ) (file : List ℕ) (l l1 : Link)
      → send_chunk fails board (chunk_of r file) l ≡ (negsuc m, l1)
      → send_chunks fails board (suc r) file l ≡ (negsuc 0, l1)
  unfolding send_chunks
  send_chunks_failed r m file l l1 e = rw (e, send_chunks, e)

  pub send_chunks_over :
      (file : List ℕ) (l : Link) → send_chunks fails board zero file l ≡ (pos 0, l)
  unfolding send_chunks
  send_chunks_over file l = refl

  -- A round that is left well: the frames that it added, and the loop behind it.
  record Sent (r n : ℕ) (file : List ℕ) (l : Link) : Type 0 where
    copies : ℕ
    link : Link
    added : link.frames ≡ l.frames ++ replicate (suc copies) (frame_of 0x11 (chunk_of r file))
    next : send_chunks fails board (suc r) file l ≡ send_chunks fails board r (drop 8 file) link

  round-Sent :
      (r n : ℕ) (file : List ℕ) (l : Link)
      → (send_chunks fails board (suc r) file l).0 ≡ pos n
      → Sent r n file l
  round-Sent r n file l e =
      let chunk = chunk_of r file in
      let l1 = (send_chunk fails board chunk l).1 in
      elim (ℤ-cases (send_chunk fails board chunk l).0) [
        | inr (m, bad) ↦
            let out = send_chunks_failed r m file l l1 (ap (λ k. (k, l1)) bad) in
            absurd (negsuc-ne-pos 0 n (sym (ap (λ o. o.0) out) ∙ e))
        | inl (m, fine) ↦
            let (k, more) = send_chunk-Grows fails board chunk l m fine in
            record {
              copies = k;
              link = l1;
              added = more;
              next = send_chunks_next r m file l l1 (ap (λ k. (k, l1)) fine);
            }
      ]

  send_chunks-image :
      (r n : ℕ) (file : List ℕ) (l : Link)
      → (send_chunks fails board (suc r) file l).0 ≡ pos n
      → (sent : List (List ℕ × ℕ)) × ((send_chunks fails board (suc r) file l).1.frames
          ≡ l.frames ++ image sent)
        × (carried sent ≡ file)
  send_chunks-image zero n file l e =
      let s = round-Sent zero n file l e in
      (
        (file, s.copies) ∷ [],
        ap (λ o. o.1.frames) (s.next ∙ send_chunks_over (drop 8 file) s.link)
            ∙ s.added
            ∙ ap (λ f. l.frames ++ f)
                (sym (append-nil (replicate (suc s.copies) (frame_of 0x11 file)))),
        append-nil file,
      )
  send_chunks-image (suc r) n file l e =
      let s = round-Sent (suc r) n file l e in
      let chunk = chunk_of (suc r) file in
      let part : chunk ≡ take 8 file = ground arith in
      let frame = frame_of 0x11 chunk in
      let (sent, more, whole) =
        send_chunks-image r n (drop 8 file) s.link (sym (ap (λ o. o.0) s.next) ∙ e) in
      (
        (chunk, s.copies) ∷ sent,
        ap (λ o. o.1.frames) s.next
            ∙ more
            ∙ ap (λ f. f ++ image sent) s.added
            ∙ append_assoc l.frames (replicate (suc s.copies) frame) (image sent),
        ap₂ (λ a b. a ++ b) part whole ∙ take-append-drop 8 file,
      )

  pub transfer_done :
      (board_no : ℤ) (m : ℕ) (file : List ℕ) (l l1 : Link)
      → send_chunks fails board (total_frames (length file)) file l ≡ (pos m, l1)
      → transfer fails board board_no file l ≡ send_end fails board board_no l1
  unfolding transfer
  transfer_done board_no m file l l1 e = rw (e, transfer, e)

  transfer_ended :
      (board_no : ℤ) (n : ℕ) (file : List ℕ) (l : Link)
      → (transfer fails board board_no file l).0 ≡ pos n
      → (m : ℕ) × ((send_chunks fails board (total_frames (length file)) file l).0 ≡ pos m)
        × (transfer fails board board_no file l
            ≡ send_end fails board board_no
                (send_chunks fails board (total_frames (length file)) file l).1)
  unfolding transfer
  transfer_ended board_no n file l e =
      elim (ℤ-cases (send_chunks fails board (total_frames (length file)) file l).0) [
        | inr (m, bad) ↦ absurd (negsuc-ne-pos 0 n (rw (bad, transfer) at e))
        | inl (m, fine) ↦ (m, fine, rw (fine, transfer))
      ]

  send_end-frames :
      (board_no : ℤ) (n : ℕ) (l : Link)
      → (send_end fails board board_no l).0 ≡ pos n
      → (send_end fails board board_no l).1.frames
        ≡ l.frames ++ frame_of 0x10 (end_bytes board_no) ∷ []
  unfolding send_end
  send_end-frames board_no n l e = elim (write_link-cases fails board 0x10 (end_bytes board_no) l) [
    | inl written ↦ ap (λ o. o.1.frames) written
    | inr refused ↦ absurd (negsuc-ne-pos 0 n (sym (ap (λ o. o.0) refused) ∙ e))
  ]

  -- If the transfer of a file that is not empty to a board that is ready returns 0, the frames written are
  -- pieces that put together are the file, each of them written once or several times in a row, and then
  -- the frame that ends the transfer.
  pub transfer-image :
      (board_no : ℤ) (n : ℕ) (file : List ℕ) (l : Link)
      → 0 < length file
      → (transfer fails board board_no file l).0 ≡ pos n
      → (sent : List (List ℕ × ℕ)) × ((transfer fails board board_no file l).1.frames
          ≡ l.frames ++ (image sent ++ frame_of 0x10 (end_bytes board_no) ∷ []))
        × (carried sent ≡ file)
  transfer-image board_no n file l some_bytes e =
      let (r, frames) = total_frames_some (length file) some_bytes in
      let (m, fine, ended) = transfer_ended board_no n file l e in
      let done = send_chunks fails board (total_frames (length file)) file l in
      let (sent, more, whole) =
        send_chunks-image r m file l
          (ap (λ k. (send_chunks fails board k file l).0) (sym frames) ∙ fine) in
      let all : done.1.frames ≡ l.frames ++ image sent =
        ap (λ k. (send_chunks fails board k file l).1.frames) frames ∙ more in
      (
        sent,
        ap (λ o. o.1.frames) ended
            ∙ send_end-frames board_no n done.1 (sym (ap (λ o. o.0) ended) ∙ e)
            ∙ ap (λ f. f ++ frame_of 0x10 (end_bytes board_no) ∷ []) all
            ∙ append_assoc l.frames (image sent) (frame_of 0x10 (end_bytes board_no) ∷ []),
        whole,
      )
