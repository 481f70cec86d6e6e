-- ===== src/Download/Acknowledged.antt =====
-- devices/canbus/AgvDownloadBin.cpp: the frames that one piece of a file is written in.
use Prim.Native.Nat.{bit_and, bit_or}
use native.Mathlib.Nat.{zero-add, suc-add}
use hxdl_driving_control.Prelude.{
  ℕ, zero, suc, ◌+◌, ◌-◌, ◌<◌, ◌≡◌, ◌≢◌, refl, sym, ap, ◌∙◌, ◌⊎◌, inl, inr, List, [], ◌∷◌, ◌++◌,
  append_assoc, append-nil, replicate, arith, leb, Bool-cases,
}
use hxdl_driving_control.Prelude.Int.{ℤ, pos, negsuc}
use hxdl_driving_control.Wire.{byte_of}
use hxdl_driving_control.Can.{can_eff_mask}
use hxdl_driving_control.Can.Sending.{CanFrame, SystemWrite, write, can_eff_flag}
use hxdl_driving_control.Download.{
  Reading, not_ready, broken, got, Link, Board, starts_with, padded, total_frames, write_link,
  resend, ack_check, send_chunk,
}

-- The frame that carries some bytes under an identifier.
abbrev pub frame_of : ℕ → List ℕ → CanFrame
frame_of can_id payload = record {
  can_id = bit_or (bit_and can_id can_eff_mask) can_eff_flag;
  payload = payload;
}

-- The frames of the pieces sent, each with the times that it was written again.
abbrev pub image : List (List ℕ × ℕ) → List CanFrame
image [] = []
image ((chunk, k) ∷ sent) = replicate (suc k) (frame_of 0x11 chunk) ++ image sent

abbrev pub carried : List (List ℕ × ℕ) → List ℕ
carried [] = []
carried ((chunk, k) ∷ sent) = chunk ++ carried sent

-- Some copies of a frame were added.
abbrev pub Grows : CanFrame → List CanFrame → List CanFrame → Type 0
Grows frame before after = (k : ℕ) × (after ≡ before ++ replicate k frame)

replicate-append :
    (j k : ℕ) (frame : CanFrame) → replicate (j + k) frame ≡ replicate j frame ++ replicate k frame
replicate-append zero k frame = rw zero-add
replicate-append (suc j) k frame = rw suc-add (ap (λ l. frame ∷ l) (replicate-append j k frame))

Grows-Grows :
    (frame : CanFrame) (a b c : List CanFrame) → Grows frame a b → Grows frame b c → Grows frame a c
Grows-Grows frame a b c (j, e) (k, f) = (
  j + k,
  f
      ∙ ap (λ l. l ++ replicate k frame) e
      ∙ append_assoc a (replicate j frame) (replicate k frame)
      ∙ ap (λ l. a ++ l) (sym (replicate-append j k frame)),
)

Reading-cases :
    (r : Reading) → (r ≡ not_ready) ⊎ ((r ≡ broken) ⊎ ((bytes : List ℕ) × (r ≡ got bytes)))
Reading-cases not_ready = inl refl
Reading-cases broken = inr (inl refl)
Reading-cases (got bytes) = inr (inr (bytes, refl))

pub negsuc-ne-pos : (m n : ℕ) → negsuc m ≢ pos n
negsuc-ne-pos m n e = cc

pub ℤ-cases : (i : ℤ) → ((n : ℕ) × (i ≡ pos n)) ⊎ ((n : ℕ) × (i ≡ negsuc n))
ℤ-cases (pos n) = inl (n, refl)
ℤ-cases (negsuc n) = inr (n, refl)

abbrev pub end_bytes : ℤ → List ℕ
end_bytes board_no = 0xEE ∷ 0xEE ∷ byte_of board_no ∷ 0x00 ∷ 0x00 ∷ 0x01 ∷ []

pub total_frames_some : (n : ℕ) → 0 < n → (r : ℕ) × (total_frames n ≡ suc r)
total_frames_some n h = (total_frames n - 1, ground arith)

module _ (fails : SystemWrite) (board : Board) where
  -- A frame was written, or not.
  pub write_link-cases :
      (can_id : ℕ) (payload : List ℕ) (l : Link)
      → ((write_link fails board can_id payload l)
          ≡ (pos 0, record l { frames = l.frames ++ frame_of can_id payload ∷ [] }))
        ⊎ ((write_link fails board can_id payload l) ≡ (negsuc 0, l))
  unfolding write_link write
  write_link-cases can_id payload l = ground arith

  resend-Grows :
      (payload : List ℕ) (i : ℕ) (l : Link)
      → Grows (frame_of 0x11 payload) l.frames (resend fails board payload i l).1.frames
  unfolding resend
  resend-Grows payload i l = elim (Bool-cases (leb 100 i)) [
    | inr later ↦ (0, rw (later, resend) (sym (append-nil l.frames)))
    | inl now ↦ elim (write_link-cases 0x11 payload l) [
      | inl written ↦ (1, rw (now, resend, written) refl)
      | inr refused ↦ (0, rw (now, resend, refused) (sym (append-nil l.frames)))
    ]
  ]

  ack_check-Grows :
      (r i : ℕ) (payload : List ℕ) (l : Link)
      → Grows (frame_of 0x11 payload) l.frames (ack_check fails board r i payload l).1.frames
  unfolding ack_check
  ack_check-Grows zero i payload l = (0, sym (append-nil l.frames))
  ack_check-Grows (suc r) i payload l =
      let l1 = record l { reads = l.reads + 1 } in
      elim (Reading-cases (board l.frames l.reads)) [
        | inr (inl bad) ↦ (0, rw (bad, ack_check) (sym (append-nil l.frames)))
        | inr (inr (bytes, answer)) ↦ elim (Bool-cases (starts_with bytes (padded payload))) [
          | inl same ↦ (0, rw (answer, ack_check, same) (sym (append-nil l.frames)))
          | inr other ↦ (0, rw (answer, ack_check, other) (sym (append-nil l.frames)))
        ]
        | inl none_yet ↦
            let again = resend fails board payload (i + 1) l1 in
            let (k, more) =
              Grows-Grows (frame_of 0x11 payload) l.frames again.1.frames
                (ack_check fails board r again.0 payload again.1).1.frames
                (resend-Grows payload (i + 1) l1) (ack_check-Grows r again.0 payload again.1) in
            (k, rw (none_yet, ack_check) more)
      ]

  pub send_chunk_written :
      (chunk : List ℕ) (l l1 : Link)
      → write_link fails board 0x11 chunk l ≡ (pos 0, l1)
      → send_chunk fails board chunk l ≡ ack_check fails board 5000 0 chunk l1
  unfolding send_chunk
  send_chunk_written chunk l l1 e = rw (e, send_chunk, e)

  send_chunk_refused :
      (chunk : List ℕ) (l : Link)
      → write_link fails board 0x11 chunk l ≡ (negsuc 0, l)
      → send_chunk fails board chunk l ≡ (negsuc 0, l)
  unfolding send_chunk
  send_chunk_refused chunk l e = rw (e, send_chunk, e)

  pub send_chunk-Grows :
      (chunk : List ℕ) (l : Link) (n : ℕ)
      → (send_chunk fails board chunk l).0 ≡ pos n
      → (k : ℕ) × ((send_chunk fails board chunk l).1.frames
          ≡ l.frames ++ replicate (suc k) (frame_of 0x11 chunk))
  send_chunk-Grows chunk l n e = elim (write_link-cases 0x11 chunk l) [
    | inr refused ↦
        absurd (negsuc-ne-pos 0 n (sym (ap (λ r. r.0) (send_chunk_refused chunk l refused)) ∙ e))
    | inl written ↦
        let l1 = record l { frames = l.frames ++ frame_of 0x11 chunk ∷ [] } in
        let (k, more) = ack_check-Grows 5000 0 chunk l1 in
        (
          k,
          ap (λ r. r.1.frames) (send_chunk_written chunk l l1 written)
              ∙ more
              ∙ append_assoc l.frames (frame_of 0x11 chunk ∷ [])
                  (replicate k (frame_of 0x11 chunk)),
        )
  ]
