-- ===== src/Protocol/Fields.antt =====
-- `UnPackData` once the frame is found: the fields that it reads from its buffer.
use mathlib.Core.List.{append_assoc}
use hxdl_driving_control.Prelude.{
  ℕ, zero, suc, eq_nil, ◌+◌, ◌-◌, ◌≤◌, ◌<◌, ◌≡◌, refl, sym, ap, ap₂, ◌∙◌, List, [], ◌++◌, Option,
  none, some, arith, true, false, Option-cases, ltb, length, length-append, length-drop, take, drop,
  take_at, drop_at, if◌then◌else◌, inl, inr, ◌==◌,
}
use hxdl_driving_control.Prelude.Int.{pos}
use hxdl_driving_control.Wire.{bin2buffer, memcpy, ◌>>=◌, u16, unpack_section}
use hxdl_driving_control.Wire.RoundTrip.{length-bin2buffer}
use hxdl_driving_control.Wire.Sections.{memcpy-append, unpack_section-stored}
use hxdl_driving_control.CheckSum.{get_crc16}
use hxdl_driving_control.CheckSum.Laws.{get_crc16-append, get_crc16-none}
use hxdl_driving_control.Protocol.{
  Decoded, Protocol, Pointer, internal, zero_buffer, deref, crc_length, read_frame,
}
use hxdl_driving_control.Protocol.Layout.{
  covered, contents, length-covered, length-contents, length-zero_buffer,
}

-- The bytes of the payload, as a reader of `data` and `dataLength` finds them.
abbrev pub payload : Protocol → Option (List ℕ)
payload p =
    if p.data_length == 0
    then some []
    else deref p.buffer p.data_ptr >>= λ bytes. some (take p.data_length bytes)

module _ (len crc type cmd : ℕ) (bytes rest : List ℕ) where
  pub frame_buffer : List ℕ
  frame_buffer = contents len crc type cmd bytes ++ rest

  read_length : len < 65536 → unpack_section 2 frame_buffer 0 ≡ some len
  unfolding frame_buffer
  read_length h =
      ap (λ b. unpack_section 2 b 0)
        (append_assoc (bin2buffer len 2) (bin2buffer crc 2 ++ covered type cmd bytes) rest)
      ∙ unpack_section-stored [] _ 2 len 0 refl (omega arith) (omega arith) h

  read_sum : crc < 65536 → unpack_section 2 frame_buffer 2 ≡ some crc
  unfolding frame_buffer
  read_sum h =
      let e : frame_buffer
          ≡ bin2buffer len 2 ++ (bin2buffer crc 2 ++ (covered type cmd bytes ++ rest)) =
        simp append_assoc in
      ap (λ b. unpack_section 2 b 2) e
      ∙ unpack_section-stored (bin2buffer len 2) _ 2 crc 2 (length-bin2buffer len 2) (omega arith)
          (omega arith) h

  four : length (bin2buffer len 2 ++ bin2buffer crc 2) ≡ 4
  four = omega (
    arith,
    length-append (bin2buffer len 2) (bin2buffer crc 2),
    length-bin2buffer len 2,
    length-bin2buffer crc 2,
  )

  read_type : type < 65536 → unpack_section 2 frame_buffer 4 ≡ some type
  unfolding frame_buffer
  read_type h =
      let e : frame_buffer
          ≡ (bin2buffer len 2 ++ bin2buffer crc 2)
            ++ (bin2buffer type 2 ++ (bin2buffer cmd 2 ++ (bytes ++ rest))) =
        simp append_assoc in
      ap (λ b. unpack_section 2 b 4) e
      ∙ unpack_section-stored (bin2buffer len 2 ++ bin2buffer crc 2) _ 2 type 4 four (omega arith)
          (omega arith) h

  six : length ((bin2buffer len 2 ++ bin2buffer crc 2) ++ bin2buffer type 2) ≡ 6
  six = omega (
    arith,
    length-append (bin2buffer len 2 ++ bin2buffer crc 2) (bin2buffer type 2),
    four,
    length-bin2buffer type 2,
  )

  read_cmd : cmd < 65536 → unpack_section 2 frame_buffer 6 ≡ some cmd
  unfolding frame_buffer
  read_cmd h =
      let e : frame_buffer
          ≡ ((bin2buffer len 2 ++ bin2buffer crc 2) ++ bin2buffer type 2)
            ++ (bin2buffer cmd 2 ++ (bytes ++ rest)) =
        simp append_assoc in
      ap (λ b. unpack_section 2 b 6) e
      ∙ unpack_section-stored ((bin2buffer len 2 ++ bin2buffer crc 2) ++ bin2buffer type 2) _ 2 cmd
          6 six (omega arith) (omega arith) h

  read_covered : drop 4 frame_buffer ≡ covered type cmd bytes ++ rest
  unfolding frame_buffer
  read_covered =
      let e : frame_buffer
          ≡ (bin2buffer len 2 ++ bin2buffer crc 2) ++ (covered type cmd bytes ++ rest) =
        simp append_assoc in
      ap (drop 4) e
      ∙ drop_at 4 (bin2buffer len 2 ++ bin2buffer crc 2) (covered type cmd bytes ++ rest) four

  pub read_payload : drop 8 frame_buffer ≡ bytes ++ rest
  unfolding frame_buffer
  read_payload =
      let e : frame_buffer
          ≡ (((bin2buffer len 2 ++ bin2buffer crc 2) ++ bin2buffer type 2) ++ bin2buffer cmd 2)
            ++ (bytes ++ rest) =
        simp append_assoc in
      ap (drop 8) e
      ∙ drop_at 8
          (((bin2buffer len 2 ++ bin2buffer crc 2) ++ bin2buffer type 2) ++ bin2buffer cmd 2)
          (bytes ++ rest)
          (omega (
            arith,
            six,
            length-append ((bin2buffer len 2 ++ bin2buffer crc 2) ++ bin2buffer type 2)
                (bin2buffer cmd 2),
            length-bin2buffer cmd 2,
          ))

  pub deref_payload :
      (n : ℕ) (q : Pointer)
      → length bytes ≡ n
      → (if n == 0
          then some []
          else deref frame_buffer (if ltb 0 n then internal 8 else q) >>= λ found.
              some (take n found))
        ≡ some bytes
  unfolding deref
  deref_payload zero q e = ap some (sym (eq_nil bytes e))
  deref_payload (suc n) q e = ground (arith, read_payload, take_at (suc n) bytes rest e)

  -- The object after a frame with the sum that its bytes have.
  pub read_frame_lem :
      (p : Protocol) (left : ℕ)
      → len < 65536
      → crc < 65536
      → type < 65536
      → cmd < 65536
      → length bytes ≤ 2040
      → len ≡ length bytes + 6
      → get_crc16 (covered type cmd bytes) (length (covered type cmd bytes)) 0 ≡ some crc
      → read_frame p (contents len crc type cmd bytes, true) frame_buffer left
        ≡ some (record {
          state = record p {
            length_ = len;
            check_sum = crc;
            buffer = frame_buffer;
            type = type;
            cmd = cmd;
            data_length = length bytes;
            data_ptr = if ltb 0 (length bytes) then internal 8 else p.data_ptr;
          };
          ret = pos (length bytes + 10);
          left = left;
        })
  unfolding read_frame
  read_frame_lem p left hl hc ht hm room n h =
      let summed : get_crc16 (drop 4 frame_buffer)
            (crc_length (contents len crc type cmd bytes, true)) 0
          ≡ some crc =
        ap₂ (λ b k. get_crc16 b k 0) read_covered
          (omega (arith, length-covered type cmd bytes, length-contents len crc type cmd bytes))
        ∙ get_crc16-append (covered type cmd bytes) rest 0
            (omega (arith, length-covered type cmd bytes))
        ∙ h in
      let small : u16 (len + 65536 - 6) ≡ length bytes = omega arith in
      rw (read_length hl, read_sum hc, summed, read_type ht, read_cmd hm, small)
        (ground (arith, length-contents len crc type cmd bytes))

-- After a failed decode the sum is taken over more bytes than the buffer has.
pub read_frame_bad :
    (p : Protocol) (decoded : Decoded) (buf : List ℕ) (left : ℕ)
    → decoded.1 ≡ false
    → length buf ≡ 2048
    → read_frame p decoded buf left ≡ none
unfolding read_frame
read_frame_bad p (des, true) buf left bad e = cc
read_frame_bad p (des, false) buf left bad e = elim (Option-cases (unpack_section 2 buf 0)) [
  | inl no_length ↦ rw no_length
  | inr (len, has_length) ↦ elim (Option-cases (unpack_section 2 buf 2)) [
    | inl no_sum ↦ rw (has_length, no_sum)
    | inr (sum, has_sum) ↦ rw (
      has_length,
      has_sum,
      get_crc16-none (drop 4 buf) 65531 0 (omega arith) (omega (arith, length-drop 4 buf)),
    )
  ]
]

pub frame_stored :
    (len crc type cmd : ℕ) (bytes : List ℕ)
    → length bytes ≤ 2040
    → let body = contents len crc type cmd bytes in
      memcpy zero_buffer 0 body
      ≡ some (frame_buffer len crc type cmd bytes (drop (length body) zero_buffer))
unfolding frame_buffer
frame_stored len crc type cmd bytes h =
    memcpy-append [] zero_buffer (contents len crc type cmd bytes) 0 refl
      (omega (arith, length-contents len crc type cmd bytes, length-zero_buffer))
