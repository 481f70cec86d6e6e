-- ===== src/Protocol/RoundTrip.antt =====
-- comm/AgvSchProtocol.cpp: UnPackData on a frame of PackData, and on a broken one.
use mathlib.Core.List.{append_assoc}
use hxdl_driving_control.Prelude.{
  ℕ, ◌+◌, ◌-◌, ◌≤◌, ◌<◌, ◌≡◌, refl, Option-cases, sym, ap, ◌∙◌, List, [], ◌∷◌, ◌++◌, none, some,
  arith, false, ltb, length, length-append, take, drop, take_at, drop_at, if◌then◌else◌, inl, inr,
}
use hxdl_driving_control.Prelude.Int.{pos}
use hxdl_driving_control.Wire.{memcpy, ◌>>=◌}
use hxdl_driving_control.Wire.Sections.{length-memcpy}
use hxdl_driving_control.CheckSum.{get_crc16}
use hxdl_driving_control.Protocol.{
  Protocol, external, internal, zero_buffer, decode, encode, check_protocol, pack_data, read_frame,
  unpack_data, Reply, new_cmd,
}
use hxdl_driving_control.Protocol.Stuffing.{flag, decode-encode, encode-lacks_flag, length-encode}
use hxdl_driving_control.Protocol.Scan.{Lacks, check_protocol_flags, scan-frame}
use hxdl_driving_control.Protocol.Fields.{
  payload, frame_buffer, frame_stored, deref_payload, read_frame_lem, read_frame_bad,
}
use hxdl_driving_control.Protocol.Layout.{
  covered, contents, length-contents, length-zero_buffer, pack_data_lem,
}

module _ (p : Protocol) (ph : p.head ≡ flag) (pt : p.tail ≡ flag) where
  -- A buffer with a frame is handed to `decode` between the frame's flags.
  unpack_data-frame :
      (noise body rest : List ℕ) (left : ℕ)
      → Lacks noise
      → Lacks body
      → 8 ≤ length body
      → unpack_data p (noise ++ flag ∷ (body ++ flag ∷ rest)) left ≡ (
          memcpy zero_buffer 0 (decode body).0 >>= λ buf.
          read_frame p (decode body) buf (length rest))
  unfolding unpack_data
  unpack_data-frame noise body rest left ln lb k =
      let whole = noise ++ flag ∷ (body ++ flag ∷ rest) in
      let s = length noise in
      let e = s + 1 + length body in
      let size : length whole ≡ e + 1 + length rest = omega (
        arith,
        length-append noise (flag ∷ (body ++ flag ∷ rest)),
        length-append body (flag ∷ rest),
      ) in
      let found : check_protocol p whole ≡ some (s, e) =
        check_protocol_flags p whole ph pt
        ∙ ground (arith, size, scan-frame noise body rest s e ln lb refl refl k) in
      let inner : take (e - s - 1) (drop (s + 1) whole) ≡ body =
        ap (λ k. take k (drop (s + 1) whole)) (omega arith)
        ∙ ap (λ b. take (length body) (drop (s + 1) b))
            (sym (append_assoc noise (flag ∷ []) (body ++ flag ∷ rest)))
        ∙ ap (take (length body)) (
            drop_at (s + 1) (noise ++ flag ∷ []) (body ++ flag ∷ rest)
              (omega (arith, length-append noise (flag ∷ []))))
        ∙ take_at (length body) body (flag ∷ rest) refl in
      let after : length whole - e - 1 ≡ length rest = omega arith in
      rw (found, unpack_data, inner, after) refl

  -- If the bytes of the first frame of a packet, between its flags, are bytes that `decode` refuses,
  -- `UnPackData` of an object with the two flags is a fault: it reads outside of its buffer.
  pub unpack_data-decode_failed :
      (noise body rest : List ℕ) (left : ℕ)
      → Lacks noise
      → Lacks body
      → 8 ≤ length body
      → (decode body).1 ≡ false
      → unpack_data p (noise ++ flag ∷ (body ++ flag ∷ rest)) left ≡ none
  unpack_data-decode_failed noise body rest left ln lb k bad =
      unpack_data-frame noise body rest left ln lb k
      ∙ elim (Option-cases (memcpy zero_buffer 0 (decode body).0)) [
        | inl full ↦ rw full
        | inr (buf, stored) ↦ rw stored (
            read_frame_bad p (decode body) buf (length rest) bad
              (length-memcpy zero_buffer (decode body).0 buf 0 stored ∙ length-zero_buffer))
      ]

  -- A frame of known fields is read back.
  pub unpack_data-contents :
      (len crc type cmd : ℕ) (bytes noise rest : List ℕ)
      → Lacks noise
      → len < 65536
      → crc < 65536
      → type < 65536
      → cmd < 65536
      → length bytes ≤ 2040
      → len ≡ length bytes + 6
      → get_crc16 (covered type cmd bytes) (length (covered type cmd bytes)) 0 ≡ some crc
      → (r : Reply) × ((left : ℕ)
          → unpack_data p
              (noise ++ flag ∷ (encode flag (contents len crc type cmd bytes) ++ flag ∷ rest))
              left
            ≡ some r)
        × (r.ret ≡ pos (length bytes + 10))
        × (r.left ≡ length rest)
        × (r.state.type ≡ type)
        × (r.state.cmd ≡ cmd)
        × (r.state.data_length ≡ length bytes)
        × (payload r.state ≡ some bytes)
        × (r.state.head ≡ flag)
        × (r.state.tail ≡ flag)
  unpack_data-contents len crc type cmd bytes noise rest ln hl hc ht hm room n h =
      let body = contents len crc type cmd bytes in
      let free = drop (length body) zero_buffer in
      let decoded = decode-encode body in
      let stored : memcpy zero_buffer 0 body ≡ some (frame_buffer len crc type cmd bytes free) =
        frame_stored len crc type cmd bytes room in
      let long : 8 ≤ length (encode flag body) =
        omega (arith, length-encode body, length-contents len crc type cmd bytes) in
      (
        record {
          state = record p {
            length_ = len;
            check_sum = crc;
            buffer = frame_buffer len crc type cmd bytes free;
            type = type;
            cmd = cmd;
            data_length = length bytes;
            data_ptr = if ltb 0 (length bytes) then internal 8 else p.data_ptr;
          };
          ret = pos (length bytes + 10);
          left = length rest;
        },
        λ left.
            unpack_data-frame noise (encode flag body) rest left ln (encode-lacks_flag body) long
            ∙ rw (decoded, stored)
                (read_frame_lem len crc type cmd bytes free p (length rest) hl hc ht hm room n h),
        refl,
        refl,
        refl,
        refl,
        refl,
        deref_payload len crc type cmd bytes free (length bytes) p.data_ptr refl,
        ph,
        pt,
      )

-- Round trip. An object built for a command packs its payload into one frame; another object finds
-- that frame behind any bytes without a flag and reads the same type, command, payload and length of it,
-- and the bytes behind the frame are reported as left, whatever `left` was. The receiver has the two flags and keeps them;
-- the command fits an unsigned short, and the payload has at most 2040 bytes.
pub unpack_data-pack_data :
    (cmd : ℕ) (bytes more noise rest : List ℕ) (p : Protocol)
    → cmd < 65536
    → length bytes ≤ 2040
    → Lacks noise
    → p.head ≡ flag
    → p.tail ≡ flag
    → (q : Protocol) × (frame : List ℕ) × (r : Reply) × (pack_data
          (new_cmd cmd (external (bytes ++ more)) (length bytes))
        ≡ some (q, frame))
      × ((left : ℕ) → unpack_data p (noise ++ (frame ++ rest)) left ≡ some r)
      × (r.ret ≡ pos (length bytes + 10))
      × (r.left ≡ length rest)
      × (r.state.type ≡ 1)
      × (r.state.cmd ≡ cmd)
      × (r.state.data_length ≡ length bytes)
      × (payload r.state ≡ some bytes)
      × (r.state.head ≡ flag)
      × (r.state.tail ≡ flag)
unfolding new_cmd
unpack_data-pack_data cmd bytes more noise rest p hm room ln ph pt =
    let sender = new_cmd cmd (external (bytes ++ more)) (length bytes) in
    let (crc, q, packed, summed, hc) =
      pack_data_lem (length bytes + 6) 1 cmd bytes room sender (inr (more, refl)) (omega arith) refl
        (omega arith) refl in
    let (r, read, ret, l, type, same, n, bytes', h, t) =
      unpack_data-contents p ph pt (length bytes + 6) crc 1 cmd bytes noise rest ln (omega arith) hc
        (omega arith) hm room refl summed in
    (
      q,
      _,
      r,
      packed,
      λ left.
          ap (λ b. unpack_data p (noise ++ flag ∷ b) left)
            (append_assoc (encode flag (contents (length bytes + 6) crc 1 cmd bytes)) (flag ∷ [])
              rest)
          ∙ read left,
      ret,
      l,
      type,
      same,
      n,
      bytes',
      h,
      t,
    )
