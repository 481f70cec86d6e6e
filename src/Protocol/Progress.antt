-- ===== src/Protocol/Progress.antt =====
-- comm/AgvSchProtocol.cpp: the results that UnPackData can have.
use mathlib.Core.List.{append_assoc}
use hxdl_driving_control.Prelude.{
  ℕ, ◌+◌, ◌-◌, ◌≤◌, ◌≡◌, ◌≢◌, refl, sym, ap, ◌∙◌, ◌⊎◌, inl, inr, List, [], ◌∷◌, ◌++◌, none, some,
  arith, length, length-append, drop, take, take_at, drop_at, Option-cases,
}
use hxdl_driving_control.Prelude.Int.{negsuc}
use hxdl_driving_control.Wire.{memcpy, unpack_section}
use hxdl_driving_control.CheckSum.{get_crc16}
use hxdl_driving_control.Protocol.{
  Protocol, Decoded, zero_buffer, decode, check_protocol, crc_length, decoded_length, read_frame,
  unpack_data, Reply,
}
use hxdl_driving_control.Protocol.Stuffing.{flag}
use hxdl_driving_control.Protocol.Scan.{IsFrame, check_protocol-IsFrame}

-- The header was read from the decoded bytes `buf`: the sum is its field, which stands behind the length.
-- It either differs from the check sum of the bytes behind it, or is that.
pub record Outcome (p : Protocol) (d : Decoded) (buf : List ℕ) (r : Reply) : Type 0 where
  pub head_kept : r.state.head ≡ p.head
  pub tail_kept : r.state.tail ≡ p.tail
  pub buffered : r.state.buffer ≡ buf
  pub sum_field : unpack_section 2 buf 2 ≡ some r.state.check_sum
  pub summed :
      ((r.ret ≡ negsuc 1) × (get_crc16 (drop 4 buf) (crc_length d) 0 ≢ some r.state.check_sum))
      ⊎ ((r.ret ≡ decoded_length d)
          × (get_crc16 (drop 4 buf) (crc_length d) 0 ≡ some r.state.check_sum))

read_frame-Outcome :
    (p : Protocol) (d : Decoded) (buf : List ℕ) (left : ℕ) (r : Reply)
    → read_frame p d buf left ≡ some r
    → Outcome p d buf r × (r.left ≡ left)
unfolding read_frame
read_frame-Outcome p d buf left r e = (
  record {
    head_kept = ground arith;
    tail_kept = ground arith;
    buffered = ground arith;
    sum_field = ground arith;
    summed = ground arith;
  },
  ground arith,
)

-- A frame takes at least ten bytes.
pub length-IsFrame :
    (buf : List ℕ) (s e : ℕ) (f : IsFrame buf s e) → length f.after + 10 ≤ length buf
length-IsFrame buf s e f = omega (
  arith,
  ap length f.parts,
  f.long,
  length-append f.before (flag ∷ (f.body ++ flag ∷ f.after)),
  length-append f.body (flag ∷ f.after),
)

-- What is cut out between the flags is the body, and what is left is behind it.
frame_parts :
    (buf : List ℕ) (s e : ℕ) (f : IsFrame buf s e)
    → (take (e - s - 1) (drop (s + 1) buf) ≡ f.body) × (length buf - e - 1 ≡ length f.after)
frame_parts buf s e f =
    let front = f.before ++ flag ∷ [] in
    let split : buf ≡ front ++ (f.body ++ flag ∷ f.after) =
      f.parts ∙ sym (append_assoc f.before (flag ∷ []) (f.body ++ flag ∷ f.after)) in
    let size : length front ≡ s + 1 = omega (arith, length-append f.before (flag ∷ []), f.starts) in
    (
      ap (take (e - s - 1)) (ap (drop (s + 1)) split ∙ drop_at (s + 1) front _ size)
          ∙ take_at (e - s - 1) f.body _ (omega (arith, f.starts, f.ends)),
      omega (
        arith,
        f.starts,
        f.ends,
        ap length f.parts,
        length-append f.before (flag ∷ (f.body ++ flag ∷ f.after)),
        length-append f.body (flag ∷ f.after),
      ),
    )

module _ (p : Protocol) (ph : p.head ≡ flag) (pt : p.tail ≡ flag) where
  pub unpack_data-Outcome :
      (buf : List ℕ) (left : ℕ) (r : Reply)
      → unpack_data p buf left ≡ some r
      → (r ≡ record { state = p; ret = negsuc 0; left = left })
        ⊎ ((s e : ℕ) × (f : IsFrame buf s e) × (stored : List ℕ) × (memcpy zero_buffer 0
                (decode f.body).0
              ≡ some stored)
            × Outcome p (decode f.body) stored r
            × (r.left ≡ length f.after))
  unfolding unpack_data
  unpack_data-Outcome buf left r h = elim (Option-cases (check_protocol p buf)) [
    | inl missing ↦ inl (ground (arith, missing))
    | inr ((s, e), found) ↦
        let f = check_protocol-IsFrame p buf s e ph pt found in
        let (body_is, rest) = frame_parts buf s e f in
        elim (Option-cases (memcpy zero_buffer 0 (decode f.body).0)) [
          | inl full ↦
              let gone : unpack_data p buf left ≡ none = rw (found, unpack_data, body_is, full) in
              cc
          | inr (stored, fits) ↦
              let read : read_frame p (decode f.body) stored (length buf - e - 1) ≡ some r =
                sym (rw (found, unpack_data, body_is, fits) refl) ∙ h in
              let (outcome, l) = read_frame-Outcome p (decode f.body) stored _ r read in
              inr (s, e, f, stored, fits, outcome, l ∙ rest)
        ]
  ]
