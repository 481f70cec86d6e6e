-- ===== src/Messages/Reports/Laws.antt =====
-- comm/AgvSchProtocol.cpp: the vehicle's messages, read as the server reads them.
use hxdl_driving_control.Prelude.{
  ℕ, ◌+◌, ◌≤◌, ◌<◌, ◌≡◌, refl, ap, ◌∙◌, List, [], ◌∷◌, ◌++◌, none, some, ◌⊎◌, inl, inr, Bool-cases,
  arith, length, length-take, drop, take, ltb,
}
use hxdl_driving_control.Prelude.Int.{pos}
use hxdl_driving_control.Wire.{Section, value, bin2buffer, pack_sections, memcpy}
use hxdl_driving_control.Wire.Sections.{
  image, length-image, drop-image, size, pack_sections-image, unpack_section-stored, memcpy-some,
}
use hxdl_driving_control.Wire.Fields.{read_fields, sizes, values, Fit, read_fields-image}
use hxdl_driving_control.Messages.Reports.{
  Packed, fill, HeartBeat, heart_beat_pack, heart_beat_unpack, ReportStatus, report_status_pack,
  report_status_sections, RequestPath, request_path_pack, AckToServer, ack_to_server_pack,
  ack_to_server_sections, ack_to_server_fill, copy_extra,
}

-- A message of `n` bytes is in the array: its fields are read back, and the array keeps its length.
pub record Holds (r : Packed) (n : ℕ) (buf sizes' fields : List ℕ) : Type 0 where
  pub out : List ℕ
  pub done : r ≡ some (pos n, some out)
  pub kept : length out ≡ length buf
  pub read : read_fields sizes' out 0 ≡ some fields
  pub behind : drop n out ≡ drop n buf

fill_lem :
    (sections : List Section) (buf : List ℕ) (n : ℕ)
    → size sections ≡ n
    → n ≤ length buf
    → fill sections (some buf) ≡ some (pos n, some (image sections buf))
unfolding fill
fill_lem sections buf n e h =
    rw (pack_sections-image sections [] buf 0 refl (omega arith))
      (ap (λ k. some (pos k, some (image sections buf))) (omega arith))

fill-Holds :
    (sections : List Section) (buf : List ℕ) (n : ℕ) (r : Packed)
    → r ≡ fill sections (some buf)
    → size sections ≡ n
    → n ≤ length buf
    → Fit sections
    → Holds r n buf (sizes sections) (values sections)
fill-Holds sections buf n r q e h f = record {
  out = image sections buf;
  done = q ∙ fill_lem sections buf n e h;
  kept = length-image sections buf (omega arith);
  read = read_fields-image sections buf f;
  behind = rw (← e) (drop-image sections buf (omega arith));
}

-- A heart beat's identifier is read back from what was packed, by the same class.
heart_beat_unpack-pack :
    (m : HeartBeat) (buf : List ℕ) (maxlen : ℕ)
    → m.id < 65536
    → 2 ≤ maxlen
    → maxlen ≤ length buf
    → (out : List ℕ) × (heart_beat_pack m (some buf) maxlen ≡ some (pos 2, some out))
      × (heart_beat_unpack out 2 ≡ some (pos 2, some m))
unfolding heart_beat_pack heart_beat_unpack
heart_beat_unpack-pack m buf maxlen h k l = (
  bin2buffer m.id 2 ++ drop 2 buf,
  ground (arith, fill_lem (value m.id 2 ∷ []) buf 2 refl (omega arith)),
  rw (unpack_section-stored [] (drop 2 buf) 2 m.id 0 refl (omega arith) (omega arith) h),
)

-- A status report fills 17 of its 20 bytes: the server reads back each field, in the order and the
-- widths of the protocol, and nothing behind the 20 bytes is touched.
report_status_pack-Holds :
    (m : ReportStatus) (buf : List ℕ) (maxlen : ℕ)
    → 20 ≤ maxlen
    → maxlen ≤ length buf
    → Fit (report_status_sections m)
    → Holds (report_status_pack m (some buf) maxlen) 20 buf (2 ∷ 1 ∷ 1 ∷ 1 ∷ 4 ∷ 4 ∷ 2 ∷ 2 ∷ []) (
        m.id ∷ m.status ∷ m.power_level ∷ m.speed ∷ m.x_pos ∷ m.y_pos ∷ m.car_angle ∷ m.last_point
        ∷ [])
unfolding report_status_pack
report_status_pack-Holds m buf maxlen h k f =
    fill-Holds (report_status_sections m) buf 20 _ (ground arith) refl (omega arith) f

-- A request for a path holds its four fields in twelve bytes.
request_path_pack-Holds :
    (m : RequestPath) (buf : List ℕ) (maxlen : ℕ)
    → 12 ≤ maxlen
    → maxlen ≤ length buf
    → m.id < 65536
    → m.x_pos < 4294967296
    → m.y_pos < 4294967296
    → m.last_point < 65536
    → Holds
        (request_path_pack m (some buf) maxlen)
        12
        buf
        (2 ∷ 4 ∷ 4 ∷ 2 ∷ [])
        (m.id ∷ m.x_pos ∷ m.y_pos ∷ m.last_point ∷ [])
unfolding request_path_pack
request_path_pack-Holds m buf maxlen h k i x y l =
    fill-Holds (value m.id 2 ∷ value m.x_pos 4 ∷ value m.y_pos 4 ∷ value m.last_point 2 ∷ []) buf 12
      _ (ground arith) refl (omega arith) (omega arith)

ack_stored :
    (m : AckToServer) (buf : List ℕ)
    → 8 ≤ length buf
    → pack_sections (ack_to_server_sections m) 0 buf
      ≡ some (8, image (ack_to_server_sections m) buf)
unfolding ack_to_server_sections
ack_stored m buf h = pack_sections-image (ack_to_server_sections m) [] buf 0 refl (omega arith)

length-ack :
    (m : AckToServer) (buf : List ℕ)
    → 8 ≤ length buf
    → length (image (ack_to_server_sections m) buf) ≡ length buf
unfolding ack_to_server_sections
length-ack m buf h = length-image (ack_to_server_sections m) buf (omega arith)

-- An acknowledgement is only checked for its eight fixed bytes: additional bytes that do not fit
-- behind these are written behind the array all the same.
pub ack_to_server_pack-overflow :
    (m : AckToServer) (bytes buf : List ℕ) (maxlen : ℕ)
    → 8 ≤ maxlen
    → 8 ≤ length buf
    → m.extra ≡ some bytes
    → length buf < 8 + m.data_length
    → ack_to_server_pack m (some buf) maxlen ≡ none
unfolding ack_to_server_pack ack_to_server_fill copy_extra memcpy
ack_to_server_pack-overflow m bytes buf maxlen h k x over =
    ground (arith, ack_stored m buf k, length-ack m buf k, length-take m.data_length bytes)

-- With room for them, the additional bytes follow the four fields.
pub ack_to_server_pack_lem :
    (m : AckToServer) (buf : List ℕ)
    → length buf ≡ 2048
    → m.data_length ≤ 1000
    → ((m.data_length ≡ 0) × (m.extra ≡ none))
      ⊎ ((bytes : List ℕ) × (m.extra ≡ some bytes) × (m.data_length ≤ length bytes))
    → (out : List ℕ) × (ack_to_server_pack m (some buf) 2048
        ≡ some (pos (8 + m.data_length), some out))
      × (length out ≡ 2048)
unfolding ack_to_server_pack ack_to_server_fill copy_extra
ack_to_server_pack_lem m buf room n (inl (z, e)) = (
  image (ack_to_server_sections m) buf,
  ground (arith, ack_stored m buf (omega arith)),
  omega (arith, length-ack m buf (omega arith)),
)
ack_to_server_pack_lem m buf room n (inr (bytes, e, enough)) =
    let base = image (ack_to_server_sections m) buf in
    let n' = m.data_length in
    let stored = ack_stored m buf (omega arith) in
    elim (Bool-cases (ltb 0 n')) [
      | inl some_data ↦
          let (buf', copied, size') =
            memcpy-some base (take n' bytes) 8
              (omega (arith, length-ack m buf (omega arith), length-take n' bytes)) in
          (buf', ground (arith, stored, copied), omega (arith, length-ack m buf (omega arith)))
      | inr no_data ↦ (base, ground (arith, stored), omega (arith, length-ack m buf (omega arith)))
    ]
