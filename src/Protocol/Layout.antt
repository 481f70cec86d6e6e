-- ===== src/Protocol/Layout.antt =====
-- `PackData` step by step: what the buffer holds, and what is sent.
use mathlib.Core.List.{append_assoc}
use hxdl_driving_control.Prelude.{
  ℕ, ◌+◌, ◌-◌, ◌≤◌, ◌<◌, ◌≡◌, refl, sym, ap, ap₂, ◌∙◌, List, [], ◌∷◌, ◌++◌, some, arith, length,
  length-append, length-drop, length-replicate, take, drop, take-append_length, take_at, drop_at,
  ◌⊎◌, inl, inr,
}
use hxdl_driving_control.Wire.{bin2buffer, memcpy, value, pack_sections, u16}
use hxdl_driving_control.Wire.RoundTrip.{length-bin2buffer}
use hxdl_driving_control.Wire.Sections.{memcpy-append, pack_sections-image}
use hxdl_driving_control.CheckSum.{get_crc16}
use hxdl_driving_control.CheckSum.Laws.{get_crc16-append, get_crc16-some}
use hxdl_driving_control.Protocol.{
  Protocol, null, external, zero_buffer, buffer_size, copy_data, pack_data, encode,
}

pub length-zero_buffer : length zero_buffer ≡ 2048
unfolding zero_buffer
length-zero_buffer = length-replicate {A = ℕ} buffer_size 0

-- What the check sum covers.
abbrev pub covered : ℕ → ℕ → List ℕ → List ℕ
covered type cmd bytes = bin2buffer type 2 ++ (bin2buffer cmd 2 ++ bytes)

-- The frame's contents before they are encoded.
abbrev pub contents : ℕ → ℕ → ℕ → ℕ → List ℕ → List ℕ
contents len crc type cmd bytes = bin2buffer len 2 ++ (bin2buffer crc 2 ++ covered type cmd bytes)

pub length-covered :
    (type cmd : ℕ) (bytes : List ℕ) → length (covered type cmd bytes) ≡ length bytes + 4
length-covered type cmd bytes = omega (
  arith,
  length-append (bin2buffer type 2) (bin2buffer cmd 2 ++ bytes),
  length-append (bin2buffer cmd 2) bytes,
  length-bin2buffer type 2,
  length-bin2buffer cmd 2,
)

pub length-contents :
    (len crc type cmd : ℕ) (bytes : List ℕ)
    → length (contents len crc type cmd bytes) ≡ length bytes + 8
length-contents len crc type cmd bytes = omega (
  arith,
  length-append (bin2buffer len 2) (bin2buffer crc 2 ++ covered type cmd bytes),
  length-append (bin2buffer crc 2) (covered type cmd bytes),
  length-covered type cmd bytes,
  length-bin2buffer len 2,
  length-bin2buffer crc 2,
)

-- The object sends these bytes: its data pointer leads to them, or is null and there are none.
abbrev pub Carries : Protocol → List ℕ → Type 0
Carries p bytes =
    ((p.data_ptr ≡ null) × (bytes ≡ []))
    ⊎ ((more : List ℕ) × (p.data_ptr ≡ external (bytes ++ more)))

copy_data_lem :
    (p : Protocol) (bytes done todo : List ℕ) (i : ℕ)
    → Carries p bytes
    → length done ≡ i
    → length bytes ≤ length todo
    → copy_data p (length bytes) i (done ++ todo)
      ≡ some (i + length bytes, done ++ (bytes ++ drop (length bytes) todo))
unfolding copy_data
copy_data_lem p bytes done todo i (inl (e, n)) d h =
    rw (e, n) (ap (λ k. some (k, done ++ todo)) (omega arith))
copy_data_lem p [] done todo i (inr (more, e)) d h =
    rw e (ap (λ k. some (k, done ++ todo)) (omega arith))
copy_data_lem p (x ∷ xs) done todo i (inr (more, e)) d h = rw e (
    ground (
      arith,
      length-append (x ∷ xs) more,
      take-append_length (x ∷ xs) more,
      memcpy-append done todo (x ∷ xs) i d h,
    ))

module _ (len type cmd : ℕ) (bytes : List ℕ) (room : length bytes ≤ 2040) where
  header : List ℕ
  header = bin2buffer len 2 ++ (bin2buffer 0 2 ++ (bin2buffer type 2 ++ bin2buffer cmd 2))

  -- The buffer behind the header and behind the payload.
  free : List ℕ
  free = drop 2 (drop 2 (drop 2 (drop 2 zero_buffer)))

  behind : List ℕ
  behind = drop (length bytes) free

  length-free : length free ≡ 2040
  unfolding free
  length-free = omega (
    arith,
    length-zero_buffer,
    length-drop 2 zero_buffer,
    length-drop 2 (drop 2 zero_buffer),
    length-drop 2 (drop 2 (drop 2 zero_buffer)),
    length-drop 2 (drop 2 (drop 2 (drop 2 zero_buffer))),
  )

  length-header : length header ≡ 8
  unfolding header
  length-header = omega (
    arith,
    length-append (bin2buffer len 2) (bin2buffer 0 2 ++ (bin2buffer type 2 ++ bin2buffer cmd 2)),
    length-append (bin2buffer 0 2) (bin2buffer type 2 ++ bin2buffer cmd 2),
    length-append (bin2buffer type 2) (bin2buffer cmd 2),
    length-bin2buffer len 2,
    length-bin2buffer 0 2,
    length-bin2buffer type 2,
    length-bin2buffer cmd 2,
  )

  header_stored :
      pack_sections (value len 2 ∷ value 0 2 ∷ value type 2 ∷ value cmd 2 ∷ []) 0 zero_buffer
      ≡ some (8, header ++ free)
  unfolding header free
  header_stored =
      pack_sections-image (value len 2 ∷ value 0 2 ∷ value type 2 ∷ value cmd 2 ∷ []) [] zero_buffer
        0 refl (omega (arith, length-zero_buffer))
      ∙ ap (λ b. some (8, b)) (simp append_assoc)

  -- The buffer once the payload is in, seen from its three first fields.
  filled :
      header ++ (bytes ++ behind)
      ≡ bin2buffer len 2 ++ (bin2buffer 0 2 ++ (covered type cmd bytes ++ behind))
  unfolding header
  filled = simp append_assoc

  four_on : drop 4 (header ++ (bytes ++ behind)) ≡ covered type cmd bytes ++ behind
  four_on =
      ap (drop 4) (filled ∙ sym (append_assoc (bin2buffer len 2) (bin2buffer 0 2) _))
      ∙ drop_at 4 (bin2buffer len 2 ++ bin2buffer 0 2) (covered type cmd bytes ++ behind) (
          omega (
            arith,
            length-append (bin2buffer len 2) (bin2buffer 0 2),
            length-bin2buffer len 2,
            length-bin2buffer 0 2,
          ))

  -- The sum of the covered bytes.
  sum :
      (crc : ℕ) × (get_crc16 (covered type cmd bytes) (length (covered type cmd bytes)) 0
        ≡ some crc)
      × (crc < 65536)
  sum = get_crc16-some (covered type cmd bytes) 0 (omega (arith, length-covered type cmd bytes))

  summed :
      get_crc16 (drop 4 (header ++ (bytes ++ behind))) (u16 (8 + length bytes + 65536 - 4)) 0
      ≡ some sum.0
  summed =
      ap₂ (λ b n. get_crc16 b n 0) four_on (omega (arith, length-covered type cmd bytes))
      ∙ get_crc16-append (covered type cmd bytes) behind 0
          (omega (arith, length-covered type cmd bytes))
      ∙ sum.1

  sum_stored :
      (crc : ℕ)
      → memcpy (header ++ (bytes ++ behind)) 2 (bin2buffer crc 2)
        ≡ some (contents len crc type cmd bytes ++ behind)
  sum_stored crc =
      let rest = covered type cmd bytes ++ behind in
      ap (λ b. memcpy b 2 (bin2buffer crc 2)) filled
      ∙ memcpy-append (bin2buffer len 2) (bin2buffer 0 2 ++ rest) (bin2buffer crc 2) 2
          (length-bin2buffer len 2)
          (omega (
            arith,
            length-bin2buffer crc 2,
            length-bin2buffer 0 2,
            length-append (bin2buffer 0 2) rest,
          ))
      ∙ ap (λ b. some (bin2buffer len 2 ++ (bin2buffer crc 2 ++ b)))
          (drop_at (length (bin2buffer crc 2)) (bin2buffer 0 2) rest
            (length-bin2buffer 0 2 ∙ sym (length-bin2buffer crc 2)))
      ∙ ap some (simp append_assoc)

  sent :
      (crc : ℕ)
      → take (8 + length bytes) (contents len crc type cmd bytes ++ behind)
        ≡ contents len crc type cmd bytes
  sent crc =
      take_at (8 + length bytes) (contents len crc type cmd bytes) behind
        (omega (arith, length-contents len crc type cmd bytes))

  -- `PackData` sends the contents, encoded, between two flags.
  pub pack_data_lem :
      (p : Protocol)
      → Carries p bytes
      → p.length_ ≡ len
      → p.type ≡ type
      → p.cmd ≡ cmd
      → len ≡ length bytes + 6
      → (crc : ℕ) × (q : Protocol) × (pack_data p
          ≡ some (q, p.head ∷ (encode p.head (contents len crc type cmd bytes) ++ (p.tail ∷ []))))
        × (get_crc16 (covered type cmd bytes) (length (covered type cmd bytes)) 0 ≡ some crc)
        × (crc < 65536)
  unfolding pack_data behind
  pack_data_lem p c el et ec n =
      let stored : pack_sections
            (value p.length_ 2 ∷ value 0 2 ∷ value p.type 2 ∷ value p.cmd 2 ∷ []) 0 zero_buffer
          ≡ some (8, header ++ free) =
        rw (el, et, ec) header_stored in
      let copied : copy_data p (u16 (p.length_ + 65536 - 6)) 8 (header ++ free)
          ≡ some (8 + length bytes, header ++ (bytes ++ behind)) =
        ap (λ k. copy_data p k 8 (header ++ free)) (omega arith)
        ∙ copy_data_lem p bytes header free 8 c length-header (omega (arith, length-free)) in
      let q : Protocol = record p {
        check_sum = sum.0;
        data_length = u16 (p.length_ + 65536 - 6);
        buffer = contents len sum.0 type cmd bytes ++ behind;
      } in
      (sum.0, q, rw (stored, copied, summed, sum_stored sum.0, sent sum.0), sum.1, sum.2)
