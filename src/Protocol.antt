-- ===== src/Protocol.antt =====
-- comm/AgvSchProtocol.cpp, class CAgvSchProtocol: the frames of the scheduler's wire protocol.
pub mod Stuffing
pub mod Scan
pub mod Layout
pub mod Fields
pub mod Progress
pub mod RoundTrip
use hxdl_driving_control.Prelude.{
  ℕ, zero, suc, ◌+◌, ◌-◌, List, [], ◌∷◌, ◌++◌, Bool, true, false, ◌&&◌, Option, none, some, ltb,
  ◌==◌, if◌then◌else◌, length, take, drop, replicate,
}
use hxdl_driving_control.Prelude.Int.{ℤ, pos, negsuc}
use hxdl_driving_control.Wire.{
  u16, ◌>>=◌, buffer2bin, bin2buffer, memcpy, value, pack_sections, unpack_section,
}
use hxdl_driving_control.CheckSum.{get_crc16}

-- What `data` points to: nothing, bytes of the caller, or the object's own buffer from an offset.
pub data Pointer : Type 0 where
  null : Pointer
  external : List ℕ → Pointer
  internal : ℕ → Pointer

pub record Protocol : Type 0 where
  pub head : ℕ
  pub length_ : ℕ
  pub check_sum : ℕ
  pub type : ℕ
  pub cmd : ℕ
  pub data_ptr : Pointer
  pub data_length : ℕ
  pub tail : ℕ
  pub buffer : List ℕ

abbrev pub buffer_size : ℕ
buffer_size = 2048

-- `memset(buffer, 0, sizeof(buffer))`.
unfoldable pub zero_buffer : List ℕ
zero_buffer = replicate buffer_size 0

-- The object that is built with no command. Its buffer is not initialised there; it is cleared
-- before each use.
unfoldable pub new : Protocol
new = record {
  head = 0xFF;
  length_ = 0;
  check_sum = 0;
  type = 1;
  cmd = 0;
  data_ptr = null;
  data_length = 0;
  tail = 0xFF;
  buffer = zero_buffer;
}

unfoldable pub new_cmd : ℕ → Pointer → ℕ → Protocol
new_cmd cmd data_ptr len = record {
  head = 0xFF;
  length_ = u16 (len + 6);
  check_sum = 0;
  type = 1;
  cmd = u16 cmd;
  data_ptr = data_ptr;
  data_length = u16 len;
  tail = 0xFF;
  buffer = zero_buffer;
}

-- The bytes that can be read through a pointer.
unfoldable pub deref : List ℕ → Pointer → Option (List ℕ)
deref buffer null = none
deref buffer (external bytes) = some bytes
deref buffer (internal i) = some (drop i buffer)

-- What one round of `encode` appends.
unfoldable pub stuff : ℕ → ℕ → List ℕ
stuff head b =
    if b == head
    then 0x85 ∷ 0x86 ∷ []
    else if b == 0x85
    then 0x85 ∷ 0x85 ∷ []
    else if b == 0x86
    then 0x86 ∷ 0x86 ∷ []
    else b ∷ []

unfoldable pub encode : ℕ → List ℕ → List ℕ
unfolding stuff
encode head [] = []
encode head (b ∷ src) = stuff head b ++ encode head src

-- The bytes that `decode` has stored when it returns, and whether it returns their count or -1.
abbrev pub Decoded : Type 0
Decoded = List ℕ × Bool

unfoldable pub emit : ℕ → Decoded → Decoded
emit b (des, fine) = (b ∷ des, fine)

unfoldable pub decode : List ℕ → Decoded
unfolding emit
decode [] = ([], true)
decode (b ∷ []) =
    if b == 0x85 then ([], false) else if b == 0x86 then ([], false) else (b ∷ [], true)
decode (b ∷ c ∷ src) =
    let skip = decode src in
    let next = decode (c ∷ src) in
    if b == 0x85
    then (if c == 0x85 then emit 0x85 skip else if c == 0x86 then emit 0xFF skip else ([], false))
    else if b == 0x86
    then (if c == 0x86 then emit 0x86 skip else ([], false))
    else emit b next

-- The loop of `CheckProtocol` from index `i`, with `hi` so far; `ti` is -1 until the loop breaks.
unfoldable pub see_head : ℕ → ℕ → ℕ → Option ℕ → Option ℕ
see_head head b i none = if b == head then some i else none
see_head head b i (some h) = some h

unfoldable pub scan : ℕ → ℕ → ℕ → List ℕ → Option ℕ → Option (ℕ × ℕ)
unfolding see_head
scan head tail i [] hi = none
scan head tail i (b ∷ buf) hi = elim (see_head head b i hi) [
  | none ↦ scan head tail (i + 1) buf none
  | some h ↦
      let restart = scan head tail (i + 1) buf (some i) in
      let go_on = scan head tail (i + 1) buf (some h) in
      if b == tail then (if ltb 8 (i - h) then some (h, i) else restart) else go_on
]

-- `start` and `end`, or `none` for false.
unfoldable pub check_protocol : Protocol → List ℕ → Option (ℕ × ℕ)
unfolding scan
check_protocol p buf = if ltb (length buf) 10 then none else scan p.head p.tail 0 buf none

-- The payload's bytes, if there are any to copy.
unfoldable pub copy_data : Protocol → ℕ → ℕ → List ℕ → Option (ℕ × List ℕ)
copy_data p n i buf = elim p.data_ptr [
  | null ↦ some (i, buf)
  | external bytes ↦
      if ltb 0 n
      then (if ltb (length bytes) n
          then none
          else memcpy buf i (take n bytes) >>= λ buf'. some (i + n, buf'))
      else some (i, buf)
  | internal k ↦
      if ltb 0 n
      then (if ltb (length (drop k buf)) n
          then none
          else memcpy buf i (take n (drop k buf)) >>= λ buf'. some (i + n, buf'))
      else some (i, buf)
]

-- The object after the call and the bytes stored at `pbuf`, as many as the call returns.
unfoldable pub pack_data : Protocol → Option (Protocol × List ℕ)
pack_data p =
    let sections = value p.length_ 2 ∷ value 0 2 ∷ value p.type 2 ∷ value p.cmd 2 ∷ [] in
    let n = u16 (p.length_ + 65536 - 6) in
    pack_sections sections 0 zero_buffer >>= λ (i, buf). copy_data p n i buf >>= λ (j, buf').
    get_crc16 (drop 4 buf') (u16 (j + 65536 - 4)) 0 >>= λ crc.
    memcpy buf' 2 (bin2buffer crc 2) >>= λ buf''. some (
      record p { check_sum = crc; data_length = n; buffer = buf'' },
      p.head ∷ (encode p.head (take j buf'') ++ (p.tail ∷ [])),
    )

-- The object after `UnPackData`, what it returns, and `*left`.
pub record Reply : Type 0 where
  pub state : Protocol
  pub ret : ℤ
  pub left : ℕ

-- `dlen - 4` as the unsigned short that GetCrc16 takes; `dlen` is -1 after a failed decode.
abbrev pub crc_length : Decoded → ℕ
crc_length (des, true) = u16 (length des + 65536 - 4)
crc_length (des, false) = 65531

abbrev pub decoded_length : Decoded → ℤ
decoded_length (des, true) = pos (length des + 2)
decoded_length (des, false) = pos 1

-- The header's fields and the check, once the frame is decoded into `buf`.
unfoldable pub read_frame : Protocol → Decoded → List ℕ → ℕ → Option Reply
read_frame p decoded buf left = unpack_section 2 buf 0 >>= λ len. unpack_section 2 buf 2 >>= λ sum.
    get_crc16 (drop 4 buf) (crc_length decoded) 0 >>= λ crc.
    let q = record p { length_ = len; check_sum = sum; buffer = buf } in
    if sum == crc
    then (unpack_section 2 buf 4 >>= λ type. unpack_section 2 buf 6 >>= λ cmd.
        let n = u16 (len + 65536 - 6) in
        some (record {
          state = record q {
            type = type;
            cmd = cmd;
            data_length = n;
            data_ptr = if ltb 0 n then internal 8 else p.data_ptr;
          };
          ret = decoded_length decoded;
          left = left;
        }))
    else some (record { state = q; ret = negsuc 1; left = left })

unfoldable pub unpack_data : Protocol → List ℕ → ℕ → Option Reply
unpack_data p pbuf left = elim (check_protocol p pbuf) [
  | none ↦ some (record { state = p; ret = negsuc 0; left = left })
  | some (start, end) ↦
      let decoded = decode (take (end - start - 1) (drop (start + 1) pbuf)) in
      memcpy zero_buffer 0 decoded.0 >>= λ buf. read_frame p decoded buf (length pbuf - end - 1)
]
