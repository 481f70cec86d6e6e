-- ===== src/Wire.antt =====
-- comm/AgvSchProtocol.cpp: big-endian numbers in byte buffers, and the section macros.
-- A buffer is the list of its bytes; `none` is an access outside of the buffer.
pub mod After
pub mod RoundTrip
pub mod Sections
pub mod Fields
use Prim.Native.Nat.{bit_and, bit_or}
use hxdl_driving_control.Prelude.{
  ℕ, zero, suc, ◌+◌, ◌-◌, ltb, ◌*◌, ◌/◌, ◌%◌, ◌^◌, List, [], ◌∷◌, ◌++◌, Option, none, some, leb,
  ◌==◌, if◌then◌else◌, length, take, drop,
}
use hxdl_driving_control.Prelude.Int.{ℤ, pos, negsuc}

abbrev pub u8 : ℕ → ℕ
u8 n = n % 256

abbrev pub u16 : ℕ → ℕ
u16 n = n % 65536

abbrev pub u32 : ℕ → ℕ
u32 n = n % 4294967296

-- An int that becomes an unsigned short.
abbrev pub short_of : ℤ → ℕ
short_of (pos n) = u16 n
short_of (negsuc n) = 65535 - u16 n

-- And an unsigned char.
unfoldable pub byte_of : ℤ → ℕ
byte_of (pos n) = u8 n
byte_of (negsuc n) = 255 - u8 n

-- An unsigned int that becomes an int, and back.
unfoldable pub int_of : ℕ → ℤ
int_of n = if ltb n 2147483648 then pos n else negsuc (4294967295 - n)

unfoldable pub unsigned_of : ℤ → ℕ
unsigned_of (pos n) = n
unsigned_of (negsuc n) = 4294967295 - n

-- An unsigned short that becomes a short.
unfoldable pub short_from : ℕ → ℤ
short_from n = if ltb n 32768 then pos n else negsuc (65535 - n)

infixl 5 ◌>>=◌
abbrev pub ◌>>=◌ {ℓ κ} : {A : Type ℓ} {B : Type κ} → Option A → (A → Option B) → Option B
none >>= f = none
some a >>= f = f a

-- The rounds left give the shift: round `i` of `bytes` moves its byte up by 8 * (bytes - i - 1).
unfoldable pub buffer2bin_loop : ℕ → List ℕ → ℕ → Option ℕ
buffer2bin_loop zero data_ ret = some ret
buffer2bin_loop (suc r) [] ret = none
buffer2bin_loop (suc r) (b ∷ data_) ret =
    buffer2bin_loop r data_ (bit_or ret (u32 (b * 2 ^ (8 * r))))

-- No bytes read as the unsigned value of -1.
unfoldable pub buffer2bin : List ℕ → ℕ → Option ℕ
unfolding buffer2bin_loop
buffer2bin data_ bytes = if bytes == 0 then some 4294967295 else buffer2bin_loop bytes data_ 0

-- The bytes that are stored, the highest first.
unfoldable pub bin2buffer : ℕ → ℕ → List ℕ
bin2buffer value zero = []
bin2buffer value (suc r) = bit_and (value / 2 ^ (8 * r)) 255 ∷ bin2buffer value r

-- Stores `bytes` at offset `i`.
unfoldable pub memcpy : List ℕ → ℕ → List ℕ → Option (List ℕ)
memcpy buf i bytes =
    if leb (i + length bytes) (length buf)
    then some (take i buf ++ (bytes ++ drop (i + length bytes) buf))
    else none

-- `PackSectionData(section, data, offset)` for a field of `size` bytes, and
-- `PackEmptySection(section, data, offset)`, which steps over the bytes.
pub data Section : Type 0 where
  value : ℕ → ℕ → Section
  empty : ℕ → Section

-- The offset reached, and the buffer written.
unfoldable pub pack_sections : List Section → ℕ → List ℕ → Option (ℕ × List ℕ)
unfolding bin2buffer memcpy
pack_sections [] i buf = some (i, buf)
pack_sections (value v size ∷ sections) i buf =
    memcpy buf i (bin2buffer v size) >>= λ buf'. pack_sections sections (i + size) buf'
pack_sections (empty size ∷ sections) i buf = pack_sections sections (i + size) buf

-- `UnPackSectionData(section, data, offset)`: a field of `size` bytes at the offset.
unfoldable pub unpack_section : ℕ → List ℕ → ℕ → Option ℕ
unfolding buffer2bin
unpack_section size data_ i = buffer2bin (drop i data_) size

-- `UnPackEmptySection(section, data, offset)`: the bytes themselves.
unfoldable pub unpack_empty_section : ℕ → List ℕ → ℕ → Option (List ℕ)
unpack_empty_section size data_ i =
    if leb (i + size) (length data_) then some (take size (drop i data_)) else none
