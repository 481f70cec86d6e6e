-- ===== src/Wire/RoundTrip.antt =====
-- comm/AgvSchProtocol.cpp: Buffer2Bin on what Bin2Buffer stores.
use hxdl_driving_control.Prelude.{
  ℕ, zero, suc, ◌+◌, ◌*◌, ◌/◌, ◌%◌, ◌^◌, ◌≤◌, ◌<◌, ◌≡◌, refl, List, ◌∷◌, ◌++◌, some, arith, All,
  length, ap, ◌∙◌,
}
use hxdl_driving_control.Prelude.Bits.{bit_and_255, bit_or-shifted, zero-bit_or}
use hxdl_driving_control.Wire.{buffer2bin, bin2buffer}

abbrev pub IsByte : ℕ → Type 0
IsByte b = b < 256

pub buffer2bin_one : (a : ℕ) (rest : List ℕ) → a < 256 → buffer2bin (a ∷ rest) 1 ≡ some a
unfolding buffer2bin
buffer2bin_one a rest h = rw zero-bit_or (ground arith)

pub buffer2bin_two :
    (a b : ℕ) (rest : List ℕ) → a < 256 → b < 256 → buffer2bin (a ∷ b ∷ rest) 2 ≡ some (a * 256 + b)
unfolding buffer2bin
buffer2bin_two a b rest ha hb =
    ground (arith, zero-bit_or (a * 256 % 4294967296), bit_or-shifted 8 a b)

pub buffer2bin_three :
    (a b c : ℕ) (rest : List ℕ)
    → a < 256
    → b < 256
    → c < 256
    → buffer2bin (a ∷ b ∷ c ∷ rest) 3 ≡ some (a * 65536 + b * 256 + c)
unfolding buffer2bin
buffer2bin_three a b c rest ha hb hc = ground (
  arith,
  zero-bit_or (a * 65536 % 4294967296),
  bit_or-shifted 16 a (b * 256),
  bit_or-shifted 8 (a * 256 + b) c,
)

pub buffer2bin_four :
    (a b c d : ℕ) (rest : List ℕ)
    → a < 256
    → b < 256
    → c < 256
    → d < 256
    → buffer2bin (a ∷ b ∷ c ∷ d ∷ rest) 4 ≡ some (a * 16777216 + b * 65536 + c * 256 + d)
unfolding buffer2bin
buffer2bin_four a b c d rest ha hb hc hd = ground (
  arith,
  zero-bit_or (a * 16777216 % 4294967296),
  bit_or-shifted 24 a (b * 65536),
  bit_or-shifted 16 (a * 256 + b) (c * 256),
  bit_or-shifted 8 (a * 65536 + b * 256 + c) d,
)

pub bin2buffer-bytes : (v n : ℕ) → All IsByte (bin2buffer v n)
unfolding bin2buffer
bin2buffer-bytes v zero = tt
bin2buffer-bytes v (suc n) = (omega (arith, bit_and_255 (v / 2 ^ (8 * n))), bin2buffer-bytes v n)

pub length-bin2buffer : (v n : ℕ) → length (bin2buffer v n) ≡ n
unfolding bin2buffer
length-bin2buffer v zero = refl
length-bin2buffer v (suc n) = ap suc (length-bin2buffer v n)

-- A value of one to four bytes that is stored by `Bin2Buffer` is read back by `Buffer2Bin`, if it
-- fits, whatever follows in the buffer.
pub buffer2bin-bin2buffer :
    (n v : ℕ) (rest : List ℕ)
    → 0 < n
    → n ≤ 4
    → v < 2 ^ (8 * n)
    → buffer2bin (bin2buffer v n ++ rest) n ≡ some v
unfolding bin2buffer
buffer2bin-bin2buffer zero v rest p q h = absurd (omega arith)
buffer2bin-bin2buffer (suc zero) v rest p q h =
    rw bit_and_255 (buffer2bin_one _ rest (omega arith) ∙ ap some (omega arith))
buffer2bin-bin2buffer (suc (suc zero)) v rest p q h =
    simp bit_and_255 (buffer2bin_two _ _ rest (omega arith) (omega arith) ∙ ap some (omega arith))
buffer2bin-bin2buffer (suc (suc (suc zero))) v rest p q h =
    simp bit_and_255 (
      buffer2bin_three _ _ _ rest (omega arith) (omega arith) (omega arith) ∙ ap some (omega arith))
buffer2bin-bin2buffer (suc (suc (suc (suc zero)))) v rest p q h = simp bit_and_255 (
    buffer2bin_four _ _ _ _ rest (omega arith) (omega arith) (omega arith) (omega arith)
    ∙ ap some (omega arith))
buffer2bin-bin2buffer (suc (suc (suc (suc (suc n))))) v rest p q h = absurd (omega arith)
