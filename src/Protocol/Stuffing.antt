-- ===== src/Protocol/Stuffing.antt =====
-- comm/AgvSchProtocol.cpp: encode and decode, the byte stuffing.
use hxdl_driving_control.Prelude.{
  ℕ, ◌+◌, ◌≤◌, ◌≡◌, ◌≢◌, refl, sym, ap, ◌∙◌, Bool, List, [], ◌∷◌, ◌++◌, true, All, length, arith,
}
use hxdl_driving_control.Protocol.{decode, encode, emit, stuff}

-- The frame flag.
abbrev pub flag : ℕ
flag = 0xFF

-- No byte that `encode` stores is the frame flag.
pub encode-lacks_flag : (src : List ℕ) → All (λ b. b ≢ flag) (encode flag src)
unfolding encode
encode-lacks_flag [] = tt
encode-lacks_flag (b ∷ src) = ground (arith, encode-lacks_flag src)

decode-cons : (b : ℕ) (src : List ℕ) → b ≢ 0x85 → b ≢ 0x86 → decode (b ∷ src) ≡ emit b (decode src)
unfolding decode
decode-cons b [] p q = ground arith
decode-cons b (c ∷ src) p q = ground arith

decode-stuff : (b : ℕ) (src : List ℕ) → decode (stuff flag b ++ src) ≡ emit b (decode src)
unfolding decode stuff
decode-stuff b src = ground (arith, decode-cons b src)

-- `decode` of what `encode` stores gives the bytes back, and reports no failure.
pub decode-encode : (src : List ℕ) → decode (encode flag src) ≡ (src, true)
unfolding encode
decode-encode [] = unfold decode in refl
decode-encode (b ∷ src) =
    rw (decode-stuff b (encode flag src), decode-encode src) (unfold emit in refl)

pub length-encode : (src : List ℕ) → length src ≤ length (encode flag src)
unfolding encode
length-encode [] = omega arith
length-encode (b ∷ src) = ground (arith, length-encode src)

encode-decoded :
    (src : List ℕ)
    → All (λ b. b ≢ flag) src
    → (decode src).1 ≡ true
    → encode flag (decode src).0 ≡ src
unfolding decode encode
encode-decoded [] h e = refl
encode-decoded (b ∷ []) h e = ground arith
encode-decoded (b ∷ c ∷ src) h e =
    ground (arith, encode-decoded src h.1.1, encode-decoded (c ∷ src) h.1)

-- If `decode` succeeds on bytes without a flag, encoding its result gives these bytes back.
encode-decode :
    (src out : List ℕ) → All (λ b. b ≢ flag) src → decode src ≡ (out, true) → encode flag out ≡ src
encode-decode src out h e =
    ap (λ (d : List ℕ × Bool). encode flag d.0) (sym e)
    ∙ encode-decoded src h (ap (λ (d : List ℕ × Bool). d.1) e)

-- At most two bytes are sent for one.
pub length-encode_le :
    (head : ℕ) (src : List ℕ) → length (encode head src) ≤ length src + length src
unfolding encode
length-encode_le head [] = omega arith
length-encode_le head (b ∷ src) = ground (arith, length-encode_le head src)
