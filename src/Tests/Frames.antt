-- ===== src/Tests/Frames.antt =====
-- Numbers, byte stuffing and frames: comm/AgvSchProtocol.cpp on small inputs.
use hxdl_driving_control.Prelude.{ℕ, ◌≡◌, refl, List, [], ◌∷◌, ◌++◌, none, some, arith, replicate}
use hxdl_driving_control.Prelude.Int.{pos, negsuc}
use hxdl_driving_control.Protocol.{
  Protocol, null, external, new, new_cmd, decode, emit, see_head, scan, check_protocol, pack_data,
  unpack_data, Reply,
}
use hxdl_driving_control.Protocol.Stuffing.{flag}
use hxdl_driving_control.Protocol.Scan.{IsFrame, check_protocol-IsFrame}
use hxdl_driving_control.Protocol.Fields.{payload}
use hxdl_driving_control.Protocol.RoundTrip.{unpack_data-pack_data, unpack_data-decode_failed}

-- Bytes that need each of the three escapes.
abbrev escaped : List ℕ
escaped = 0xFF ∷ 0x85 ∷ 7 ∷ 0x86 ∷ []

-- Nine bytes, the last of which announces a second one.
abbrev broken : List ℕ
broken = 1 ∷ 2 ∷ 3 ∷ 4 ∷ 5 ∷ 6 ∷ 7 ∷ 8 ∷ 0x85 ∷ []

abbrev framed : List ℕ
framed = 3 ∷ flag ∷ (broken ++ flag ∷ 4 ∷ [])

framed-IsFrame : IsFrame framed 1 11
framed-IsFrame = record {
  before = 3 ∷ [];
  body = broken;
  after = 4 ∷ [];
  parts = refl;
  starts = refl;
  ends = refl;
  plain = ground arith;
  long = omega arith;
}

check_protocol-IsFrame_example : IsFrame framed 1 11
check_protocol-IsFrame_example =
    check_protocol-IsFrame new framed 1 11 (unfold new in refl) (unfold new in refl)
      (unfold check_protocol scan see_head new in refl)

unpack_data-decode_failed_example : unpack_data new framed 13 ≡ none
unpack_data-decode_failed_example =
    unpack_data-decode_failed new (unfold new in refl) (unfold new in refl) (3 ∷ []) broken (4 ∷ [])
      13 (ground arith) (ground arith) (omega arith) (unfold decode emit in refl)

unpack_data-pack_data_example :
    (q : Protocol) × (frame : List ℕ) × (r : Reply) × (pack_data
        (new_cmd 0x0103 (external (escaped ++ [])) 4)
      ≡ some (q, frame))
    × ((left : ℕ) → unpack_data new ((3 ∷ []) ++ (frame ++ 4 ∷ [])) left ≡ some r)
    × (r.ret ≡ pos 14)
    × (r.left ≡ 1)
    × (r.state.type ≡ 1)
    × (r.state.cmd ≡ 0x0103)
    × (r.state.data_length ≡ 4)
    × (payload r.state ≡ some escaped)
    × (r.state.head ≡ flag)
    × (r.state.tail ≡ flag)
unpack_data-pack_data_example =
    unpack_data-pack_data 0x0103 escaped [] (3 ∷ []) (4 ∷ []) new (omega arith) (omega arith)
      (ground arith) (unfold new in refl) (unfold new in refl)

-- A frame without payload whose sum is wrong, and what is said of it.
abbrev spoilt : List ℕ
spoilt = flag ∷ 0 ∷ 6 ∷ 0 ∷ 0 ∷ 0 ∷ 1 ∷ 1 ∷ 3 ∷ flag ∷ []

abbrev spoilt_reply : Reply
spoilt_reply = record {
  state = record {
    head = 0xFF;
    length_ = 6;
    check_sum = 0;
    type = 1;
    cmd = 0;
    data_ptr = null;
    data_length = 0;
    tail = 0xFF;
    buffer = 0 ∷ 6 ∷ 0 ∷ 0 ∷ 0 ∷ 1 ∷ 1 ∷ 3 ∷ replicate 2040 0;
  };
  ret = negsuc 1;
  left = 0;
}
