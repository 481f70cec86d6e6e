-- ===== src/Messages/Path/RoundTrip.antt =====
-- comm/AgvSchProtocol.cpp: SetPath::unPackData on a path in the protocol's layout, whole and cut.
use mathlib.Core.List.{append_assoc}
use hxdl_driving_control.Prelude.{
  ℕ, zero, suc, ◌+◌, ◌*◌, ◌-◌, ◌≤◌, ◌<◌, ◌≡◌, refl, sym, ap, ◌∙◌, List, [], ◌∷◌, ◌++◌, map, none,
  some, true, false, arith, All, length, length-append, drop, drop_at, replicate, ltb, ◌==◌,
}
use hxdl_driving_control.Prelude.Int.{pos}
use hxdl_driving_control.Wire.{Section, value, bin2buffer, unpack_section}
use hxdl_driving_control.Wire.RoundTrip.{length-bin2buffer}
use hxdl_driving_control.Wire.Sections.{unpack_section-stored}
use hxdl_driving_control.Wire.Fields.{
  read_fields, sizes, values, Fit, laid, read_fields-laid, length-laid,
}
use hxdl_driving_control.Messages.Path.{
  StationInfo, get_station_info, SetPath, read_stations, set_path_unpack,
}

-- A station as the protocol's table lays it out.
abbrev station_sections : StationInfo → List Section
station_sections s =
    value s.id 2
    ∷ value s.x_pos 4
    ∷ value s.y_pos 4
    ∷ value s.path_angle 2
    ∷ value s.turn_radius 2
    ∷ value s.mode 1
    ∷ value s.action 1
    ∷ value s.lift_height 2
    ∷ []

-- The fields fit their widths.
abbrev pub IsStation : StationInfo → Type 0
IsStation s = Fit (station_sections s)

abbrev pub encode_station : StationInfo → List ℕ
encode_station s = laid (station_sections s)

abbrev pub encode_stations : List StationInfo → List ℕ
encode_stations [] = []
encode_stations (s ∷ stations) = encode_station s ++ encode_stations stations

get_station_info-read :
    (s : StationInfo) (bytes : List ℕ) (len : ℕ)
    → 18 ≤ len
    → read_fields (sizes (station_sections s)) bytes 0 ≡ some (values (station_sections s))
    → get_station_info bytes len ≡ some (18, some s)
unfolding get_station_info read_fields
get_station_info-read s bytes len h e = ground arith

get_station_info-stored :
    (s : StationInfo) (rest : List ℕ) (len : ℕ)
    → IsStation s
    → 18 ≤ len
    → get_station_info (encode_station s ++ rest) len ≡ some (18, some s)
get_station_info-stored s rest len f h =
    get_station_info-read s _ len h (read_fields-laid (station_sections s) [] rest 0 refl f)

read_stations-encode :
    (stations : List StationInfo) (done rest : List ℕ) (len i : ℕ)
    → length done ≡ i
    → len ≡ i + 18 * length stations
    → All IsStation stations
    → read_stations (length stations) (done ++ (encode_stations stations ++ rest)) len i
      ≡ some (len, map some stations)
unfolding read_stations
read_stations-encode [] done rest len i d e f = ap (λ k. some (k, [])) (omega arith)
read_stations-encode (s ∷ stations) done rest len i d e f =
    let more = encode_stations stations ++ rest in
    let regrouped : done ++ ((encode_station s ++ encode_stations stations) ++ rest)
        ≡ done ++ (encode_station s ++ more) =
      ap (◌++◌ done) (append_assoc (encode_station s) (encode_stations stations) rest) in
    let on : (i == len) ≡ false = ground arith in
    let here : get_station_info (drop i (done ++ (encode_station s ++ more))) (len - i)
        ≡ some (18, some s) =
      ap (λ b. get_station_info b (len - i)) (drop_at i done (encode_station s ++ more) d)
      ∙ get_station_info-stored s more (len - i) f.0 (omega arith) in
    let ih : read_stations (length stations) (done ++ (encode_station s ++ more)) len (i + 18)
        ≡ some (len, map some stations) =
      ap (λ b. read_stations (length stations) b len (i + 18))
        (sym (append_assoc done (encode_station s) more))
      ∙ read_stations-encode stations (done ++ encode_station s) rest len (i + 18)
          (omega (arith, length-append done (encode_station s), length-laid (station_sections s)))
          (omega arith) f.1 in
    ap (λ b. read_stations (suc (length stations)) b len i) regrouped
    ∙ rw (read_stations, on, here, ih)

-- A path in the protocol's layout, its count first and then 18 bytes for each station, is unpacked to
-- exactly its stations, if the fields fit their widths; whatever follows in the buffer is not read.
pub set_path_unpack-encode :
    (m : SetPath) (stations : List StationInfo) (rest : List ℕ)
    → length stations < 65536
    → All IsStation stations
    → let len = 2 + 18 * length stations in
      set_path_unpack m (bin2buffer (length stations) 2 ++ (encode_stations stations ++ rest)) len
      ≡ some (pos len, record { station_count = length stations; station_list = map some stations })
unfolding set_path_unpack
set_path_unpack-encode m stations rest h f =
    let n = length stations in
    let count : unpack_section 2 (bin2buffer n 2 ++ (encode_stations stations ++ rest)) 0 ≡ some n =
      unpack_section-stored [] (encode_stations stations ++ rest) 2 n 0 refl (omega arith)
        (omega arith) h in
    ground (
      arith,
      count,
      read_stations-encode stations (bin2buffer n 2) rest (2 + 18 * n) 2 (length-bin2buffer n 2)
          refl f,
    )

read_stations-cut :
    (rounds : ℕ) (bytes : List ℕ) (len i : ℕ)
    → i < len
    → len < i + 18
    → read_stations rounds bytes len i ≡ some (i, replicate rounds none)
unfolding read_stations get_station_info
read_stations-cut zero bytes len i h k = refl
read_stations-cut (suc rounds) bytes len i h k =
    let on : (i == len) ≡ false = ground arith in
    let short : ltb (len - i) 18 ≡ true = ground arith in
    let stay : i + 0 ≡ i = omega arith in
    rw (read_stations, on, get_station_info, short, stay, read_stations-cut rounds bytes len i h k)

-- A message that announces stations and breaks off inside the first one is taken as a path: the list
-- gets as many stations as announced, none of them ever written.
pub set_path_unpack-cut :
    (m : SetPath) (count len : ℕ) (rest : List ℕ)
    → count < 65536
    → 2 < len
    → len < 20
    → set_path_unpack m (bin2buffer count 2 ++ rest) len
      ≡ some (pos 2, record { station_count = count; station_list = replicate count none })
unfolding set_path_unpack
set_path_unpack-cut m count len rest h a b = ground (
  arith,
  unpack_section-stored [] rest 2 count 0 refl (omega arith) (omega arith) h,
  read_stations-cut count (bin2buffer count 2 ++ rest) len 2 a b,
)
