-- ===== src/Sensor/Hmi/Identifier.antt =====
-- devices/canbus/AgvSensor.cpp: the identifier that the display sets.
use hxdl_driving_control.Prelude.{
  ℕ, zero, suc, ◌+◌, ◌*◌, ◌/◌, ◌%◌, ◌≤◌, ◌<◌, ◌≡◌, inl, inr, List, [], ◌∷◌, false, none, some,
  arith, ltb, leb, if◌then◌else◌, length, length-append, Bool-cases,
}
use hxdl_driving_control.Sensor.Hmi.{
  Hmi, id, save_text, digits, print_int, sprintf, parse_id, parse_can_data,
}

length-digits : (r n : ℕ) → 1 ≤ length (digits r n)
unfolding digits
length-digits zero n = omega arith
length-digits (suc r) n =
    ground
      (arith, length-append (digits r (n / 10)) ((0x30 + n % 10) ∷ []), length-digits r (n / 10))

digits_long : (n : ℕ) → 10 ≤ n → 2 ≤ length (digits 9 n)
unfolding digits
digits_long n h =
    let long : ltb n 10 ≡ false = ground arith in
    rw long (
      omega
        (arith, length-append (digits 8 (n / 10)) ((0x30 + n % 10) ∷ []), length-digits 8 (n / 10)))

digits_short : (n : ℕ) → n < 10 → digits 9 n ≡ (0x30 + n) ∷ []
unfolding digits
digits_short n h = ground arith

-- The display's command to set the identifier saves it as one digit when it is below 10, and else is a
-- fault: its digits do not fit the array of two bytes.
pub parse_id-overflow :
    (a b len : ℕ) (rest : List ℕ) (h : Hmi)
    → parse_can_data (0x08 ∷ a ∷ b ∷ rest) len h ≡ (
        if ltb (a * 256 + b) 10
        then some (h, save_text id ((0x30 + (a * 256 + b)) ∷ []) ∷ [])
        else none)
unfolding parse_can_data parse_id sprintf print_int
parse_id-overflow a b len rest h = elim (Bool-cases (ltb (a * 256 + b) 10)) [
  | inl small ↦ rw (small, digits_short (a * 256 + b) (ground arith))
  | inr large ↦
      let long = digits_long (a * 256 + b) (ground arith) in
      let cut : leb (length (digits 9 (a * 256 + b)) + 1) 2 ≡ false = ground (arith, long) in
      rw (large, cut)
]
