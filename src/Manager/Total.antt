-- ===== src/Manager/Total.antt =====
-- devices/canbus/AgvSensor.cpp: the arrays that ParseCanData of the classes reads.
use hxdl_driving_control.Prelude.{
  ℕ, zero, suc, ◌+◌, ◌*◌, ◌^◌, ◌≤◌, ◌<◌, ◌≡◌, refl, List, [], ◌∷◌, ◌++◌, Bool, true, false, Option,
  none, some, arith, ◌==◌, length, length-drop, drop, get_elem?,
}
use Prim.Native.Nat.{bit_or}
use hxdl_driving_control.Wire.{buffer2bin, buffer2bin_loop, u32}
use hxdl_driving_control.Sensor.{Parsed}
use hxdl_driving_control.Sensor.Drive as Drive
use hxdl_driving_control.Sensor.Lifter as Lifter
use hxdl_driving_control.Sensor.Buttons as Buttons
use hxdl_driving_control.Sensor.Barrier as Barrier
use hxdl_driving_control.Sensor.Panel as Panel
use hxdl_driving_control.Manager.Device.{
  Device, drive, lifter, barrier, buttons, cargo, rfid_reader, mag_sensor, mag_nail, plain,
  parse_plain, within, parse_device,
}
use hxdl_driving_control.Manager.Silence.{Parser, get_elem?-some}

abbrev is_some : {A : Type 0} → Option A → Bool
is_some none = false
is_some (some a) = true

abbrev pub IsRead : {A : Type 0} → Option A → Type 0
IsRead {A = A} o = (a : A) × (o ≡ some a)

from_some : {A : Type 0} (o : Option A) → is_some o ≡ true → IsRead o
from_some none h = cc
from_some (some a) h = (a, refl)

buffer2bin_loop-some :
    (r : ℕ) (l : List ℕ) (ret : ℕ) → r ≤ length l → IsRead (buffer2bin_loop r l ret)
unfolding buffer2bin_loop
buffer2bin_loop-some zero l ret h = (ret, refl)
buffer2bin_loop-some (suc r) [] ret h = absurd (omega arith)
buffer2bin_loop-some (suc r) (b ∷ l) ret h =
    buffer2bin_loop-some r l (bit_or ret (u32 (b * 2 ^ (8 * r)))) (omega arith)

-- A number of `n` bytes behind the first `i` ones.
number :
    (buf : List ℕ) (i n : ℕ)
    → (n == 0) ≡ false
    → i + n ≤ length buf
    → IsRead (buffer2bin (drop i buf) n)
unfolding buffer2bin
number buf i n some_bytes h =
    rw some_bytes (buffer2bin_loop-some n (drop i buf) 0 (omega (arith, length-drop i buf)))

see_keys-some :
    (r j : ℕ) (bytes : List ℕ) (s : Buttons.Buttons)
    → r ≤ length bytes
    → IsRead (Buttons.see_keys r j bytes s)
unfolding Buttons.see_keys
see_keys-some zero j bytes s h = ((s, []), refl)
see_keys-some (suc r) j [] s h = absurd (omega arith)
see_keys-some (suc r) j (key ∷ bytes) s h =
    let (s', events) = Buttons.see_key j key s in
    let ((s'', more), seen) = see_keys-some r (j + 1) bytes s' (omega arith) in
    ((s'', events ++ more), rw (seen))

within-some :
    {C : Type 0} (f : C → Device) (o : Parsed C) → is_some o ≡ true → is_some (within f o) ≡ true
unfolding within
within-some f none h = h
within-some f (some a) h = refl

module _ (buf : List ℕ) (h : 8 ≤ length buf) where
  byte : (i : ℕ) → i < 8 → IsRead (get_elem? buf i)
  byte i low = get_elem?-some buf i (omega (arith, h))

  drive-some : (len : ℕ) (d : Drive.Drive) → is_some (Drive.parse_can_data buf len d) ≡ true
  unfolding Drive.parse_can_data
  drive-some len d =
      let (c, b0) = byte 0 (omega arith) in
      let (run, b1) = byte 1 (omega arith) in
      let (turn, b2) = byte 2 (omega arith) in
      let (n1, e1) = number buf 1 1 refl (omega (arith, h)) in
      let (n2, e2) = number buf 2 2 refl (omega (arith, h)) in
      let (n4, e4) = number buf 4 2 refl (omega (arith, h)) in
      let (n6, e6) = number buf 6 2 refl (omega (arith, h)) in
      ground (arith, b0, b1, b2, e1, e2, e4, e6)

  lifter-some : (len : ℕ) (d : Lifter.Lifter) → is_some (Lifter.parse_can_data buf len d) ≡ true
  unfolding Lifter.parse_can_data
  lifter-some len d =
      let (c, b0) = byte 0 (omega arith) in
      let (status, b3) = byte 3 (omega arith) in
      let (n1, e1) = number buf 1 2 refl (omega (arith, h)) in ground (arith, b0, b3, e1)

  cargo-some : (len : ℕ) (d : Panel.Cargo) → is_some (Panel.parse_cargo buf len d) ≡ true
  unfolding Panel.parse_cargo
  cargo-some len d =
      let (c, b0) = byte 0 (omega arith) in
      let (a, b1) = byte 1 (omega arith) in
      let (b, b2) = byte 2 (omega arith) in ground (arith, b0, b1, b2)

  card-some : (len : ℕ) (d : Panel.RfidReader) → is_some (Panel.parse_card buf len d) ≡ true
  unfolding Panel.parse_card
  card-some len d =
      let (c, b0) = byte 0 (omega arith) in
      let (type, b1) = byte 1 (omega arith) in
      let (n2, e2) = number buf 2 2 refl (omega (arith, h)) in ground (arith, b0, b1, e2)

  mag-some : (len : ℕ) (d : Panel.MagSensor) → is_some (Panel.parse_mag buf len d) ≡ true
  unfolding Panel.parse_mag
  mag-some len d =
      let (n1, e1) = number buf 1 2 refl (omega (arith, h)) in
      let (n4, e4) = number buf 1 4 refl (omega (arith, h)) in ground (arith, e1, e4)

  nail-some : (len : ℕ) (d : Panel.MagNailSensor) → is_some (Panel.parse_nail buf len d) ≡ true
  unfolding Panel.parse_nail
  nail-some len d =
      let (c, b0) = byte 0 (omega arith) in
      let (n1, e1) = number buf 1 2 refl (omega (arith, h)) in ground (arith, b0, e1)

  buttons-some : (len : ℕ) (d : Buttons.Buttons) → is_some (Buttons.parse_can_data buf len d) ≡ true
  unfolding Buttons.parse_can_data
  buttons-some len d =
      let (c, b0) = byte 0 (omega arith) in
      let (seen, e) = see_keys-some 4 0 (drop 1 buf) d (omega (arith, h, length-drop 1 buf)) in
      ground (arith, b0, e)

  plain-some : (len : ℕ) (d : Device) → is_some (parse_plain len d) ≡ true
  unfolding parse_plain
  plain-some len d = ground arith

  device-some : (len : ℕ) (d : Device) → is_some (parse_device buf len d) ≡ true
  unfolding parse_device Barrier.parse_can_data
  device-some len (drive d) = within-some drive (Drive.parse_can_data buf len d) (drive-some len d)
  device-some len (lifter d) =
      within-some lifter (Lifter.parse_can_data buf len d) (lifter-some len d)
  device-some len (barrier d) = within-some barrier (Barrier.parse_can_data buf len d) refl
  device-some len (buttons d) =
      within-some buttons (Buttons.parse_can_data buf len d) (buttons-some len d)
  device-some len (cargo d) = within-some cargo (Panel.parse_cargo buf len d) (cargo-some len d)
  device-some len (rfid_reader d) =
      within-some rfid_reader (Panel.parse_card buf len d) (card-some len d)
  device-some len (mag_sensor d) =
      within-some mag_sensor (Panel.parse_mag buf len d) (mag-some len d)
  device-some len (mag_nail d) = within-some mag_nail (Panel.parse_nail buf len d) (nail-some len d)
  device-some len plain = plain-some len plain

-- Whatever length is announced, ParseCanData of no class reads outside of an array of eight bytes or more.
pub parse_device-IsRead :
    (buf : List ℕ) (len : ℕ) (d : Device) → 8 ≤ length buf → IsRead (parse_device buf len d)
parse_device-IsRead buf len d h = from_some (parse_device buf len d) (device-some buf h len d)

abbrev pub device_parser : Parser Device
device_parser = record {
  parse = parse_device;
  total = λ buf len own size. parse_device-IsRead buf len own (omega (arith, size));
}
