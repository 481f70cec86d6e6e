-- ===== src/Sensor/Hmi.antt =====
-- devices/canbus/AgvSensor.cpp: CAgvHMISensor, the display. The settings are a parameter's work: what is saved
-- is an effect here. WriteHMIPara, which sends the settings to the display, is left out but for its call, and
-- so is the number that ParseCanData returns, since it ends without a return.
pub mod Address
pub mod Identifier
use hxdl_driving_control.Prelude.{
  ℕ, zero, suc, ◌+◌, ◌-◌, ◌*◌, ◌/◌, ◌%◌, ◌≤◌, List, [], ◌∷◌, ◌++◌, replicate, Bool, true, false,
  ◌&&◌, ◌||◌, Option, none, some, ltb, leb, ◌==◌, if◌then◌else◌, length, take, get_elem?, set,
}
use hxdl_driving_control.Prelude.Int.{ℤ, pos, negsuc}
use hxdl_driving_control.Wire.{◌>>=◌, byte_of, int_of, u32}
use hxdl_driving_control.Event.{urgent, normal, ev_turn_on_charge, ev_turn_off_charge}
use hxdl_driving_control.Can.Sending.{CanFrame, SystemWrite}
use hxdl_driving_control.Sensor.{CanSensor, Sent, send_data, SensorEvent, event_of}

-- The names of the settings.
pub data Section : Type 0 where
  volume speed forward_speed server_port id server_ip pid repair_mode battery_type use_dhcp
        local_ip :
      Section

-- What ParseCanData does outside of the object: SaveSectionValue with a number or a text, an event, and
-- the call of WriteHMIPara.
pub data Effect : Type 0 where
  save_value : Section → ℕ → Effect
  save_text : Section → List ℕ → Effect
  send : SensorEvent → Effect
  write_para : Effect

-- The arrays `ServerIp` and `LocalrIp`, which are static.
pub record Hmi : Type 0 where
  pub server_ip : List ℕ
  pub local_ip : List ℕ

unfoldable pub new_hmi : Hmi
new_hmi = record { server_ip = replicate 16 0; local_ip = replicate 16 0 }

-- `%d` of a number of at most `r + 1` digits, in ASCII.
unfoldable pub digits : ℕ → ℕ → List ℕ
digits zero n = (0x30 + n % 10) ∷ []
digits (suc r) n =
    let rest = digits r (n / 10) in
    if ltb n 10 then (0x30 + n) ∷ [] else rest ++ (0x30 + n % 10) ∷ []

unfoldable pub print_int : ℤ → List ℕ
print_int (pos n) = digits 9 n
print_int (negsuc n) = 0x2D ∷ digits 9 (suc n)

-- `sprintf` into an array of `size` bytes, which the text and its end must fit.
unfoldable pub sprintf : ℕ → ℤ → Option (List ℕ)
sprintf size n = let text = print_int n in if leb (length text + 1) size then some text else none

-- The bytes of the array that are not spaces.
unfoldable pub count_text : List ℕ → ℕ
count_text [] = 0
count_text (b ∷ bytes) = let rest = count_text bytes in if b == 0x20 then rest else suc rest

-- The text up to its end.
unfoldable pub until_zero : List ℕ → List ℕ
until_zero [] = []
until_zero (b ∷ bytes) = let rest = until_zero bytes in if b == 0 then [] else b ∷ rest

-- The text of an address: one byte more than the text has is copied.
unfoldable pub address_text : List ℕ → Option (List ℕ)
address_text ip =
    let n = count_text ip in if leb (n + 1) (length ip) then some (until_zero (take n ip)) else none

-- A part of an address, two bytes of the array; the eighth one ends it.
unfoldable pub address_part : Section → ℕ → ℕ → ℕ → List ℕ → Option (List ℕ × List Effect)
address_part section part a b ip =
    if leb 1 part && leb part 8
    then (let i = 2 * (part - 1) in
        let ip' = set (set ip i a) (i + 1) b in
        if part == 8
        then (address_text ip' >>= λ text. some (ip', save_text section text ∷ []))
        else some (ip', []))
    else some (ip, [])

-- `((Speed * 100) / 62.8) / 0.075` as an int.
unfoldable pub forward_speed_of : ℕ → ℕ
forward_speed_of v = v * 10000 / 471

unfoldable pub charging : ℕ → List Effect
charging cmd =
    if cmd == 0
    then send (event_of urgent ev_turn_off_charge (pos 0)) ∷ []
    else if cmd == 1
    then send (event_of normal ev_turn_on_charge (pos 0)) ∷ []
    else []

-- The commands that save a number; 0x13 falls through to 0x14.
unfoldable pub save_number : ℕ → ℕ → Option (List Effect)
save_number c b =
    if c == 0x01
    then some (save_value volume b ∷ [])
    else if c == 0x02
    then some (save_value speed b ∷ save_value forward_speed (forward_speed_of b) ∷ [])
    else if c == 0x11
    then some (save_value repair_mode b ∷ [])
    else if c == 0x12
    then some (save_value battery_type b ∷ [])
    else if c == 0x13
    then some (charging b ++ save_value use_dhcp b ∷ [])
    else if c == 0x14
    then some (save_value use_dhcp b ∷ [])
    else none

unfoldable pub parse_id : List ℕ → Option (List Effect)
parse_id buf = get_elem? buf 1 >>= λ a.
    get_elem? buf 2 >>= λ b. sprintf 2 (pos (a * 256 + b)) >>= λ text. some (save_text id text ∷ [])

unfoldable pub parse_pid : List ℕ → Option (List Effect)
parse_pid buf = get_elem? buf 1 >>= λ a. get_elem? buf 2 >>= λ b. get_elem? buf 3 >>= λ c.
    get_elem? buf 4 >>= λ d. sprintf 4 (int_of (a * 16777216 + b * 65536 + c * 256 + d)) >>= λ text.
    some (save_text pid text ∷ [])

unfoldable pub parse_port : List ℕ → Option (List Effect)
parse_port buf = get_elem? buf 1 >>= λ a.
    get_elem? buf 2 >>= λ b. some (save_value server_port (a * 256 + b) ∷ [])

unfoldable pub parse_address : Section → List ℕ → List ℕ → Option (List ℕ × List Effect)
parse_address section buf ip = get_elem? buf 1 >>= λ part.
    get_elem? buf 2 >>= λ a. get_elem? buf 3 >>= λ b. address_part section part a b ip

-- The object and its effects; `none` is an access outside of an array. `len` is not looked at.
unfoldable pub parse_can_data : List ℕ → ℕ → Hmi → Option (Hmi × List Effect)
parse_can_data buf len h = get_elem? buf 0 >>= λ c. get_elem? buf 1 >>= λ b.
    if c == 0x07
    then (parse_port buf >>= λ effects. some (h, effects))
    else if c == 0x08
    then (parse_id buf >>= λ effects. some (h, effects))
    else if c == 0x09
    then (parse_address server_ip buf h.server_ip >>= λ (ip, effects).
        some (record h { server_ip = ip }, effects))
    else if c == 0x0A
    then (parse_pid buf >>= λ effects. some (h, effects))
    else if c == 0x15
    then (parse_address local_ip buf h.local_ip >>= λ (ip, effects).
        some (record h { local_ip = ip }, effects))
    else if c == 0x81
    then some (h, if b == 0xFF then write_para ∷ [] else [])
    else elim (save_number c b) [ some effects ↦ some (h, effects) | none ↦ some (h, []) ]

unfoldable pub show_battery_capacity : SystemWrite → ℤ → CanSensor → List CanFrame → Sent
show_battery_capacity fails capacity = send_data fails (0x82 ∷ 0x01 ∷ byte_of capacity ∷ [])

unfoldable pub show_net_state : SystemWrite → ℤ → CanSensor → List CanFrame → Sent
show_net_state fails state = send_data fails (0x82 ∷ 0x02 ∷ byte_of state ∷ [])

unfoldable pub show_car_state : SystemWrite → ℤ → CanSensor → List CanFrame → Sent
show_car_state fails state = send_data fails (0x82 ∷ 0x03 ∷ byte_of state ∷ [])
