-- ===== src/Sensor/Barrier.antt =====
-- devices/canbus/AgvSensor.cpp: CAgvBarrierSensor. Its ParseCanData returns at its first line; what stands
-- behind that is left out. A map is the list of its entries.
pub mod Positions
use hxdl_driving_control.Prelude.{
  ℕ, ◌+◌, ◌*◌, ◌/◌, ◌%◌, List, [], ◌∷◌, Bool, true, false, ◌&&◌, ◌||◌, Option, none, some, ltb,
  ◌==◌, if◌then◌else◌,
}
use hxdl_driving_control.Prelude.Int.{ℤ, pos, negsuc, ltb_ℤ}
use hxdl_driving_control.Wire.{byte_of}
use hxdl_driving_control.Can.Sending.{CanFrame, SystemWrite}
use hxdl_driving_control.Sensor.{CanSensor, Sent, send_data, SensorEvent, Parsed}

-- `SensorType`, `BarrierStatus` and `BarrierPos`, as far as they are named here.
abbrev pub laser : ℕ
laser = 2

abbrev pub touch : ℕ
touch = 4

abbrev pub crash_barrier : ℕ
crash_barrier = 5

abbrev pub unkown : ℕ
unkown = 0

abbrev pub front : ℕ
front = 1

abbrev pub back : ℕ
back = 2

-- `lastDistance` is static: the program makes one object of the class.
pub record Barrier : Type 0 where
  pub barrier_status : List (ℕ × ℕ)
  pub barrier_pos_map : List (ℕ × ℕ)
  pub last_distance : ℤ

-- `(type << 4) + id`.
abbrev pub dev_of : ℕ → ℕ → ℕ
dev_of type id = type * 16 + id

unfoldable pub find : ℕ → List (ℕ × ℕ) → Option ℕ
find dev [] = none
find dev ((k, v) ∷ entries) = if k == dev then some v else find dev entries

-- The entry found is changed; else one is inserted.
unfoldable pub put : ℕ → ℕ → List (ℕ × ℕ) → List (ℕ × ℕ)
put dev v [] = (dev, v) ∷ []
put dev v ((k, w) ∷ entries) =
    let rest = put dev v entries in if k == dev then (k, v) ∷ entries else (k, w) ∷ rest

unfoldable pub set_sensor_pos : ℕ → ℕ → ℕ → Barrier → Barrier
set_sensor_pos type id place b = record b {
  barrier_pos_map = put (dev_of type id) place b.barrier_pos_map;
}

unfoldable pub get_sensor_pos : ℕ → ℕ → Barrier → ℕ
get_sensor_pos type id b = elim (find (dev_of type id) b.barrier_pos_map) [
  | none ↦ unkown
  | some place ↦ place
]

unfoldable pub new_barrier : Barrier
unfolding set_sensor_pos
new_barrier =
    let empty : Barrier = record {
      barrier_status = [];
      barrier_pos_map = [];
      last_distance = negsuc 0;
    } in
    set_sensor_pos touch 3 back (
      set_sensor_pos touch 1 back (
        set_sensor_pos touch 4 front (
          set_sensor_pos touch 2 front
            (set_sensor_pos laser 1 front (set_sensor_pos crash_barrier 1 front empty)))))

-- Whether a device counts for a side.
unfoldable pub is_at : ℕ → ℕ → Barrier → Bool
is_at side dev b = side == unkown || side == get_sensor_pos (dev / 16) (dev % 16) b

-- The loop over the status of every device, with the worst one so far.
unfoldable pub worst_of : ℕ → Barrier → List (ℕ × ℕ) → ℕ → ℕ
worst_of side b [] status = status
worst_of side b ((dev, v) ∷ entries) status =
    let here = is_at side dev b && ltb status v in
    worst_of side b entries (if here then v else status)

unfoldable pub get_barrier_error : ℕ → Barrier → ℕ
get_barrier_error side b = worst_of side b b.barrier_status 0

unfoldable pub parse_can_data : List ℕ → ℕ → Barrier → Parsed Barrier
parse_can_data buf len b = some (pos 0, b, [])

-- A distance that is the last one is not sent again.
unfoldable pub set_barrier_distance :
    SystemWrite → ℤ → ℤ → ℤ → ℤ → CanSensor → Barrier → List CanFrame → Sent × Barrier
set_barrier_distance fails type id status distance s b frames =
    if ltb_ℤ b.last_distance distance || ltb_ℤ distance b.last_distance
    then (
      send_data fails (0x01 ∷ byte_of type ∷ byte_of id ∷ byte_of status ∷ byte_of distance ∷ []) s
          frames,
      record b { last_distance = distance },
    )
    else ((pos 0, frames), b)

unfoldable pub reset_barrier_error : SystemWrite → CanSensor → List CanFrame → Sent
reset_barrier_error fails = send_data fails (0x02 ∷ [])
