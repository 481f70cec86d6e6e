-- ===== src/Sensor/Barrier/Positions.antt =====
-- devices/canbus/AgvSensor.cpp: SetSensorPos and GetSensorPos.
use hxdl_driving_control.Prelude.{
  ℕ, ◌<◌, ◌≡◌, refl, inl, inr, List, [], ◌∷◌, true, false, ◌&&◌, some, arith, ◌==◌, if◌then◌else◌,
  Bool-cases,
}
use hxdl_driving_control.Sensor.Barrier.{Barrier, dev_of, find, put, set_sensor_pos, get_sensor_pos}

find-put :
    (dev dev' v : ℕ) (entries : List (ℕ × ℕ))
    → find dev' (put dev v entries) ≡ (if dev == dev' then some v else find dev' entries)
unfolding find put
find-put dev dev' v [] = refl
find-put dev dev' v ((k, w) ∷ entries) = ground (arith, find-put dev dev' v entries)

-- Of sensors with numbers below 16, the one whose position was set has it, and every other one keeps its
-- own.
get_sensor_pos-set_sensor_pos :
    (type id type' id' place : ℕ) (b : Barrier)
    → id < 16
    → id' < 16
    → get_sensor_pos type' id' (set_sensor_pos type id place b)
      ≡ (if type == type' && id == id' then place else get_sensor_pos type' id' b)
unfolding get_sensor_pos set_sensor_pos
get_sensor_pos-set_sensor_pos type id type' id' place b h h' =
    let found = find-put (dev_of type id) (dev_of type' id') place b.barrier_pos_map in
    elim (Bool-cases (type == type' && id == id')) [
      | inl same ↦
          let equal : (dev_of type id == dev_of type' id') ≡ true = ground arith in
          rw (same, get_sensor_pos, set_sensor_pos, found, equal)
      | inr other ↦
          let apart : (dev_of type id == dev_of type' id') ≡ false = ground arith in
          rw (other, get_sensor_pos, set_sensor_pos, found, apart)
    ]
