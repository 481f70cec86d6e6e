-- ===== src/Sensor/Lifter/Repeat.antt =====
-- devices/canbus/AgvSensor.cpp: a frame of the lifter that is received again.
use hxdl_driving_control.Prelude.{
  ℕ, ◌≤◌, ◌≡◌, refl, ap, ◌∙◌, inl, inr, List, [], ◌++◌, false, some, arith, ltb, ◌==◌, drop,
  get_elem?, Bool-cases,
}
use hxdl_driving_control.Prelude.Int.{ℤ, pos, negsuc}
use hxdl_driving_control.Wire.{buffer2bin}
use hxdl_driving_control.Sensor.{SensorEvent}
use hxdl_driving_control.Sensor.Lifter.{
  Lifter, lift_is_arrived, lift_is_at_bottom, lift_is_at_top, check_target, note_height,
  note_status, parse_can_data,
}

check_target-height :
    (target : ℤ) (l : Lifter)
    → l.current_height ≤ 60000
    → ((check_target target l).0.current_height ≡ l.current_height)
unfolding check_target lift_is_arrived
check_target-height (negsuc n) l h = refl
check_target-height (pos n) l h = ground arith

note_height-height :
    (height : ℕ) (l : Lifter) → height ≤ 60000 → (note_height height l).0.current_height ≡ height
unfolding note_height
note_height-height height l h = elim (Bool-cases (height == l.current_height)) [
  | inl same ↦ ground arith
  | inr new ↦
      rw (new, note_height)
        (check_target-height l.target_height (record l { current_height = height }) h)
]

note_height_known :
    (height : ℕ) (l : Lifter) → l.current_height ≡ height → note_height height l ≡ (l, [])
unfolding note_height
note_height_known height l h = ground arith

note_status-height :
    (status : ℕ) (l : Lifter) → (note_status status l).0.current_height ≡ l.current_height
unfolding note_status
note_status-height status l = ground arith

note_status_again :
    (status : ℕ) (l : Lifter)
    → note_status status (note_status status l).0 ≡ ((note_status status l).0, [])
unfolding note_status lift_is_at_bottom lift_is_at_top
note_status_again status l = ground arith

parse_report :
    (buf : List ℕ) (len height status : ℕ) (l : Lifter)
    → get_elem? buf 0 ≡ some 0x01
    → 5 ≤ len
    → buffer2bin (drop 1 buf) 2 ≡ some height
    → get_elem? buf 3 ≡ some status
    → parse_can_data buf len l
      ≡ some (
        pos 4,
        (note_status status (note_height height l).0).0,
        (note_height height l).1 ++ (note_status status (note_height height l).0).1,
      )
unfolding parse_can_data
parse_report buf len height status l kind long h s =
    let enough : ltb len 5 ≡ false = ground arith in rw (kind, parse_can_data, enough, h, s)

-- A report of the lifter with a height of at most 60000 is the new height; received again, it changes
-- nothing and sends no event, whatever the target is.
report_again :
    (buf : List ℕ) (len height status : ℕ) (l : Lifter)
    → get_elem? buf 0 ≡ some 0x01
    → 5 ≤ len
    → buffer2bin (drop 1 buf) 2 ≡ some height
    → get_elem? buf 3 ≡ some status
    → height ≤ 60000
    → (l' : Lifter) × (events : List SensorEvent) × (parse_can_data buf len l
        ≡ some (pos 4, l', events))
      × (parse_can_data buf len l' ≡ some (pos 4, l', []))
      × (l'.current_height ≡ height)
report_again buf len height status l kind long h s small =
    let l1 = (note_height height l).0 in
    let l2 = (note_status status l1).0 in
    let known : l2.current_height ≡ height =
      note_status-height status l1 ∙ note_height-height height l small in
    let same = note_height_known height l2 known in
    (
      l2,
      (note_height height l).1 ++ (note_status status l1).1,
      parse_report buf len height status l kind long h s,
      parse_report buf len height status l2 kind long h s
          ∙ ap (λ r. some (pos 4, (note_status status r.0).0, r.1 ++ (note_status status r.0).1))
              same
          ∙ ap (λ r. some (pos 4, r.0, r.1)) (note_status_again status l1),
      known,
    )
