-- ===== src/Manager/Silence.antt =====
-- devices/canbus/AgvSensorManager.cpp: which sensors are online, under any order of the timer and of the
-- bus's data.
use hxdl_driving_control.Prelude.{
  ℕ, suc, ◌+◌, ◌<◌, ◌≡◌, refl, inl, inr, List, [], ◌∷◌, Bool, false, Option, none, some, arith, ltb,
  ◌==◌, if◌then◌else◌, length, zero, ◌&&◌, get_elem?, Bool-cases,
}
use hxdl_driving_control.Prelude.Int.{ℤ, pos}
use hxdl_driving_control.Event.{ev_100ms_timer, normal}
use hxdl_driving_control.Sensor.{
  CanSensor, Sensor, SensorEvent, event_of, Parsed, heard, is_heart_beat, parse_data,
}
use hxdl_driving_control.Manager.{Entry, age, is_for, handle_entry}

-- The virtual function ParseCanData, which does not read outside of an array of 2048 bytes.
pub record Parser (C : Type 0) : Type 0 where
  pub parse : List ℕ → ℕ → C → Parsed C
  pub total :
      (buf : List ℕ) (len : ℕ) (own : C)
      → length buf ≡ 2048
      → (r : ℤ × C × List SensorEvent) × (parse buf len own ≡ some r)

-- What reaches the manager: a tick of the timer, or a call of HandlerData.
pub data Input : Type 0 where
  tick : Input
  data_in : ℕ → List ℕ → ℕ → Input

abbrev pub timer_event : SensorEvent
timer_event = event_of normal ev_100ms_timer (pos 0)

abbrev pub IsInput : Input → Type 0
IsInput tick = Unit
IsInput (data_in can_id buf len) = length buf ≡ 2048

-- The ticks since a sensor was heard last, if it was: heard is data that is for it, heart beats too.
abbrev pub since : ℕ → Input → Option ℕ → Option ℕ
since r_can_id tick none = none
since r_can_id tick (some n) = some (n + 1)
since r_can_id (data_in can_id buf len) o =
    if is_for can_id r_can_id then (if len == 0 then o else some 0) else o

-- After some inputs, the newest of them first.
abbrev pub silence : ℕ → List Input → Option ℕ
silence r_can_id [] = none
silence r_can_id (i ∷ inputs) = since r_can_id i (silence r_can_id inputs)

-- Heard, and less than 50 ticks ago.
abbrev pub is_online : Option ℕ → Bool
is_online none = false
is_online (some n) = ltb n 50

abbrev pub Tracks : CanSensor → Option ℕ → Type 0
Tracks s o =
    (s.is_alive ≡ is_online o)
    × (s.heart_beat_counter < 50)
    × ((n : ℕ) → o ≡ some n → n < 50 → s.heart_beat_counter ≡ n)

pub age-Tracks :
    (s : CanSensor) (o : Option ℕ)
    → Tracks s o
    → ((age s).r_can_id ≡ s.r_can_id) × Tracks (age s) (since s.r_can_id tick o)
unfolding age
age-Tracks s none (alive, low, counts) = ground (arith, alive)
age-Tracks s (some n) (alive, low, counts) = elim (Bool-cases (ltb n 50)) [
  | inl fresh ↦
      let count : s.heart_beat_counter ≡ n = counts n refl (ground arith) in
      ground (arith, alive, count)
  | inr stale ↦ ground (arith, alive, stale)
]

heard-Tracks : (s : CanSensor) → Tracks (heard s) (some 0)
heard-Tracks s = (refl, omega arith, λ n e h. ground (arith, e))

pub get_elem?-some : (l : List ℕ) (i : ℕ) → i < length l → (v : ℕ) × (get_elem? l i ≡ some v)
get_elem?-some [] i h = absurd (omega arith)
get_elem?-some (x ∷ l) zero h = (x, refl)
get_elem?-some (x ∷ l) (suc i) h = get_elem?-some l i (omega arith)

module _ {C : Type 0} (p : Parser C) where
  parse_data-heard :
      (buf : List ℕ) (len : ℕ) (s : Sensor C)
      → length buf ≡ 2048
      → (len == 0) ≡ false
      → (ret : ℤ) × (own : C) × (events : List SensorEvent) × (parse_data p.parse buf len s
          ≡ some (ret, record { can = heard s.can; own = own }, events))
  unfolding parse_data is_heart_beat
  parse_data-heard buf len s size data_ =
      let ((ret, own, events), parsed) = p.total buf len s.own size in
      let (a, first) = get_elem?-some buf 0 (omega (arith, size)) in
      let (b, second) = get_elem?-some buf 1 (omega (arith, size)) in
      elim (Bool-cases (len == 2)) [
        | inr other ↦ (ret, own, events, rw (data_, parse_data, other, parsed))
        | inl two ↦ elim (Bool-cases (a == 0xFF && b == 0xFF)) [
          | inl beat ↦ (pos 0, s.own, [], rw (data_, parse_data, two, first, second, beat))
          | inr no_beat ↦
              (ret, own, events, rw (data_, parse_data, two, first, second, no_beat, parsed))
        ]
      ]

  -- An entry's result keeps the identifier and the address, and tracks the silence.
  pub record Handled (o : Option (Entry C × List SensorEvent)) (e : Entry C) (quiet : Option ℕ)
      : Type 0 where
    pub out : Entry C
    pub events : List SensorEvent
    pub done : o ≡ some (out, events)
    pub same : (out.address ≡ e.address) × (out.sensor.can.r_can_id ≡ e.sensor.can.r_can_id)
    pub tracks : Tracks out.sensor.can quiet

  pub handle_entry-Handled :
      (can_id len : ℕ) (buf : List ℕ) (e : Entry C) (o : Option ℕ)
      → length buf ≡ 2048
      → Tracks e.sensor.can o
      → Handled
          (handle_entry p.parse can_id buf len e)
          e
          (since e.sensor.can.r_can_id (data_in can_id buf len) o)
  unfolding handle_entry parse_data
  handle_entry-Handled can_id len buf e o size t =
      elim (Bool-cases (is_for can_id e.sensor.can.r_can_id)) [
        | inr other ↦
            rw (other, handle_entry)
              (record { out = e; events = []; done = refl; same = (refl, refl); tracks = t })
        | inl hit ↦ elim (Bool-cases (len == 0)) [
          | inl no_data ↦
              rw (hit, handle_entry, parse_data, no_data)
                (record { out = e; events = []; done = refl; same = (refl, refl); tracks = t })
          | inr data_ ↦
              let (ret, own, events, parsed) = parse_data-heard buf len e.sensor size data_ in
              rw (hit, handle_entry, parsed, data_)
                (record {
                  out = record e { sensor = record { can = heard e.sensor.can; own = own } };
                  events = events;
                  done = refl;
                  same = (refl, refl);
                  tracks = heard-Tracks e.sensor.can;
                })
        ]
      ]
