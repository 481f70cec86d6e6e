-- ===== src/Manager/Online.antt =====
-- devices/canbus/AgvSensorManager.cpp: HandleEvent and HandlerData in any order, for all the sensors.
use mathlib.Core.Path.{subst}
use hxdl_driving_control.Prelude.{
  ℕ, ◌<◌, ◌≡◌, refl, sym, ap, ap₂, ◌∙◌, List, [], ◌∷◌, ◌++◌, map, false, Option, some, arith, All,
  length,
}
use hxdl_driving_control.Wire.{◌>>=◌}
use hxdl_driving_control.Event.{same_event, value_of}
use hxdl_driving_control.Sensor.{SensorEvent}
use hxdl_driving_control.Manager.{
  Entry, Manager, age_entry, handle_event, handle_entries, handler_data,
}
use hxdl_driving_control.Manager.Silence.{
  Parser, Input, tick, data_in, timer_event, IsInput, since, silence, is_online, Tracks, age-Tracks,
  handle_entry-Handled,
}

module _ {C : Type 0} (p : Parser C) where
  abbrev pub Tracked : List Input → List (Entry C) → Type 0
  Tracked inputs entries =
      All (λ e. Tracks e.sensor.can (silence e.sensor.can.r_can_id inputs)) entries

  abbrev pub addresses : List (Entry C) → List ℕ
  addresses entries = map (λ e. e.address) entries

  Tracks-since :
      (i : Input) (inputs : List Input) (e out : Entry C)
      → out.sensor.can.r_can_id ≡ e.sensor.can.r_can_id
      → Tracks out.sensor.can (since e.sensor.can.r_can_id i (silence e.sensor.can.r_can_id inputs))
      → Tracks out.sensor.can (silence out.sensor.can.r_can_id (i ∷ inputs))
  Tracks-since i inputs e out same t =
      subst (λ r. Tracks out.sensor.can (since r i (silence r inputs))) (sym same) t

  record AllHandled (o : Option (List (Entry C) × List SensorEvent)) (entries : List (Entry C))
      (inputs : List Input) : Type 0 where
    outs : List (Entry C)
    events : List SensorEvent
    done : o ≡ some (outs, events)
    same : addresses outs ≡ addresses entries
    tracked : Tracked inputs outs

  handle_entries-AllHandled :
      (can_id len : ℕ) (buf : List ℕ) (inputs : List Input) (entries : List (Entry C))
      → length buf ≡ 2048
      → Tracked inputs entries
      → AllHandled
          (handle_entries p.parse can_id buf len entries)
          entries
          (data_in can_id buf len ∷ inputs)
  unfolding handle_entries
  handle_entries-AllHandled can_id len buf inputs [] size t = record {
    outs = [];
    events = [];
    done = refl;
    same = refl;
    tracked = tt;
  }
  handle_entries-AllHandled can_id len buf inputs (e ∷ entries) size t =
      let h =
        handle_entry-Handled p can_id len buf e (silence e.sensor.can.r_can_id inputs) size t.0 in
      let hs = handle_entries-AllHandled can_id len buf inputs entries size t.1 in
      record {
        outs = h.out ∷ hs.outs;
        events = h.events ++ hs.events;
        done = rw (h.done, handle_entries, hs.done);
        same = ap₂ (λ a l. a ∷ l) h.same.0 hs.same;
        tracked =
            (Tracks-since (data_in can_id buf len) inputs e h.out h.same.1 h.tracks, hs.tracked);
      }

  age-Tracked :
      (inputs : List Input) (entries : List (Entry C))
      → Tracked inputs entries
      → (addresses (map age_entry entries) ≡ addresses entries)
        × Tracked (tick ∷ inputs) (map age_entry entries)
  unfolding age_entry
  age-Tracked inputs [] t = (refl, tt)
  age-Tracked inputs (e ∷ entries) t =
      let (kept, tracks) = age-Tracks e.sensor.can (silence e.sensor.can.r_can_id inputs) t.0 in
      let (same, tracked) = age-Tracked inputs entries t.1 in
      (
        ap (λ l. e.address ∷ l) same,
        (Tracks-since tick inputs e (age_entry e) kept tracks, tracked),
      )

  handle_event-sensor_list :
      (m : Manager C) → (handle_event timer_event m).0.sensor_list ≡ map age_entry m.sensor_list
  unfolding handle_event same_event value_of
  handle_event-sensor_list m = ground arith

  -- What an input makes of the manager.
  unfoldable pub step : Input → Manager C → Option (Manager C)
  step tick m = some (handle_event timer_event m).0
  step (data_in can_id buf len) m =
      handler_data p.parse can_id buf len m >>= λ (m', events). some m'

  -- The newest input is the first.
  unfoldable pub run : List Input → Manager C → Option (Manager C)
  run [] m = some m
  run (i ∷ inputs) m = run inputs m >>= step i

  step-Tracked :
      (i : Input) (inputs : List Input) (m : Manager C)
      → IsInput i
      → Tracked inputs m.sensor_list
      → (m' : Manager C) × (step i m ≡ some m')
        × (addresses m'.sensor_list ≡ addresses m.sensor_list)
        × Tracked (i ∷ inputs) m'.sensor_list
  unfolding step handler_data
  step-Tracked tick inputs m h t =
      let (same, tracked) = age-Tracked inputs m.sensor_list t in
      let aged = handle_event-sensor_list m in
      (
        (handle_event timer_event m).0,
        refl,
        ap addresses aged ∙ same,
        subst (Tracked (tick ∷ inputs)) (sym aged) tracked,
      )
  step-Tracked (data_in can_id buf len) inputs m h t =
      let hs = handle_entries-AllHandled can_id len buf inputs m.sensor_list h t in
      (record m { sensor_list = hs.outs }, rw (hs.done, step, handler_data), hs.same, hs.tracked)

  abbrev pub IsOffline : Entry C → Type 0
  IsOffline e = (e.sensor.can.is_alive ≡ false) × (e.sensor.can.heart_beat_counter < 50)

  run-Tracked :
      (inputs : List Input) (m : Manager C)
      → All IsInput inputs
      → All IsOffline m.sensor_list
      → (m' : Manager C) × (run inputs m ≡ some m')
        × (addresses m'.sensor_list ≡ addresses m.sensor_list)
        × Tracked inputs m'.sensor_list
  unfolding run
  run-Tracked [] m hi h = (m, refl, refl, start m.sensor_list h)
    where
      start : (entries : List (Entry C)) → All IsOffline entries → Tracked [] entries
      start [] h = tt
      start (e ∷ entries) h = ((h.0.0, h.0.1, λ n e. ground (arith, e)), start entries h.1)
  run-Tracked (i ∷ inputs) m hi h =
      let (m1, ran, same1, t) = run-Tracked inputs m hi.1 h in
      let (m2, stepped, same2, t2) = step-Tracked i inputs m1 hi.0 t in
      (m2, ap (λ o. o >>= step i) ran ∙ stepped, same2 ∙ same1, t2)

  Tracked-online :
      (inputs : List Input) (entries : List (Entry C))
      → Tracked inputs entries
      → All (λ e. e.sensor.can.is_alive ≡ is_online (silence e.sensor.can.r_can_id inputs)) entries
  Tracked-online inputs [] t = tt
  Tracked-online inputs (e ∷ entries) t = (t.0.0, Tracked-online inputs entries t.1)

  -- From sensors that are offline with counters below 50, any row of timer events and of calls of
  -- HandlerData with arrays of 2048 bytes goes through without a fault, if no class's ParseCanData has one;
  -- the sensors stay the same, and each is online exactly when it was heard and the timer's events since it
  -- was heard last are fewer than 50.
  pub run-online :
      (inputs : List Input) (m : Manager C)
      → All IsInput inputs
      → All IsOffline m.sensor_list
      → (m' : Manager C) × (run inputs m ≡ some m')
        × (addresses m'.sensor_list ≡ addresses m.sensor_list)
        × All
            (λ e. e.sensor.can.is_alive ≡ is_online (silence e.sensor.can.r_can_id inputs))
            m'.sensor_list
  run-online inputs m hi h =
      let (m', ran, same, t) = run-Tracked inputs m hi h in
      (m', ran, same, Tracked-online inputs m'.sensor_list t)
