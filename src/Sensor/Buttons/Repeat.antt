-- ===== src/Sensor/Buttons/Repeat.antt =====
-- devices/canbus/AgvSensor.cpp: a frame of the buttons that is received again.
use hxdl_driving_control.Prelude.{
  ℕ, ◌+◌, ◌≤◌, ◌≡◌, refl, sym, ap, ◌∙◌, inl, inr, List, [], ◌∷◌, ◌++◌, append_assoc, some, arith,
  ◌==◌, length, length-append, get_or, set, Bool-cases,
}
use hxdl_driving_control.Prelude.Int.{pos}
use hxdl_driving_control.Wire.{◌>>=◌}
use hxdl_driving_control.Sensor.{SensorEvent}
use hxdl_driving_control.Sensor.Buttons.{
  Buttons, auto_or_manual, lift_up_or_down, react, see_key, see_keys, parse_can_data,
}

react-key_status : (j key : ℕ) (s : Buttons) → (react j key s).0.key_status ≡ s.key_status
unfolding react auto_or_manual lift_up_or_down
react-key_status j key s = ground arith

get_or_at : (done todo : List ℕ) (old d : ℕ) → get_or (done ++ old ∷ todo) (length done) d ≡ old
get_or_at [] todo old d = refl
get_or_at (x ∷ done) todo old d = get_or_at done todo old d

set_at :
    (done todo : List ℕ) (old new : ℕ)
    → set (done ++ old ∷ todo) (length done) new ≡ done ++ new ∷ todo
set_at [] todo old new = refl
set_at (x ∷ done) todo old new = ap (λ l. x ∷ l) (set_at done todo old new)

see_key-key_status :
    (key old : ℕ) (done todo : List ℕ) (s : Buttons)
    → s.key_status ≡ done ++ old ∷ todo
    → (see_key (length done) key s).0.key_status ≡ done ++ key ∷ todo
unfolding see_key
see_key-key_status key old done todo s h =
    let here : get_or s.key_status (length done) 0 ≡ old =
      ap (λ l. get_or l (length done) 0) h ∙ get_or_at done todo old 0 in
    elim (Bool-cases (key == get_or s.key_status (length done) 0)) [
      | inl same ↦
          let known : old ≡ key = ground arith in
          rw (same, see_key) (h ∙ ap (λ k. done ++ k ∷ todo) known)
      | inr new ↦
          rw (new, see_key)
            (ap (λ l. set l (length done) key) (react-key_status (length done) key s ∙ h)
              ∙ set_at done todo old key)
    ]

see_key_known :
    (key : ℕ) (done todo : List ℕ) (s : Buttons)
    → s.key_status ≡ done ++ key ∷ todo
    → see_key (length done) key s ≡ (s, [])
unfolding see_key
see_key_known key done todo s h =
    let here : get_or s.key_status (length done) 0 ≡ key =
      ap (λ l. get_or l (length done) 0) h ∙ get_or_at done todo key 0 in
    ground arith

see_keys_known :
    (keys rest done : List ℕ) (s : Buttons)
    → s.key_status ≡ done ++ keys
    → see_keys (length keys) (length done) (keys ++ rest) s ≡ some (s, [])
unfolding see_keys
see_keys_known [] rest done s h = refl
see_keys_known (key ∷ keys) rest done s h =
    let next : length (done ++ key ∷ []) ≡ length done + 1 =
      omega (arith, length-append done (key ∷ [])) in
    let ih =
      see_keys_known keys rest (done ++ key ∷ []) s (h ∙ sym (append_assoc done (key ∷ []) keys)) in
    rw (see_key_known key done keys s h, see_keys)
      (ap (λ o. o >>= λ (s'', more). some (s'', more))
        (ap (λ k. see_keys (length keys) k (keys ++ rest) s) (sym next) ∙ ih))

see_keys-key_status :
    (keys rest done olds : List ℕ) (s : Buttons)
    → s.key_status ≡ done ++ olds
    → length olds ≡ length keys
    → (s' : Buttons) × (events : List SensorEvent) × (see_keys
          (length keys)
          (length done)
          (keys ++ rest)
          s
        ≡ some (s', events))
      × (s'.key_status ≡ done ++ keys)
unfolding see_keys
see_keys-key_status [] rest done [] s h n = (s, [], refl, h)
see_keys-key_status [] rest done (old ∷ olds) s h n = absurd (omega arith)
see_keys-key_status (key ∷ keys) rest done [] s h n = absurd (omega arith)
see_keys-key_status (key ∷ keys) rest done (old ∷ olds) s h n =
    let s1 = (see_key (length done) key s).0 in
    let next : length (done ++ key ∷ []) ≡ length done + 1 =
      omega (arith, length-append done (key ∷ [])) in
    let known = see_key-key_status key old done olds s h in
    let (s', events, ran, ends) =
      see_keys-key_status keys rest (done ++ key ∷ []) olds s1
        (known ∙ sym (append_assoc done (key ∷ []) olds)) (omega arith) in
    (
      s',
      (see_key (length done) key s).1 ++ events,
      ap (λ o. o >>= λ (s'', more). some (s'', (see_key (length done) key s).1 ++ more))
          (ap (λ k. see_keys (length keys) k (keys ++ rest) s1) (sym next) ∙ ran),
      ends ∙ append_assoc done (key ∷ []) keys,
    )

parse_keys :
    (buf : List ℕ) (len : ℕ) (s s' : Buttons) (events : List SensorEvent)
    → 5 ≤ len
    → see_keys 4 0 buf s ≡ some (s', events)
    → parse_can_data (0x01 ∷ buf) len s ≡ some (pos 5, s', events)
unfolding parse_can_data
parse_keys buf len s s' events long seen = ground (arith, seen)

-- A frame of the buttons with a byte for each of the four keys is the new status of the keys, whatever it
-- was before; received again, it changes nothing and sends no event.
keys_again :
    (keys rest : List ℕ) (len : ℕ) (s : Buttons)
    → length keys ≡ 4
    → length s.key_status ≡ 4
    → 5 ≤ len
    → (s' : Buttons) × (events : List SensorEvent) × (parse_can_data (0x01 ∷ (keys ++ rest)) len s
        ≡ some (pos 5, s', events))
      × (s'.key_status ≡ keys)
      × (parse_can_data (0x01 ∷ (keys ++ rest)) len s' ≡ some (pos 5, s', []))
keys_again keys rest len s four size long =
    let (s', events, ran, ends) =
      see_keys-key_status keys rest [] s.key_status s refl (size ∙ sym four) in
    let again = see_keys_known keys rest [] s' ends in
    let first : see_keys 4 0 (keys ++ rest) s ≡ some (s', events) =
      ap (λ n. see_keys n 0 (keys ++ rest) s) (sym four) ∙ ran in
    let second : see_keys 4 0 (keys ++ rest) s' ≡ some (s', []) =
      ap (λ n. see_keys n 0 (keys ++ rest) s') (sym four) ∙ again in
    (
      s',
      events,
      parse_keys (keys ++ rest) len s s' events long first,
      ends,
      parse_keys (keys ++ rest) len s' s' [] long second,
    )
