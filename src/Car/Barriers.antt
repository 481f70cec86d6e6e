-- ===== src/Car/Barriers.antt =====
-- controler/AgvCar.cpp: the flags of barriers under any row of OnBarrierMessage.
use mathlib.Core.Path.{subst}
use hxdl_driving_control.Prelude.{
  ℕ, ◌≡◌, ◌<◌, ◌/◌, ◌%◌, All, refl, sym, ap, ◌∙◌, inl, inr, List, [], ◌∷◌, Bool, true, false, ◌&&◌,
  Option, some, arith, if◌then◌else◌, Bool-cases,
}
use hxdl_driving_control.Prelude.Int.{ℤ, pos}
use hxdl_driving_control.Wire.{◌>>=◌}
use hxdl_driving_control.Car.{
  Car, set_enable, reset_last_target_station, set_error_flag, clear_error_flag, tell,
}
use hxdl_driving_control.Car.Obstacle.{
  BarrierEvent, barrier_ok, near_barrier, mid_barrier, far_barrier, barrier_touched, is_beside,
  note_barrier, is_near, show_barrier, react, on_barrier_message,
}
use hxdl_driving_control.Car.Shown.{IsReady, Shown, show_barrier-Shown}

-- At most one of the flags for a near, a middle and a far barrier.
abbrev pub IsSingle : (ℕ → Bool) → Type 0
IsSingle error =
    ((error 8 && error 9) ≡ false)
    × ((error 8 && error 10) ≡ false)
    × ((error 9 && error 10) ≡ false)

note_barrier-IsSingle :
    (e : BarrierEvent) (c : Car)
    → IsSingle c.error
    → IsSingle (note_barrier e c).1.error × ((note_barrier e c).1.last_info ≡ c.last_info)
unfolding note_barrier set_error_flag clear_error_flag
note_barrier-IsSingle barrier_ok c h = ground arith
note_barrier-IsSingle barrier_touched c h = ground arith
note_barrier-IsSingle near_barrier c h = ground arith
note_barrier-IsSingle mid_barrier c h = ground arith
note_barrier-IsSingle far_barrier c h = ground arith

record Kept (o : Option (ℤ × Car)) : Type 0 where
  ret : ℤ
  after : Car
  done : o ≡ some (ret, after)
  single : IsSingle after.error
  ready : IsReady after.last_info

react-Shown :
    (e : BarrierEvent) (side : ℕ) (c : Car)
    → side < 5
    → IsReady c.last_info
    → Shown (react e side c) c
unfolding react tell
react-Shown e side c h ready =
    elim (Bool-cases (c.last_near && (if is_near e then false else true))) [
      | inr first ↦
          let s = show_barrier-Shown e side (record c { last_near = is_near e }) h ready in
          record {
            after = s.after;
            done =
                ap
                  (λ b.
                    show_barrier e side
                      (record (if b
                        then tell (set_enable true ∷ reset_last_target_station ∷ []) c
                        else c) { last_near = is_near e }))
                  first
                ∙ s.done;
            same = s.same;
            ready = s.ready;
          }
      | inl again ↦
          let told = tell (set_enable true ∷ reset_last_target_station ∷ []) c in
          let s = show_barrier-Shown e side (record told { last_near = is_near e }) h ready in
          record {
            after = s.after;
            done =
                ap
                  (λ b.
                    show_barrier e side (record (if b then told else c) { last_near = is_near e }))
                  again
                ∙ s.done;
            same = s.same;
            ready = s.ready;
          }
    ]

on_barrier_message-Kept :
    (mode dev : ℕ) (e : BarrierEvent) (c : Car)
    → dev / 256 % 256 < 5
    → IsSingle c.error
    → IsReady c.last_info
    → Kept (on_barrier_message mode e dev c)
unfolding on_barrier_message
on_barrier_message-Kept mode dev e c h single ready =
    let side = dev / 256 % 256 in
    let c1 = (note_barrier e c).1 in
    let (kept, info) = note_barrier-IsSingle e c single in
    let ready1 : IsReady c1.last_info = subst IsReady (sym info) ready in
    let s = react-Shown e side c1 h ready1 in
    elim (Bool-cases (is_beside mode side)) [
      | inl beside ↦
          rw (beside, on_barrier_message)
            (record { ret = pos 1; after = c; done = refl; single = single; ready = ready })
      | inr before ↦ elim (Bool-cases (note_barrier e c).0) [
        | inl nearer ↦
            rw (before, on_barrier_message, nearer)
              (record { ret = pos 1; after = c1; done = refl; single = kept; ready = ready1 })
        | inr counts ↦ elim (Bool-cases c1.stop_button) [
          | inl stopped ↦
              rw (before, on_barrier_message, counts, stopped)
                (record {
                  ret = pos 0;
                  after = record c1 { last_near = is_near e; stop_button = true };
                  done = refl;
                  single = kept;
                  ready = ready1;
                })
          | inr goes ↦
              rw (before, on_barrier_message, counts, goes, s.done)
                (record {
                  ret = pos 0;
                  after = s.after;
                  done = refl;
                  single = subst IsSingle (sym s.same) kept;
                  ready = s.ready;
                })
        ]
      ]
    ]

-- A call of OnBarrierMessage: the mode in which the car runs, the event and its device.
pub record Call : Type 0 where
  pub mode : ℕ
  pub event : BarrierEvent
  pub dev : ℕ

unfoldable pub run_calls : List Call → Car → Option Car
run_calls [] c = some c
run_calls (k ∷ calls) c =
    on_barrier_message k.mode k.event k.dev c >>= λ (ret, c1). run_calls calls c1

-- Any row of calls of OnBarrierMessage with sides below 5 goes through, if there is a status to go back to
-- that StatusString has an entry for, and keeps at most one of the three flags for a near, a middle and a
-- far barrier set.
pub run_calls-IsSingle :
    (calls : List Call) (c : Car)
    → All (λ k. k.dev / 256 % 256 < 5) calls
    → IsSingle c.error
    → IsReady c.last_info
    → (c' : Car) × (run_calls calls c ≡ some c') × IsSingle c'.error × IsReady c'.last_info
unfolding run_calls
run_calls-IsSingle [] c h single ready = (c, refl, single, ready)
run_calls-IsSingle (k ∷ calls) c h single ready =
    let s = on_barrier_message-Kept k.mode k.dev k.event c h.0 single ready in
    let (c', ran, single', ready') = run_calls-IsSingle calls s.after h.1 s.single s.ready in
    (c', rw (s.done, run_calls) ran, single', ready')
