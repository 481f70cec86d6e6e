-- ===== src/Move/Sixty.antt =====
-- controler/AgvMoveHelperForklift.cpp: the steps of calAspeed and calDspeed, and how long they take.
use hxdl_driving_control.Prelude.{
  ℕ, ◌+◌, ◌*◌, ◌/◌, ◌≤◌, ◌≡◌, refl, ◌⊎◌, inl, inr, arith, ltb, if◌then◌else◌, Bool-cases,
}
use hxdl_driving_control.Prelude.Int.{ℤ, pos, negsuc, ◌-ℤ◌, pos_part, neg_part, -ℤ_parts}
use hxdl_driving_control.Move.Speed.{Wheels, abs, cal_aspeed, cal_dspeed}
use hxdl_driving_control.Move.Ramp.{gap, limit, IsSmall, int32-sub}
use hxdl_driving_control.Move.Ramp.Rounds.{IsOneWay, rounds, rounds-Reaches}

abs_parts : (z : ℤ) → (abs z ≡ pos_part z + neg_part z) × ((pos_part z ≡ 0) ⊎ (neg_part z ≡ 0))
unfolding abs
abs_parts (pos n) = (omega arith, inr (omega arith))
abs_parts (negsuc n) = (omega arith, inl (omega arith))

abs-sub : (a b : ℤ) → abs (a -ℤ b) ≡ gap a b
abs-sub a b = ground (arith, abs_parts (a -ℤ b), -ℤ_parts a b)

gap_comm : (a b : ℤ) → gap a b ≡ gap b a
gap_comm a b = omega arith

-- A step that is enough for 64 rounds.
abbrev share : ℕ → ℕ
share g = if ltb (g / 60) 15 then 15 else g / 60

share_enough : (g : ℕ) → g ≤ 64 * share g
share_enough g = elim (Bool-cases (ltb (g / 60) 15)) [
  | inl small ↦ rw small (ground arith)
  | inr large ↦ rw large (ground arith)
]

cal_aspeed_lem :
    (current target : ℤ)
    → IsSmall current
    → IsSmall target
    → cal_aspeed current target ≡ share (gap current target)
unfolding cal_aspeed
cal_aspeed_lem current target hc ht =
    rw (int32-sub target current ht hc, abs-sub target current, gap_comm target current) refl

cal_dspeed_lem :
    (current target : ℤ)
    → IsSmall current
    → IsSmall target
    → cal_dspeed current target ≡ share (gap current target)
unfolding cal_dspeed
cal_dspeed_lem current target hc ht =
    rw (int32-sub current target hc ht, abs-sub current target) refl

-- With steps that are at least those of calAspeed and calDspeed for the speed and the target at first,
-- 64 rounds of ManageWheelSpeed bring the speed to the target, if the two speeds and the two steps are at
-- most 2 ^ 29 in size, and the car goes ahead with no barrier far or in the middle, or backs.
pub rounds-64 :
    {F : Type 0} (scale : F → ℤ → ℤ → F) (barrier : ℤ) (w : Wheels F) (a d : ℕ)
    → IsSmall w.current_linear_speed
    → IsSmall w.target_speed
    → a ≤ limit
    → d ≤ limit
    → w.aspeed ≡ pos a
    → w.dspeed ≡ pos d
    → cal_aspeed w.current_linear_speed w.target_speed ≤ a
    → cal_dspeed w.current_linear_speed w.target_speed ≤ d
    → IsOneWay barrier w.current_linear_speed w.target_speed
    → (rounds scale barrier 64 w).current_linear_speed ≡ w.target_speed
rounds-64 scale barrier w a d hc ht ha hd ea ed fast_a fast_d way =
    let c = w.current_linear_speed in
    let t = w.target_speed in
    let s = share (gap c t) in
    (rounds-Reaches scale barrier s a d ha hd 64 w hc ht (rw (← cal_aspeed_lem c t hc ht) fast_a)
        (rw (← cal_dspeed_lem c t hc ht) fast_d) ea ed way).arrives
      (share_enough (gap c t))
