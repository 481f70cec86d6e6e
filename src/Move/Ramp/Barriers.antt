-- ===== src/Move/Ramp/Barriers.antt =====
-- controler/AgvMoveHelperForklift.cpp: rounds of ManageWheelSpeed while barriers come and go.
use hxdl_driving_control.Prelude.{ℕ, ◌≡◌, ◌⊎◌, List, [], ◌∷◌, false}
use hxdl_driving_control.Prelude.Int.{ℤ, pos, ◌≤ℤ◌}
use hxdl_driving_control.Move.Speed.{Wheels, is_slowed, manage_wheel_speed}

-- The speed is between 0 and `most`; the target, between them too, and the steps stay.
pub record Held {F : Type 0} (most : ℕ) (barriers : List ℤ) (w w' : Wheels F) : Type 0 where
  pub not_negative : pos 0 ≤ℤ w'.current_linear_speed
  pub at_most : w'.current_linear_speed ≤ℤ pos most
  pub slow : elim barriers as (λ x. Type 0) [
    | [] ↦ w' ≡ w
    | barrier ∷ earlier ↦ (is_slowed barrier ≡ false) ⊎ (w'.current_linear_speed ≤ℤ pos 300)
  ]
  pub same_target : w'.target_speed ≡ w.target_speed
  pub same_aspeed : w'.aspeed ≡ w.aspeed
  pub same_dspeed : w'.dspeed ≡ w.dspeed

module _ {F : Type 0} (scale : F → ℤ → ℤ → F) where
  -- A round for each status of the barriers, the newest first.
  unfoldable pub drive : List ℤ → Wheels F → Wheels F
  drive [] w = w
  drive (barrier ∷ earlier) w = manage_wheel_speed scale barrier (drive earlier w)
