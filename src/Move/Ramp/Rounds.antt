-- ===== src/Move/Ramp/Rounds.antt =====
-- controler/AgvMoveHelperForklift.cpp: rounds of ManageWheelSpeed reach the target speed.
use mathlib.Core.Path.{subst}
use native.Mathlib.Nat.{suc-mul}
use hxdl_driving_control.Prelude.{
  ℕ, zero, suc, ◌+◌, ◌*◌, ◌≤◌, ◌<◌, ◌≡◌, refl, ◌∙◌, ◌⊎◌, inl, inr, true, false, ◌&&◌, arith,
  Bool-cases,
}
use hxdl_driving_control.Prelude.Int.{ℤ, pos, negsuc, ◌≤ℤ◌, pos_part, neg_part, eq_of_parts}
use hxdl_driving_control.Move.Speed.{
  Wheels, is_slowed, leb_ℤ, forward_speed, backward_speed, manage_wheel_speed,
}
use hxdl_driving_control.Move.Ramp.{
  limit, IsSmall, gap, Nears, forward_speed-Nears, backward_speed-Nears,
}

-- Both speeds are those of a car that goes ahead, with nothing in its way, or of one that backs.
abbrev pub IsOneWay : ℤ → ℤ → ℤ → Type 0
IsOneWay barrier current target =
    ((pos 0 ≤ℤ current) × (pos 0 ≤ℤ target) × (is_slowed barrier ≡ false))
    ⊎ ((current ≤ℤ pos 0) × (target ≤ℤ pos 0))

leb_ℤ→le : (a b : ℤ) → leb_ℤ a b ≡ true → a ≤ℤ b
leb_ℤ→le a b h = ground arith

leb_ℤ→lt : (a b : ℤ) → leb_ℤ a b ≡ false → pos_part b + neg_part a < pos_part a + neg_part b
leb_ℤ→lt a b h = ground arith

le→leb_ℤ : (a b : ℤ) → a ≤ℤ b → leb_ℤ a b ≡ true
le→leb_ℤ a b h = ground arith

-- What one round changes.
pub record Round {F : Type 0} (s : ℕ) (w w' : Wheels F) : Type 0 where
  pub moved : Nears w.current_linear_speed w.target_speed s w'.current_linear_speed
  pub same_target : w'.target_speed ≡ w.target_speed
  pub same_aspeed : w'.aspeed ≡ w.aspeed
  pub same_dspeed : w'.dspeed ≡ w.dspeed

module _ (s : ℕ) (x y : ℤ) (a d : ℕ) (ex : x ≡ pos a) (ey : y ≡ pos d) (fast_a : s ≤ a)
    (fast_d : s ≤ d) (small_a : a ≤ limit) (small_d : d ≤ limit) (current target : ℤ)
    (small : IsSmall current) where
  forward-Nears :
      (barrier : ℤ)
      → (is_slowed barrier ≡ false)
        ⊎ ((current ≤ℤ target) × (target ≤ℤ current) × (current ≤ℤ pos 0))
      → Nears current target s (forward_speed barrier current target x y)
  forward-Nears barrier h =
      rw (ex, ey)
        (forward_speed-Nears s a d fast_a fast_d small_a small_d current target small barrier h)

  backward-Nears : Nears current target s (backward_speed current target x y)
  backward-Nears =
      rw (ex, ey) (backward_speed-Nears s a d fast_a fast_d small_a small_d current target small)

-- The speeds of a car that goes ahead are tested first.
way_forward :
    (barrier current target : ℤ)
    → IsOneWay barrier current target
    → (leb_ℤ (pos 0) target && leb_ℤ (pos 0) current) ≡ true
    → (is_slowed barrier ≡ false) ⊎ ((current ≤ℤ target) × (target ≤ℤ current) × (current ≤ℤ pos 0))
way_forward barrier current target (inl (_, _, clear)) h = inl clear
way_forward barrier current target (inr (l, m)) h = inr (ground arith)

way_backward :
    (barrier current target : ℤ)
    → IsOneWay barrier current target
    → (leb_ℤ (pos 0) target && leb_ℤ (pos 0) current) ≡ false
    → (leb_ℤ target (pos 0) && leb_ℤ current (pos 0)) ≡ true
way_backward barrier current target (inl (l, m, _)) h = ground arith
way_backward barrier current target (inr (l, m)) h = ground arith

module _ {F : Type 0} (scale : F → ℤ → ℤ → F) (barrier : ℤ) (s a d : ℕ) (fast_a : s ≤ a)
    (fast_d : s ≤ d) (small_a : a ≤ limit) (small_d : d ≤ limit) where
  pub manage_wheel_speed-Round :
      (w : Wheels F)
      → IsSmall w.current_linear_speed
      → w.aspeed ≡ pos a
      → w.dspeed ≡ pos d
      → IsOneWay barrier w.current_linear_speed w.target_speed
      → Round s w (manage_wheel_speed scale barrier w)
  unfolding manage_wheel_speed
  manage_wheel_speed-Round w small ea ed way =
      let c = w.current_linear_speed in
      let t = w.target_speed in
      elim (Bool-cases (leb_ℤ (pos 0) t && leb_ℤ (pos 0) c)) [
        | inl ahead ↦ rw ahead record {
          moved =
              forward-Nears s w.aspeed w.dspeed a d ea ed fast_a fast_d small_a small_d c t small
                barrier (way_forward barrier c t way ahead);
          same_target = refl;
          same_aspeed = refl;
          same_dspeed = refl;
        }
        | inr not_ahead ↦
            rw (not_ahead, way_backward barrier c t way not_ahead)
              record {
                moved =
                    backward-Nears s w.aspeed w.dspeed a d ea ed fast_a fast_d small_a small_d c t
                      small;
                same_target = refl;
                same_aspeed = refl;
                same_dspeed = refl;
              }
      ]

-- What `n` rounds of at least `s` each make of the speed `current`, on the way to `target`.
pub record Reaches {F : Type 0} (s n : ℕ) (current target : ℤ) (w : Wheels F) : Type 0 where
  pub between :
      ((current ≤ℤ w.current_linear_speed) × (w.current_linear_speed ≤ℤ target))
      ⊎ ((target ≤ℤ w.current_linear_speed) × (w.current_linear_speed ≤ℤ current))
  pub same_target : w.target_speed ≡ target
  pub arrives : gap current target ≤ n * s → w.current_linear_speed ≡ target

pub between-IsSmall :
    (current target next : ℤ)
    → IsSmall current
    → IsSmall target
    → ((current ≤ℤ next) × (next ≤ℤ target)) ⊎ ((target ≤ℤ next) × (next ≤ℤ current))
    → IsSmall next
between-IsSmall current target (pos n) hc ht h = ground arith
between-IsSmall current target (negsuc n) hc ht h = ground arith

keeps_way :
    (barrier current target next : ℤ)
    → IsOneWay barrier current target
    → ((current ≤ℤ next) × (next ≤ℤ target)) ⊎ ((target ≤ℤ next) × (next ≤ℤ current))
    → IsOneWay barrier next target
keeps_way barrier current target next (inl (l, m, clear)) h = inl (ground arith, m, clear)
keeps_way barrier current target next (inr (l, m)) h = inr (ground arith, m)

between_trans :
    (c t k : ℤ)
    → (z : ℤ) → ((c ≤ℤ k) × (k ≤ℤ t)) ⊎ ((t ≤ℤ k) × (k ≤ℤ c))
    → ((k ≤ℤ z) × (z ≤ℤ t)) ⊎ ((t ≤ℤ z) × (z ≤ℤ k))
    → ((c ≤ℤ z) × (z ≤ℤ t)) ⊎ ((t ≤ℤ z) × (z ≤ℤ c))
between_trans c t k z h l = ground arith

step-Reaches :
    {F : Type 0} (s n : ℕ) (current target next : ℤ) (w : Wheels F)
    → Nears current target s next
    → Reaches s n next target w
    → Reaches s (suc n) current target w
step-Reaches s n current target next w r k = record {
  between = between_trans current target next w.current_linear_speed r.between k.between;
  same_target = k.same_target;
  arrives = λ h. k.arrives (omega (arith, r.nearer, h, suc-mul n s));
}

module _ {F : Type 0} (scale : F → ℤ → ℤ → F) (barrier : ℤ) where
  -- `n` rounds with the same target and the same barriers.
  unfoldable pub rounds : ℕ → Wheels F → Wheels F
  rounds zero w = w
  rounds (suc n) w = rounds n (manage_wheel_speed scale barrier w)

  pub rounds-Reaches :
      (s a d : ℕ)
      → a ≤ limit
      → d ≤ limit
      → (n : ℕ) (w : Wheels F) → IsSmall w.current_linear_speed
      → IsSmall w.target_speed
      → s ≤ a
      → s ≤ d
      → w.aspeed ≡ pos a
      → w.dspeed ≡ pos d
      → IsOneWay barrier w.current_linear_speed w.target_speed
      → Reaches s n w.current_linear_speed w.target_speed (rounds n w)
  unfolding rounds
  rounds-Reaches s a d ha hd zero w hc ht fast_a fast_d ea ed way = record {
    between = ground arith;
    same_target = refl;
    arrives = λ h. eq_of_parts w.current_linear_speed w.target_speed (omega arith);
  }
  rounds-Reaches s a d ha hd (suc n) w hc ht fast_a fast_d ea ed way =
      let w' = manage_wheel_speed scale barrier w in
      let r = manage_wheel_speed-Round scale barrier s a d fast_a fast_d ha hd w hc ea ed way in
      let way' : IsOneWay barrier w'.current_linear_speed w'.target_speed = rw r.same_target (
        keeps_way barrier w.current_linear_speed w.target_speed w'.current_linear_speed way
          r.moved.between) in
      let hc' : IsSmall w'.current_linear_speed =
        between-IsSmall w.current_linear_speed w.target_speed w'.current_linear_speed hc ht
          r.moved.between in
      let k =
        rounds-Reaches s a d ha hd n w' hc' (rw r.same_target ht) fast_a fast_d (r.same_aspeed ∙ ea)
          (r.same_dspeed ∙ ed) way' in
      step-Reaches s n w.current_linear_speed w.target_speed w'.current_linear_speed (rounds n w')
        r.moved (subst (λ z. Reaches s n w'.current_linear_speed z (rounds n w')) r.same_target k)
