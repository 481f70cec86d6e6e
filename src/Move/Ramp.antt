-- ===== src/Move/Ramp.antt =====
-- controler/AgvMoveHelperForklift.cpp: the speed of the wheels after one round of ManageWheelSpeed.
pub mod Rounds
pub mod Barriers
use mathlib.Core.Path.{subst}
use native.Mathlib.Nat.{suc-mul}
use hxdl_driving_control.Prelude.{
  ℕ, zero, suc, ◌+◌, ◌-◌, ◌*◌, ◌≤◌, ◌<◌, ◌≡◌, refl, ◌∙◌, ◌⊎◌, inl, inr, true, false, ◌&&◌, arith,
  Bool-cases,
}
use hxdl_driving_control.Wire.{int_of}
use hxdl_driving_control.Prelude.Int.{
  ℤ, pos, negsuc, ◌+ℤ◌, ◌-ℤ◌, ◌≤ℤ◌, ltb_ℤ, pos_part, neg_part, eq_of_parts, +ℤ_parts, -ℤ_parts,
}
use hxdl_driving_control.Move.Speed.{
  int32, Wheels, is_slowed, leb_ℤ, low_speed_allowed, step_up, step_down, forward_speed,
  backward_speed, manage_wheel_speed,
}

-- How far two speeds are apart.
abbrev pub gap : ℤ → ℤ → ℕ
gap a b =
    (pos_part a + neg_part b - (pos_part b + neg_part a))
    + (pos_part b + neg_part a - (pos_part a + neg_part b))

-- `next` lies between `current` and `target`, and is nearer to it by `d`, or is the target.
pub record Nears (current target : ℤ) (d : ℕ) (next : ℤ) : Type 0 where
  pub between : ((current ≤ℤ next) × (next ≤ℤ target)) ⊎ ((target ≤ℤ next) × (next ≤ℤ current))
  pub nearer : gap next target ≤ gap current target - d

-- Speeds, and differences of two, that do not come near the ends of an int.
abbrev pub limit : ℕ
limit = 536870912

abbrev pub IsSmall : ℤ → Type 0
IsSmall z = pos_part z + neg_part z ≤ limit

pub int32-fits : (z : ℤ) → pos_part z + neg_part z ≤ 1073741824 → int32 z ≡ z
unfolding int32 int_of
int32-fits (pos n) h = ground arith
int32-fits (negsuc n) h = ground arith

pub one_sided : (z : ℤ) → (pos_part z ≡ 0) ⊎ (neg_part z ≡ 0)
one_sided (pos n) = inr refl
one_sided (negsuc n) = inl refl

pub int32-add : (a b : ℤ) → IsSmall a → IsSmall b → int32 (a +ℤ b) ≡ a +ℤ b
int32-add a b ha hb = int32-fits (a +ℤ b) (ground (arith, +ℤ_parts a b, one_sided (a +ℤ b)))

pub int32-sub : (a b : ℤ) → IsSmall a → IsSmall b → int32 (a -ℤ b) ≡ a -ℤ b
int32-sub a b ha hb = int32-fits (a -ℤ b) (ground (arith, -ℤ_parts a b, one_sided (a -ℤ b)))

-- A test on integers is one on their parts.
ltb_ℤ→lt : (a b : ℤ) → ltb_ℤ a b ≡ true → pos_part a + neg_part b < pos_part b + neg_part a
ltb_ℤ→lt a b h = ground arith

ltb_ℤ→le : (a b : ℤ) → ltb_ℤ a b ≡ false → b ≤ℤ a
ltb_ℤ→le a b h = ground arith

step_up-Nears :
    (current target : ℤ) (d : ℕ)
    → IsSmall current
    → d ≤ limit
    → current ≤ℤ target
    → Nears current target d (step_up current target (pos d))
unfolding step_up
step_up-Nears current target d small hd h =
    rw (int32-add current (pos d) small (omega arith))
      elim (Bool-cases (ltb_ℤ target (current +ℤ pos d))) [
        | inl past ↦ rw past record {
          between = inl (h, omega arith);
          nearer = omega (arith, ltb_ℤ→lt target (current +ℤ pos d) past, +ℤ_parts current (pos d));
        }
        | inr short ↦ rw short record {
          between =
              inl
                (omega (arith, +ℤ_parts current (pos d)), ltb_ℤ→le target (current +ℤ pos d) short);
          nearer =
              omega (arith, ltb_ℤ→le target (current +ℤ pos d) short, +ℤ_parts current (pos d));
        }
      ]

step_down-Nears :
    (current target : ℤ) (d : ℕ)
    → IsSmall current
    → d ≤ limit
    → target ≤ℤ current
    → Nears current target d (step_down current target (pos d))
unfolding step_down
step_down-Nears current target d small hd h =
    rw (int32-sub current (pos d) small (omega arith))
      elim (Bool-cases (ltb_ℤ (current -ℤ pos d) target)) [
        | inl past ↦ rw past record {
          between = inr (omega arith, h);
          nearer = omega (arith, ltb_ℤ→lt (current -ℤ pos d) target past, -ℤ_parts current (pos d));
        }
        | inr short ↦ rw short record {
          between =
              inr
                (ltb_ℤ→le (current -ℤ pos d) target short, omega (arith, -ℤ_parts current (pos d)));
          nearer =
              omega (arith, ltb_ℤ→le (current -ℤ pos d) target short, -ℤ_parts current (pos d));
        }
      ]

stays-Nears :
    (current target : ℤ) (d : ℕ)
    → ltb_ℤ target current ≡ false
    → ltb_ℤ current target ≡ false
    → Nears current target d current
stays-Nears current target d h k = record {
  between = inl (omega arith, ltb_ℤ→le target current h);
  nearer = omega (arith, ltb_ℤ→le target current h, ltb_ℤ→le current target k);
}

Nears-le :
    (current target next : ℤ) (s d : ℕ)
    → s ≤ d
    → Nears current target d next
    → Nears current target s next
Nears-le current target next s d h n = record {
  between = n.between;
  nearer = omega (arith, n.nearer);
}

-- The two steps are at least `s`.
module _ (s a d : ℕ) (fast_a : s ≤ a) (fast_d : s ≤ d) (small_a : a ≤ limit) (small_d : d ≤ limit)
    (current target : ℤ) (small : IsSmall current) where
  forward_speed-Nears :
      (barrier : ℤ)
      → (is_slowed barrier ≡ false)
        ⊎ ((current ≤ℤ target) × (target ≤ℤ current) × (current ≤ℤ pos 0))
      → Nears current target s (forward_speed barrier current target (pos a) (pos d))
  unfolding forward_speed
  forward_speed-Nears barrier (inl clear) = elim (Bool-cases (ltb_ℤ target current)) [
    | inl above ↦
        rw (clear, above)
          (Nears-le current target _ s d fast_d (
            step_down-Nears current target d small small_d
              (omega (arith, ltb_ℤ→lt target current above))))
    | inr not_above ↦ elim (Bool-cases (ltb_ℤ current target)) [
      | inl below ↦
          rw (clear, not_above, below)
            (Nears-le current target _ s a fast_a (
              step_up-Nears current target a small small_a
                (omega (arith, ltb_ℤ→lt current target below))))
      | inr not_below ↦
          rw (clear, not_above, not_below) (stays-Nears current target s not_above not_below)
    ]
  ]
  forward_speed-Nears barrier (inr (h, k, l)) =
      let slow : ltb_ℤ low_speed_allowed current ≡ false = ground arith in
      let not_above : ltb_ℤ target current ≡ false = ground arith in
      let not_below : ltb_ℤ current target ≡ false = ground arith in
      let stays = stays-Nears current target s not_above not_below in
      elim (Bool-cases (is_slowed barrier)) [
        | inl slowed ↦ rw (slowed, slow) stays
        | inr clear ↦ rw (clear, not_above, not_below) stays
      ]

  backward_speed-Nears : Nears current target s (backward_speed current target (pos a) (pos d))
  unfolding backward_speed
  backward_speed-Nears = elim (Bool-cases (ltb_ℤ current target)) [
    | inl below ↦ rw below (
        Nears-le current target _ s d fast_d (
          step_up-Nears current target d small small_d
            (omega (arith, ltb_ℤ→lt current target below))))
    | inr not_below ↦ elim (Bool-cases (ltb_ℤ target current)) [
      | inl above ↦
          rw (not_below, above)
            (Nears-le current target _ s a fast_a (
              step_down-Nears current target a small small_a
                (omega (arith, ltb_ℤ→lt target current above))))
      | inr not_above ↦ rw (not_below, not_above) (stays-Nears current target s not_above not_below)
    ]
  ]
