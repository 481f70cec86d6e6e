-- ===== src/Controler/Lost.antt =====
-- controler/AgvCarControler.cpp: IsLostPosition, called again and again with the same numbers.
use native.Mathlib.Nat.{suc-mul}
use hxdl_driving_control.Prelude.{
  ℕ, zero, suc, ◌+◌, ◌*◌, ◌≤◌, ◌≡◌, refl, inl, inr, true, false, arith, ltb, if◌then◌else◌,
  Bool-cases, ltb→lt, ap,
}
use hxdl_driving_control.Prelude.Int.{pos, ltb_ℤ}
use hxdl_driving_control.Sensor.Drive.{Drive}
use hxdl_driving_control.Controler.{Controler, is_lost_position}

-- How many of `n` calls with the numbers of the call before report a loss, and the controler then.
unfoldable pub losses : ℕ → ℕ → Controler → ℕ × Controler
losses zero limit k = (0, k)
losses (suc n) limit k =
    let (sum, k1) = losses n limit k in
    let (lost, k2) = is_lost_position true limit k1 in (if lost then suc sum else sum, k2)

-- How often the numbers may stay the same: a car at rest has 1000 calls more.
abbrev pub patience : ℕ → Controler → ℕ
patience limit k = if ltb_ℤ (pos 0) k.drive.speed then limit else limit + 1000

pub record Counts (n limit : ℕ) (k : Controler) (sum : ℕ) (k' : Controler) : Type 0 where
  pub counted : sum * suc (patience limit k) + k'.lose_position_count ≡ n
  pub below : k'.lose_position_count ≤ patience limit k
  pub same_drive : k'.drive ≡ k.drive

ltb→ge : (a b : ℕ) → ltb a b ≡ false → b ≤ a
ltb→ge a b h = ground arith

-- A call more.
next-Counts :
    (n limit : ℕ) (k k1 : Controler) (sum : ℕ)
    → Counts n limit k sum k1
    → let (lost, k2) = is_lost_position true limit k1 in
      Counts (suc n) limit k (if lost then suc sum else sum) k2
unfolding is_lost_position
next-Counts n limit k k1 sum c =
    let most : patience limit k1 ≡ patience limit k =
      ap (λ (d : Drive). if ltb_ℤ (pos 0) d.speed then limit else limit + 1000) c.same_drive in
    elim (Bool-cases (ltb (patience limit k1) (suc k1.lose_position_count))) [
      | inl late ↦ rw late record {
        counted = omega (
          arith,
          c.counted,
          c.below,
          most,
          ltb→lt (patience limit k1) (suc k1.lose_position_count) late,
          suc-mul sum (suc (patience limit k)),
        );
        below = omega arith;
        same_drive = c.same_drive;
      }
      | inr soon ↦ rw soon record {
        counted = omega (arith, c.counted);
        below = omega (arith, most, ltb→ge (patience limit k1) (suc k1.lose_position_count) soon);
        same_drive = c.same_drive;
      }
    ]

-- From a count of 0, `n` calls in which the position stays the same report a loss once in every limit + 1
-- calls, or limit + 1001 for a car at rest: the number of losses times that, and the count that is left,
-- which is below it, make `n`.
pub losses-Counts :
    (n limit : ℕ) (k : Controler)
    → k.lose_position_count ≡ 0
    → Counts n limit k (losses n limit k).0 (losses n limit k).1
unfolding losses
losses-Counts zero limit k z = record {
  counted = omega arith;
  below = omega arith;
  same_drive = refl;
}
losses-Counts (suc n) limit k z =
    let (sum, k1) = losses n limit k in
    let c = losses-Counts n limit k z in next-Counts n limit k k1 sum c
