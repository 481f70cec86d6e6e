-- ===== src/Prelude/Bits.antt =====
-- Masking by a byte, and joining a high part with a low one.
use Prim.Native.Nat.{
  ℕ, zero, suc, ◌+◌, ◌*◌, ◌/◌, ◌%◌, ◌^◌, ◌≤◌, ◌<◌, min, max, bit_and, bit_or, digits,
  bit_and-bitwise, bit_or-bitwise,
}
use native.Mathlib.Nat.{pow-suc}
use mathlib.Core.Path.{◌≡◌, refl, ap, ◌∙◌}
use native.Mathlib.Omega.{arith}

-- The masks of up to eight ones, and what they leave.
abbrev mask : ℕ → ℕ
mask zero = 0
mask (suc k) = suc (mask k * 2)

abbrev low : ℕ → ℕ → ℕ
low zero a = 0
low (suc k) a = low k (a / 2) * 2 + a % 2

low-zero : (k : ℕ) → low k 0 ≡ 0
low-zero zero = refl
low-zero (suc k) = omega (arith, low-zero k)

-- As many digits to go as the number needs, or more.
digits-mask : (k count a : ℕ) → a ≤ count → digits (λ b. zero) min count a (mask k) ≡ low k a
digits-mask k zero a h = let nothing : a ≡ 0 = omega arith in rw nothing (omega (arith, low-zero k))
digits-mask k (suc count) zero h = omega (arith, low-zero k)
digits-mask zero (suc count) (suc a) h =
    omega (arith, digits-mask zero count (suc a / 2) (omega arith))
digits-mask (suc k) (suc count) (suc a) h =
    let half : suc (mask k * 2) / 2 ≡ mask k = omega arith in
    rw half (omega (arith, digits-mask k count (suc a / 2) (omega arith)))

-- The low byte.
pub bit_and_255 : (a : ℕ) → bit_and a 255 ≡ a % 256
bit_and_255 a = bit_and-bitwise a 255 ∙ digits-mask 8 a a (omega arith) ∙ omega arith

pub zero-bit_or : (b : ℕ) → bit_or 0 b ≡ b
zero-bit_or b = bit_or-bitwise 0 b

digits_none : (count a : ℕ) → a ≤ count → digits (λ b. b) max count a 0 ≡ a
digits_none zero a h = omega arith
digits_none (suc count) zero h = refl
digits_none (suc count) (suc a) h = omega (arith, digits_none count (suc a / 2) (omega arith))

digits_join :
    (k count a h x : ℕ)
    → a ≤ count
    → x < 2 ^ k
    → a ≡ h * 2 ^ k
    → digits (λ b. b) max count a x ≡ a + x
digits_join k zero a h x n l e = omega arith
digits_join k (suc count) zero h x n l e = omega arith
digits_join zero (suc count) (suc a) h x n l e =
    let low_zero : x ≡ 0 = omega arith in
    rw low_zero (omega (arith, digits_none count (suc a / 2) (omega arith)))
digits_join (suc k) (suc count) (suc a) h x n l e =
    let doubled : suc a ≡ h * 2 ^ k * 2 = e ∙ ap (λ (t : ℕ). h * t) (pow-suc 2 k) ∙ omega arith in
    let small : x < 2 ^ k * 2 = rw pow-suc at l in
    omega
      (arith, digits_join k count (suc a / 2) h (x / 2) (omega arith) (omega arith) (omega arith))

-- The parts of a number that is split at bit `k` are disjoint, so `|` adds them.
pub bit_or-shifted : (k h x : ℕ) → x < 2 ^ k → bit_or (h * 2 ^ k) x ≡ h * 2 ^ k + x
bit_or-shifted k h x l =
    bit_or-bitwise (h * 2 ^ k) x ∙ digits_join k (h * 2 ^ k) (h * 2 ^ k) h x (omega arith) l refl
