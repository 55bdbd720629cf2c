-- ===== src/Prelude/Bits.antt =====
-- `bit_or` of a number and another shifted above it, for every width.
use Prim.Native.Nat.{
  ℕ, zero, suc, ◌+◌, ◌*◌, ◌/◌, ◌%◌, ◌^◌, ◌<◌, ◌≤◌, max, digits, bit_or, bit_or-bitwise,
}
use mathlib.Core.Path.{◌≡◌, ◌∙◌}
use native.Mathlib.Nat.{pow-suc}
use native.Mathlib.Omega.{arith}

pow-double : (c k : ℕ) → c * 2 ^ suc k ≡ c * 2 ^ k * 2
pow-double c k = grind (arith, pow-suc 2 k)

or_digits-shift :
    (n k m c : ℕ) → m ≤ n → m < 2 ^ k → digits (λ b. b) max n m (c * 2 ^ k) ≡ m + c * 2 ^ k
or_digits-shift zero k m c h l = omega arith
or_digits-shift (suc n) k zero c h l = omega arith
or_digits-shift (suc n) zero (suc m) c h l = absurd (omega arith)
or_digits-shift (suc n) (suc k) (suc m) c h l =
    let q = c * 2 ^ k in
    let half : c * 2 ^ suc k / 2 ≡ q = omega (arith, pow-double c k) in
    let even : c * 2 ^ suc k % 2 ≡ 0 = omega (arith, pow-double c k) in
    let fits : suc m / 2 < 2 ^ k = omega (arith, pow-double 1 k) in
    rw (half, even)
      (omega (arith, pow-double c k, or_digits-shift n k (suc m / 2) c (omega arith) fits))

pub bit_or-shift : (k m c : ℕ) → m < 2 ^ k → bit_or m (c * 2 ^ k) ≡ m + c * 2 ^ k
bit_or-shift k m c h = bit_or-bitwise m (c * 2 ^ k) ∙ or_digits-shift m k m c (omega arith) h
