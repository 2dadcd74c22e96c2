-- ===== src/Base/Bits.antt =====
-- `|` of a shifted number and one below the shift is their sum.
use Prim.Native.Nat.{
  ℕ, zero, suc, ◌+◌, ◌*◌, ◌/◌, ◌^◌, ◌≤◌, ◌<◌, max, bit_or, digits, bit_or-bitwise,
}
use mathlib.Core.Path.{◌≡◌, refl, ap, ◌∙◌}
use native.Mathlib.Nat.{pow-suc, le_refl}
use native.Mathlib.Omega.{arith}

abbrev or_digits : ℕ → ℕ → ℕ → ℕ
or_digits = digits (λ b. b) max

or_digits-zero : (n a : ℕ) → a ≤ n → or_digits n a 0 ≡ a
or_digits-zero zero a h = omega arith
or_digits-zero (suc n) zero h = refl
or_digits-zero (suc n) (suc a) h = omega (arith, or_digits-zero n (suc a / 2) (omega arith))

or_digits-add : (k n a q r : ℕ) → a ≡ q * 2 ^ k → a ≤ n → r < 2 ^ k → or_digits n a r ≡ a + r
or_digits-add zero n a q zero e h f = omega (arith, or_digits-zero n a h)
or_digits-add zero n a q (suc r) e h f = absurd (omega arith)
or_digits-add (suc k) zero a q r e h f = omega arith
or_digits-add (suc k) (suc n) zero q r e h f = omega arith
or_digits-add (suc k) (suc n) (suc a) q r e h f =
    let twice : suc a ≡ 2 * (q * 2 ^ k) = omega (arith, ap (λ (t : ℕ). q * t) (pow-suc 2 k)) in
    omega (
      arith,
      or_digits-add k n (suc a / 2) q (r / 2) (omega arith) (omega arith)
          (omega (arith, pow-suc 2 k)),
    )

pub bit_or-add : (k q r : ℕ) → r < 2 ^ k → bit_or (q * 2 ^ k) r ≡ q * 2 ^ k + r
bit_or-add k q r h =
    bit_or-bitwise (q * 2 ^ k) r ∙ or_digits-add k (q * 2 ^ k) (q * 2 ^ k) q r refl (le_refl _) h
