-- ===== src/Fat/Bits.antt =====
-- The masks and shifts of fat_table.c on numbers: `x & (2^k - 1)` is a remainder.
use fa_maf_sis_op.Prelude.{
  ℕ, zero, suc, ◌+◌, ◌-◌, ◌*◌, ◌/◌, ◌%◌, ◌^◌, ◌≤◌, ◌<◌, ◌≡◌, refl, ap, ◌∙◌, sym, arith,
}
use Prim.Native.Nat.{min, max, bit_and, bit_or, digits, bit_and-bitwise, bit_or-bitwise}
use native.Mathlib.Nat.{
  div-div-eq-div-mul, mod_def, mul_assoc, two-pow-succ, mul-add, one-le-pow, div-add-mod, zero-mod,
}

-- A power of two is positive.
pub pow_pos : (k : ℕ) → 0 < 2 ^ k
pow_pos k = one-le-pow k 2 (omega arith)

half_mod : (x m : ℕ) → x % (2 * m) ≡ x / 2 % m * 2 + x % 2
half_mod x m = omega (
  arith,
  mod_def x (2 * m),
  div-add-mod x (2 * m),
  div-add-mod (x / 2) m,
  mod_def (x / 2) m,
  div-div-eq-div-mul x 2 m,
  mul_assoc 2 m (x / (2 * m)),
  ap (λ q. m * q) (div-div-eq-div-mul x 2 m),
)

zero_mask : (n a : ℕ) → a ≤ n → digits (λ b. zero) min n a 0 ≡ 0
zero_mask zero a h = refl
zero_mask (suc n) zero h = refl
zero_mask (suc n) (suc a) h = omega (arith, zero_mask n (suc a / 2) (omega arith))

pow-suc_two : (k : ℕ) → 2 ^ suc k ≡ 2 * 2 ^ k
pow-suc_two k = omega (arith, two-pow-succ k)

mask_half : (k : ℕ) → (2 ^ suc k - 1) / 2 ≡ 2 ^ k - 1
mask_half k = omega (arith, two-pow-succ k, pow_pos k)

mask_odd : (k : ℕ) → (2 ^ suc k - 1) % 2 ≡ 1
mask_odd k = omega (arith, two-pow-succ k, pow_pos k)

digits_mask : (n k a : ℕ) → a ≤ n → digits (λ b. zero) min n a (2 ^ k - 1) ≡ a % 2 ^ k
digits_mask n zero a h = omega (arith, zero_mask n a h)
digits_mask zero (suc k) zero h = sym (zero-mod (2 ^ suc k))
digits_mask zero (suc k) (suc a) h = absurd (omega arith)
digits_mask (suc n) (suc k) zero h = sym (zero-mod (2 ^ suc k))
digits_mask (suc n) (suc k) (suc a) h = rw (
  mask_half k,
  mask_odd k,
  digits_mask n k (suc a / 2) (omega arith),
  pow-suc_two k,
  half_mod (suc a) (2 ^ k),
  digit,
)
  where
    digit : suc a / 2 % 2 ^ k * 2 + min (suc a % 2) 1 ≡ suc a / 2 % 2 ^ k * 2 + suc a % 2
    digit = omega arith

-- The mask of the lowest `k` binary digits.
pub bit_and-mask : (k a : ℕ) → bit_and a (2 ^ k - 1) ≡ a % 2 ^ k
bit_and-mask k a = bit_and-bitwise a (2 ^ k - 1) ∙ digits_mask a k a (omega arith)

double_shifted : (b k : ℕ) → b * 2 ^ suc k ≡ 2 * (b * 2 ^ k)
double_shifted b k = ap (λ p. b * p) (two-pow-succ k) ∙ omega (arith, mul-add b (2 ^ k) (2 ^ k))

shifted_half : (b k : ℕ) → b * 2 ^ suc k / 2 ≡ b * 2 ^ k
shifted_half b k = omega (arith, double_shifted b k)

shifted_even : (b k : ℕ) → b * 2 ^ suc k % 2 ≡ 0
shifted_even b k = omega (arith, double_shifted b k)

digits_shifted :
    (n k a b : ℕ) → a ≤ n → a < 2 ^ k → digits (λ b. b) max n a (b * 2 ^ k) ≡ a + b * 2 ^ k
digits_shifted zero k a b h lt = omega arith
digits_shifted (suc n) k zero b h lt = omega arith
digits_shifted (suc n) zero (suc a) b h lt = absurd (omega arith)
digits_shifted (suc n) (suc k) (suc a) b h lt =
    rw
      (
        shifted_half b k,
        shifted_even b k,
        digits_shifted n k (suc a / 2) b (omega arith) (omega (arith, two-pow-succ k)),
        double_shifted b k,
      )
      sum
  where
    sum : (suc a / 2 + b * 2 ^ k) * 2 + max (suc a % 2) 0 ≡ suc a + 2 * (b * 2 ^ k)
    sum = omega arith

-- Bits above the lowest `k` are put beside them by an addition.
pub bit_or-shifted : (k a b : ℕ) → a < 2 ^ k → bit_or a (b * 2 ^ k) ≡ a + b * 2 ^ k
bit_or-shifted k a b lt = bit_or-bitwise a (b * 2 ^ k) ∙ digits_shifted a k a b (omega arith) lt
