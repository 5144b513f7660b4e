-- ===== src/Fat/Volume/PowerOfTwo.antt =====
-- `is_power_of_2` of fat_util.h.
use fa_maf_sis_op.Prelude.{ℕ, zero, suc, ◌-◌, ◌/◌, ◌^◌, ◌≤◌, ◌<◌, ◌≡◌, true, arith, dec_lt}
use Prim.Native.Nat.{min, digits, bit_and-bitwise}
use native.Mathlib.Nat.{two-pow-succ}
use fa_maf_sis_op.Fat.Bits.{pow_pos}
use fa_maf_sis_op.Fat.Volume.{is_power_of_2}

-- Two numbers with the same highest bit have it in common.
digits_top :
    (fuel k a b : ℕ)
    → a ≤ fuel
    → 2 ^ k ≤ a
    → a < 2 ^ suc k
    → 2 ^ k ≤ b
    → b < 2 ^ suc k
    → 0 < digits (λ b. zero) min fuel a b
digits_top zero k a b h la ua lb ub = absurd (omega (arith, pow_pos k))
digits_top (suc fuel) k zero b h la ua lb ub = absurd (omega (arith, pow_pos k))
digits_top (suc fuel) zero (suc a) b h la ua lb ub = omega arith
digits_top (suc fuel) (suc k) (suc a) b h la ua lb ub = omega (
  arith,
  digits_top fuel k (suc a / 2) (b / 2) (omega arith) (omega (arith, two-pow-succ k))
      (omega (arith, two-pow-succ (suc k), two-pow-succ k)) (omega (arith, two-pow-succ k))
      (omega (arith, two-pow-succ (suc k), two-pow-succ k)),
)

-- A number that passes the test is the power of two of its highest bit.
pub is_power_of_2_lem : (k n : ℕ) → 2 ^ k ≤ n → n < 2 ^ suc k → is_power_of_2 n ≡ true → n ≡ 2 ^ k
unfolding is_power_of_2
is_power_of_2_lem k n lo hi test = elim (dec_lt (2 ^ k) n) [
  | no ge ↦ omega arith
  | yes more ↦ absurd (
      grind (
        arith,
        bit_and-bitwise n (n - 1),
        digits_top n k n (n - 1) (omega arith) lo hi (omega arith) (omega arith),
      ))
]
