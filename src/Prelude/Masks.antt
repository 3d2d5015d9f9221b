-- ===== src/Prelude/Masks.antt =====
-- Laws of `bit_and` with a mask of ones above zeros.
use esp_ac_dimmer.Prelude.{
  ℕ, zero, suc, ◌+◌, ◌-◌, ◌*◌, ◌/◌, ◌%◌, ◌^◌, ◌<◌, ◌≤◌, ◌≡◌, ◌∙◌, refl, arith, bit_and, bit_or,
}
use native.Mathlib.Nat.{pow-suc}
use esp_ac_dimmer.Prelude.Bits.{bit_and_step, bit_or_step, bit_and-one}

-- A mask of ones keeps what is below it.
pub bit_and_ones : (n x : ℕ) → x < 2 ^ n → bit_and x (2 ^ n - 1) ≡ x
bit_and_ones zero zero h = refl
bit_and_ones zero (suc x) h = absurd (omega arith)
bit_and_ones (suc n) x h =
    let half : bit_and (x / 2) (2 ^ n - 1) ≡ x / 2 =
      bit_and_ones n (x / 2) (omega (arith, pow-suc 2 n)) in
    let mask : (2 ^ suc n - 1) / 2 ≡ 2 ^ n - 1 = omega (arith, pow-suc 2 n) in
    bit_and_step x (2 ^ suc n - 1) ∙ rw (mask, half) (omega (arith, pow-suc 2 n))

-- A lowest bit that the mask does not have is cleared.
pub bit_and_even : (x m : ℕ) → bit_and x (2 * m) ≡ 2 * bit_and (x / 2) m
bit_and_even x m =
    let half : 2 * m / 2 ≡ m = omega arith in bit_and_step x (2 * m) ∙ rw half (omega arith)

-- A mask of 16 bits without the lowest three, two or one.
pub bit_and_three : (x : ℕ) → x < 2 ^ 16 → bit_and x (2 ^ 16 - 1 - 7) ≡ x - x % 2 ^ 3
bit_and_three x h = omega (
  arith,
  bit_and_even x 32764,
  bit_and_even (x / 2) 16382,
  bit_and_even (x / 2 / 2) 8191,
  bit_and_ones 13 (x / 2 / 2 / 2) (omega arith),
)

pub bit_and_two : (x : ℕ) → x < 2 ^ 16 → bit_and x (2 ^ 16 - 1 - 3) ≡ x - x % 2 ^ 2
bit_and_two x h = omega (
  arith,
  bit_and_even x 32766,
  bit_and_even (x / 2) 16383,
  bit_and_ones 14 (x / 2 / 2) (omega arith),
)

pub bit_and_bit : (x : ℕ) → x < 2 ^ 16 → bit_and x (2 ^ 16 - 1 - 1) ≡ x - x % 2 ^ 1
bit_and_bit x h = omega (arith, bit_and_even x 32767, bit_and_ones 15 (x / 2) (omega arith))

pub bit_and_nibble : (x : ℕ) → x < 2 ^ 16 → bit_and x 0xFFF0 ≡ x - x % 2 ^ 4
bit_and_nibble x h = omega (
  arith,
  bit_and_even x 32760,
  bit_and_three_half (x / 2),
  bit_and_ones 12 (x / 2 / 2 / 2 / 2) (omega arith),
)
  where
    bit_and_three_half : (y : ℕ) → bit_and y 32760 ≡ 8 * bit_and (y / 2 / 2 / 2) 4095
    bit_and_three_half y =
        omega
          (arith, bit_and_even y 16380, bit_and_even (y / 2) 8190, bit_and_even (y / 2 / 2) 4095)

-- The two bits of a configuration byte.
pub bit_and_config : (x : ℕ) → bit_and x 0x60 ≡ 32 * (x / 32 % 4)
bit_and_config x = omega (
  arith,
  bit_and_even x 48,
  bit_and_even (x / 2) 24,
  bit_and_even (x / 2 / 2) 12,
  bit_and_even (x / 2 / 2 / 2) 6,
  bit_and_even (x / 2 / 2 / 2 / 2) 3,
  bit_and_step (x / 2 / 2 / 2 / 2 / 2) 3,
  bit_and-one (x / 2 / 2 / 2 / 2 / 2 / 2),
)

or_zero_fuel : (n x : ℕ) → x ≤ n → bit_or x 0 ≡ x
or_zero_fuel n zero h = refl
or_zero_fuel zero (suc x) h = absurd (omega arith)
or_zero_fuel (suc n) (suc x) h =
    let halves = or_zero_fuel n (suc x / 2) (omega arith) in bit_or_step (suc x) 0 ∙ omega arith

-- Bits above the lowest `k` and the lowest `k` bits do not meet.
pub bit_or_fields : (k q r : ℕ) → r < 2 ^ k → bit_or (q * 2 ^ k) r ≡ q * 2 ^ k + r
bit_or_fields zero q zero p = or_zero_fuel (q * 2 ^ 0) (q * 2 ^ 0) (omega arith) ∙ omega arith
bit_or_fields zero q (suc r) p = absurd (omega arith)
bit_or_fields (suc k) q r p =
    let twice : q * 2 ^ suc k ≡ 2 * (q * 2 ^ k) = rw (pow-suc 2 k) (omega arith) in
    let halves : q * 2 ^ suc k / 2 ≡ q * 2 ^ k = omega arith in
    let above = bit_or_fields k q (r / 2) (omega (arith, pow-suc 2 k)) in
    bit_or_step (q * 2 ^ suc k) r ∙ rw (halves, above) (omega arith)
