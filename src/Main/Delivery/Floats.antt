-- ===== src/Main/Delivery/Floats.antt =====
-- The pattern of a `float` of sixteenths stands for that number of sixteenths.
use esp_ac_dimmer.Prelude.{
  ℕ, zero, suc, ◌+◌, ◌-◌, ◌*◌, ◌/◌, ◌%◌, ◌^◌, ◌<◌, ◌≤◌, ◌≡◌, ap, ◌∙◌, arith, ltb, inl, inr,
  Bool-cases,
}
use native.Mathlib.Nat.{pow-suc}
use esp_ac_dimmer.Prelude.Int.{pos}
use esp_ac_dimmer.Main.Delivery.{exponent_of, magnitude_bits, float_bits}

exponent_of-bounds :
    (fuel n : ℕ)
    → 0 < n
    → n < 2 ^ fuel
    → let e = exponent_of fuel n in (2 ^ e ≤ n) × (n < 2 * 2 ^ e) × (e < fuel)
unfolding exponent_of
exponent_of-bounds zero n some_bit below = absurd (omega arith)
exponent_of-bounds (suc fuel) n some_bit below = elim (Bool-cases (ltb n 2)) [
  | inl one ↦ rw one (ground arith)
  | inr more ↦
      let two : 2 ≤ n = ground arith in
      let e = exponent_of fuel (n / 2) in
      let h = exponent_of-bounds fuel (n / 2) (omega arith) (omega (arith, pow-suc 2 fuel)) in
      rw more (omega (arith, h, pow-suc 2 e))
]

twice_scaled : (d a : ℕ) → a * 2 ^ suc d ≡ 2 * (a * 2 ^ d)
twice_scaled d a = rw (pow-suc 2 d) (omega arith)

scale_add : (d a b : ℕ) → (a + b) * 2 ^ d ≡ a * 2 ^ d + b * 2 ^ d
scale_add d a b = ground arith

scale_lt : (d a b : ℕ) → a < b → a * 2 ^ d < b * 2 ^ d
scale_lt zero a b h = omega arith
scale_lt (suc d) a b h = rw (twice_scaled d a, twice_scaled d b) (omega (arith, scale_lt d a b h))

power_sum : (d e : ℕ) → 2 ^ e * 2 ^ d ≡ 2 ^ (e + d)
power_sum zero e = let same : e + 0 ≡ e = omega arith in rw same (omega arith)
power_sum (suc d) e =
    let same : e + suc d ≡ suc (e + d) = omega arith in
    rw (twice_scaled d (2 ^ e), power_sum d e, same) (omega (arith, pow-suc 2 (e + d)))

-- The fields of the pattern, by the exponent.
magnitude_bits-fields :
    (n e : ℕ)
    → 2 ^ e ≤ n
    → n < 2 * 2 ^ e
    → e ≤ 23
    → (magnitude_bits n e / 2 ^ 23 ≡ e + 123)
      × (2 ^ 23 + magnitude_bits n e % 2 ^ 23 ≡ n * 2 ^ (23 - e))
magnitude_bits-fields n e low high small =
    let d = 23 - e in
    let m = n - 2 ^ e in
    let whole : e + d ≡ 23 = omega arith in
    let unit : 2 ^ e * 2 ^ d ≡ 2 ^ 23 = rw whole at (power_sum d e) in
    let below : m * 2 ^ d < 2 ^ 23 = rw unit at (scale_lt d m (2 ^ e) (omega arith)) in
    let parts : n ≡ 2 ^ e + m = omega arith in
    let split : n * 2 ^ d ≡ 2 ^ 23 + m * 2 ^ d =
      ap (λ k. k * 2 ^ d) parts ∙ (scale_add d (2 ^ e) m ∙ ap (λ k. k + m * 2 ^ d) unit) in
    (omega (arith, below), omega (arith, below, split))

-- The pattern of a positive number of sixteenths below 2 ^ 24 stands for it: with the exponent e + 123,
-- whose bias is 127, and the significand n * 2 ^ (23 - e) / 2 ^ 23, it is n / 16.
float_bits-fields :
    (n : ℕ)
    → 0 < n
    → n < 2 ^ 24
    → (e : ℕ) × (e ≤ 23)
      × (float_bits (pos n) / 2 ^ 23 ≡ e + 123)
      × (2 ^ 23 + float_bits (pos n) % 2 ^ 23 ≡ n * 2 ^ (23 - e))
unfolding float_bits
float_bits-fields zero h below = absurd (omega arith)
float_bits-fields (suc n) h below =
    let e = exponent_of 24 (suc n) in
    let b = exponent_of-bounds 24 (suc n) h below in
    let fields = magnitude_bits-fields (suc n) e b.0 b.1 (omega (arith, b.2)) in
    (e, omega (arith, b.2), fields.0, fields.1)
