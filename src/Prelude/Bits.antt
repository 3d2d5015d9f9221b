-- ===== src/Prelude/Bits.antt =====
-- Laws of `bit_xor` and `bit_and` at variables, from the digit recursion that they stand for.
use Prim.Native.Nat.{
  digits, bitwise, differ, bit_xor-bitwise, bit_and-bitwise, bit_or-bitwise, min, max,
}
use Prim.Native.Nat.{ℕ, zero, suc, ◌+◌, ◌*◌, ◌/◌, ◌%◌, ◌^◌, ◌≤◌, ◌<◌, bit_and, bit_or, bit_xor}
use mathlib.Core.Path.{◌≡◌, refl, ap, ◌∙◌}
use native.Mathlib.Nat.{pow-suc}
use native.Mathlib.Omega.{arith}

module _ (rest : ℕ → ℕ) (on_digits : ℕ → ℕ → ℕ) where
  -- Fuel beyond the first number changes nothing.
  digits-spare :
      (less more a b : ℕ)
      → a ≤ less
      → less ≤ more
      → digits rest on_digits more a b ≡ digits rest on_digits less a b
  digits-spare zero zero a b h le = refl
  digits-spare (suc less) zero a b h le = absurd (omega arith)
  digits-spare zero (suc more) zero b h le = refl
  digits-spare (suc less) (suc more) zero b h le = refl
  digits-spare zero (suc more) (suc a) b h le = absurd (omega arith)
  digits-spare (suc less) (suc more) (suc a) b h le =
      let halves = digits-spare less more (suc a / 2) (b / 2) (omega arith) (omega arith) in
      ap (λ d. d * 2 + on_digits (suc a % 2) (b % 2)) halves

  bitwise-halves :
      (a b : ℕ)
      → bitwise rest on_digits (suc a) b
        ≡ bitwise rest on_digits (suc a / 2) (b / 2) * 2 + on_digits (suc a % 2) (b % 2)
  bitwise-halves a b =
      let half = suc a / 2 in
      ap (λ d. d * 2 + on_digits (suc a % 2) (b % 2))
        (digits-spare half a half (b / 2) (omega arith) (omega arith))

differ-mod : (a b : ℕ) → a < 2 → b < 2 → differ a b ≡ (a + b) % 2
differ-mod zero zero p q = refl
differ-mod zero (suc zero) p q = refl
differ-mod zero (suc (suc b)) p q = absurd (omega arith)
differ-mod (suc zero) zero p q = refl
differ-mod (suc zero) (suc zero) p q = refl
differ-mod (suc zero) (suc (suc b)) p q = absurd (omega arith)
differ-mod (suc (suc a)) b p q = absurd (omega arith)

-- The lowest digit of an exclusive or is the sum of the two lowest digits without a carry.
pub bit_xor_step : (a b : ℕ) → bit_xor a b ≡ bit_xor (a / 2) (b / 2) * 2 + (a % 2 + b % 2) % 2
bit_xor_step zero b = simp bit_xor-bitwise (omega arith)
bit_xor_step (suc a) b = simp bit_xor-bitwise (
    omega (
      arith,
      bitwise-halves (λ y. y) differ a b,
      differ-mod (suc a % 2) (b % 2) (omega arith) (omega arith),
    ))

pub bit_and_step : (x y : ℕ) → bit_and x y ≡ min (x % 2) (y % 2) + 2 * bit_and (x / 2) (y / 2)
bit_and_step zero y = omega (arith, bit_and-bitwise 0 y, bit_and-bitwise 0 (y / 2))
bit_and_step (suc x) y =
    let halves = bitwise-halves (λ rest. 0) min x y in simp bit_and-bitwise (omega arith)

pub bit_xor-half : (a b : ℕ) → bit_xor a b / 2 ≡ bit_xor (a / 2) (b / 2)
bit_xor-half a b = omega (arith, bit_xor_step a b)

pub bit_xor-mod_two : (a b : ℕ) → bit_xor a b % 2 ≡ (a + b) % 2
bit_xor-mod_two a b = omega (arith, bit_xor_step a b)

-- The laws below go from the halves to the numbers, on fuel above the arguments.
xor_assoc_fuel :
    (n a b c : ℕ) → a ≤ n → b ≤ n → c ≤ n → bit_xor (bit_xor a b) c ≡ bit_xor a (bit_xor b c)
xor_assoc_fuel zero zero zero zero p q r = refl
xor_assoc_fuel zero (suc a) b c p q r = absurd (omega arith)
xor_assoc_fuel zero zero (suc b) c p q r = absurd (omega arith)
xor_assoc_fuel zero zero zero (suc c) p q r = absurd (omega arith)
xor_assoc_fuel (suc n) a b c p q r =
    rw
      (
        bit_xor_step (bit_xor a b) c,
        bit_xor_step a (bit_xor b c),
        bit_xor-half a b,
        bit_xor-half b c,
      )
      (omega (
        arith,
        bit_xor-mod_two a b,
        bit_xor-mod_two b c,
        xor_assoc_fuel n (a / 2) (b / 2) (c / 2) (omega arith) (omega arith) (omega arith),
      ))

pub bit_xor_assoc : (a b c : ℕ) → bit_xor (bit_xor a b) c ≡ bit_xor a (bit_xor b c)
bit_xor_assoc a b c = xor_assoc_fuel (a + b + c) a b c (omega arith) (omega arith) (omega arith)

xor_comm_fuel : (n a b : ℕ) → a ≤ n → b ≤ n → bit_xor a b ≡ bit_xor b a
xor_comm_fuel zero zero zero p q = refl
xor_comm_fuel zero (suc a) b p q = absurd (omega arith)
xor_comm_fuel zero zero (suc b) p q = absurd (omega arith)
xor_comm_fuel (suc n) a b p q = omega (
  arith,
  bit_xor_step a b,
  bit_xor_step b a,
  xor_comm_fuel n (a / 2) (b / 2) (omega arith) (omega arith),
)

pub bit_xor_comm : (a b : ℕ) → bit_xor a b ≡ bit_xor b a
bit_xor_comm a b = xor_comm_fuel (a + b) a b (omega arith) (omega arith)

pub zero-bit_xor : (b : ℕ) → bit_xor 0 b ≡ b
zero-bit_xor b = bit_xor-bitwise 0 b

pub bit_xor-zero : (a : ℕ) → bit_xor a 0 ≡ a
bit_xor-zero a = rw (bit_xor_comm a 0) (zero-bit_xor a)

xor_self_fuel : (n a : ℕ) → a ≤ n → bit_xor a a ≡ 0
xor_self_fuel zero zero p = refl
xor_self_fuel zero (suc a) p = absurd (omega arith)
xor_self_fuel (suc n) a p = omega (arith, bit_xor_step a a, xor_self_fuel n (a / 2) (omega arith))

pub bit_xor_self : (a : ℕ) → bit_xor a a ≡ 0
bit_xor_self a = xor_self_fuel a a (omega arith)

-- An exclusive or with the same number on the left can be undone.
pub bit_xor_cancel : (c a b : ℕ) → bit_xor c a ≡ bit_xor c b → a ≡ b
bit_xor_cancel c a b e =
    cc (bit_xor_assoc c c a, bit_xor_assoc c c b, bit_xor_self c, zero-bit_xor a, zero-bit_xor b)

pub bit_xor-lt : (k a b : ℕ) → a < 2 ^ k → b < 2 ^ k → bit_xor a b < 2 ^ k
bit_xor-lt zero zero zero p q = p
bit_xor-lt zero (suc a) b p q = absurd (omega arith)
bit_xor-lt zero zero (suc b) p q = absurd (omega arith)
bit_xor-lt (suc k) a b p q = omega (
  arith,
  pow-suc 2 k,
  bit_xor_step a b,
  bit_xor-lt k (a / 2) (b / 2) (omega (arith, pow-suc 2 k)) (omega (arith, pow-suc 2 k)),
)

-- Bits above the lowest `k` and the lowest `k` bits do not meet.
pub bit_xor_fields : (k q r : ℕ) → r < 2 ^ k → bit_xor (q * 2 ^ k) r ≡ q * 2 ^ k + r
bit_xor_fields zero q zero p = rw (bit_xor-zero (q * 2 ^ 0)) (omega arith)
bit_xor_fields zero q (suc r) p = absurd (omega arith)
bit_xor_fields (suc k) q r p =
    let twice : q * 2 ^ suc k ≡ 2 * (q * 2 ^ k) = rw (pow-suc 2 k) (omega arith) in
    let halves : q * 2 ^ suc k / 2 ≡ q * 2 ^ k = omega arith in
    rw
      (
        bit_xor_step (q * 2 ^ suc k) r,
        halves,
        bit_xor_fields k q (r / 2) (omega (arith, pow-suc 2 k)),
      )
      (omega arith)

zero-bit_and : (b : ℕ) → bit_and 0 b ≡ 0
zero-bit_and b = bit_and-bitwise 0 b

no_bits_fuel : (fuel x : ℕ) → x ≤ fuel → bit_and x 0 ≡ 0
no_bits_fuel fuel zero le = refl
no_bits_fuel (suc fuel) (suc x) le =
    let halves = no_bits_fuel fuel (suc x / 2) (omega arith) in bit_and_step (suc x) 0 ∙ omega arith
no_bits_fuel zero (suc x) le = absurd (omega arith)

pub bit_and-one : (x : ℕ) → bit_and x 1 ≡ x % 2
bit_and-one x = bit_and_step x 1 ∙ omega (arith, no_bits_fuel x (x / 2) (omega arith))

-- A mask of `k` ones keeps the remainder by `2 ^ k`.
pub bit_and_fifteen : (a : ℕ) → bit_and a 15 ≡ a % 16
bit_and_fifteen a = omega (
  arith,
  bit_and_step a 15,
  bit_and_step (a / 2) 7,
  bit_and_step (a / 2 / 2) 3,
  bit_and-one (a / 2 / 2 / 2),
)

pub bit_and_byte : (a : ℕ) → bit_and a 255 ≡ a % 256
bit_and_byte a = omega (
  arith,
  bit_and_step a 255,
  bit_and_step (a / 2) 127,
  bit_and_step (a / 2 / 2) 63,
  bit_and_step (a / 2 / 2 / 2) 31,
  bit_and_fifteen (a / 2 / 2 / 2 / 2),
)

div_256 : (a : ℕ) → a / 256 ≡ a / 2 / 2 / 2 / 2 / 2 / 2 / 2 / 2
div_256 a = omega arith

pub bit_xor-div_256 : (a b : ℕ) → bit_xor a b / 256 ≡ bit_xor (a / 256) (b / 256)
bit_xor-div_256 a b = rw (div_256 (bit_xor a b), div_256 a, div_256 b) (simp bit_xor-half)

pub bit_or_step : (x y : ℕ) → bit_or x y ≡ max (x % 2) (y % 2) + 2 * bit_or (x / 2) (y / 2)
bit_or_step zero y = omega (arith, bit_or-bitwise 0 y, bit_or-bitwise 0 (y / 2))
bit_or_step (suc x) y =
    let halves = bitwise-halves (λ rest. rest) max x y in simp bit_or-bitwise (omega arith)

pub bit_or-lt : (k a b : ℕ) → a < 2 ^ k → b < 2 ^ k → bit_or a b < 2 ^ k
bit_or-lt zero zero zero p q = p
bit_or-lt zero (suc a) b p q = absurd (omega arith)
bit_or-lt zero zero (suc b) p q = absurd (omega arith)
bit_or-lt (suc k) a b p q = omega (
  arith,
  pow-suc 2 k,
  bit_or_step a b,
  bit_or-lt k (a / 2) (b / 2) (omega (arith, pow-suc 2 k)) (omega (arith, pow-suc 2 k)),
)

and_le_fuel : (n a b : ℕ) → a ≤ n → bit_and a b ≤ a
and_le_fuel zero zero b h = omega (arith, zero-bit_and b)
and_le_fuel zero (suc a) b h = absurd (omega arith)
and_le_fuel (suc n) zero b h = omega (arith, zero-bit_and b)
and_le_fuel (suc n) (suc a) b h =
    omega (arith, bit_and_step (suc a) b, and_le_fuel n (suc a / 2) (b / 2) (omega arith))

pub bit_and-le : (a b : ℕ) → bit_and a b ≤ a
bit_and-le a b = and_le_fuel a a b (omega arith)
