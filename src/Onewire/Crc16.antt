-- ===== src/Onewire/Crc16.antt =====
-- `crc16` and `check_crc16` of src/components/onewire/src/onewire.cpp, in 16-bit arithmetic.
pub mod Laws
mod Examples
use esp_ac_dimmer.Prelude.{
  ℕ, zero, suc, ◌+◌, ◌-◌, ◌*◌, ◌/◌, ◌%◌, ◌^◌, ◌==◌, if◌then◌else◌, bit_and, bit_xor, Bool, ◌&&◌,
  List, [], ◌∷◌, Option, none, some, get_or,
}
use mathlib.Core.Option

abbrev pub oddparity : List ℕ
oddparity = 0 ∷ 1 ∷ 1 ∷ 0 ∷ 1 ∷ 0 ∷ 0 ∷ 1 ∷ 1 ∷ 0 ∷ 0 ∷ 1 ∷ 0 ∷ 1 ∷ 1 ∷ 0 ∷ []

-- `oddparity[i]`; both indices of the code are below 16.
pub parity_at : ℕ → ℕ
parity_at i = get_or oddparity i 0

-- The body of the loop over the input. `cdata <<= 6` and `cdata <<= 1` are cut to 16 bits.
pub crc16_byte : ℕ → ℕ → ℕ
unfolding parity_at
crc16_byte crc inbyte =
    let cdata = bit_and (bit_xor inbyte crc) 0xff in
    let crc₁ = crc / 2 ^ 8 in
    let odd = bit_xor (parity_at (bit_and cdata 0x0F)) (parity_at (cdata / 2 ^ 4)) in
    let crc₂ = if odd == 0 then crc₁ else bit_xor crc₁ 0xC001 in
    let cdata₁ = cdata * 2 ^ 6 % 2 ^ 16 in
    let crc₃ = bit_xor crc₂ cdata₁ in let cdata₂ = cdata₁ * 2 % 2 ^ 16 in bit_xor crc₃ cdata₂

-- The list is the memory from `input + i` on, the number `len - i`; `none` is a read behind its end.
pub crc16_loop : List ℕ → ℕ → ℕ → Option ℕ
unfolding crc16_byte
crc16_loop input zero crc = some crc
crc16_loop [] (suc len) crc = none
crc16_loop (inbyte ∷ input) (suc len) crc = crc16_loop input len (crc16_byte crc inbyte)

-- `len` is a `uint16_t`.
pub crc16 : List ℕ → ℕ → ℕ → Option ℕ
unfolding crc16_loop
crc16 input len crc = crc16_loop input (len % 2 ^ 16) crc

-- `crc = ~crc16(…)` is the complement in 16 bits.
pub check_crc16 : List ℕ → ℕ → ℕ → ℕ → ℕ → Option Bool
unfolding crc16
check_crc16 input len lo hi start =
    Option.map (λ c. let crc = 0xFFFF - c in (bit_and crc 0xFF == lo) && (crc / 2 ^ 8 == hi))
      (crc16 input len start)
