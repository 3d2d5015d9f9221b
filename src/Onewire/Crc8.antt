-- ===== src/Onewire/Crc8.antt =====
-- `crc8` of src/components/onewire/src/onewire.cpp: the bit-by-bit version, which the firmware is built
-- with, and the version over a table of 32 bytes, which ONEWIRE_CRC8_TABLE selects.
pub mod Laws
pub mod Table
pub mod Errors
mod Examples
use esp_ac_dimmer.Prelude.{
  ℕ, zero, suc, ◌+◌, ◌/◌, ◌%◌, ◌^◌, ◌==◌, if◌then◌else◌, bit_and, bit_xor, List, [], ◌∷◌, Option,
  none, some, get_or,
}

-- One round of the inner loop, with the two variables that it changes.
pub crc8_round : ℕ → ℕ → ℕ
crc8_round crc inbyte =
    let mix = bit_and (bit_xor crc inbyte) 0x01 in
    let crc' = crc / 2 in if mix == 0 then crc' else bit_xor crc' 0x8C

-- `for (uint8_t i = 8; i; i--)`: the first argument is `i`.
pub crc8_byte : ℕ → ℕ → ℕ → ℕ
crc8_byte zero crc inbyte = crc
crc8_byte (suc i) crc inbyte = crc8_byte i (crc8_round crc inbyte) (inbyte / 2)

-- `while (len--)`: the list is the memory from `addr` on, and `none` a read behind its end.
pub crc8_loop : ℕ → List ℕ → ℕ → Option ℕ
crc8_loop zero addr crc = some crc
crc8_loop (suc len) [] crc = none
crc8_loop (suc len) (inbyte ∷ addr) crc = crc8_loop len addr (crc8_byte 8 crc inbyte)

-- `len` is a `uint8_t`.
unfoldable pub crc8 : List ℕ → ℕ → Option ℕ
unfolding crc8_loop crc8_byte crc8_round
crc8 addr len = crc8_loop (len % 2 ^ 8) addr 0

abbrev pub dscrc2x16_table : List ℕ
dscrc2x16_table =
    0x00 ∷ 0x5E ∷ 0xBC ∷ 0xE2 ∷ 0x61 ∷ 0x3F ∷ 0xDD ∷ 0x83 ∷ 0xC2 ∷ 0x9C ∷ 0x7E ∷ 0x20 ∷ 0xA3 ∷ 0xFD
    ∷ 0x1F ∷ 0x41 ∷ 0x00 ∷ 0x9D ∷ 0x23 ∷ 0xBE ∷ 0x46 ∷ 0xDB ∷ 0x65 ∷ 0xF8 ∷ 0x8C ∷ 0x11 ∷ 0xAF
    ∷ 0x32 ∷ 0xCA ∷ 0x57 ∷ 0xE9 ∷ 0x74 ∷ []

-- `pgm_read_byte(dscrc2x16_table + i)`; both indices of the code are below 32.
pub table_at : ℕ → ℕ
table_at i = get_or dscrc2x16_table i 0

-- The loop's body: `crc` is first reused for `*addr ^ crc`.
pub table_byte : ℕ → ℕ → ℕ
unfolding table_at
table_byte crc inbyte =
    let crc' = bit_xor inbyte crc in
    bit_xor (table_at (bit_and crc' 0x0f)) (table_at (16 + bit_and (crc' / 2 ^ 4) 0x0f))

pub table_loop : ℕ → List ℕ → ℕ → Option ℕ
table_loop zero addr crc = some crc
table_loop (suc len) [] crc = none
table_loop (suc len) (inbyte ∷ addr) crc = table_loop len addr (table_byte crc inbyte)

pub crc8_table : List ℕ → ℕ → Option ℕ
unfolding table_loop table_byte
crc8_table addr len = table_loop (len % 2 ^ 8) addr 0
