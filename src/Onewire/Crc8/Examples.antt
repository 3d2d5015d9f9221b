-- ===== src/Onewire/Crc8/Examples.antt =====
-- The theorems on `crc8` at the ROM number of a DS18B20.
use esp_ac_dimmer.Prelude.{ℕ, ◌≡◌, ◌≢◌, arith, List, [], ◌∷◌, All}
use esp_ac_dimmer.Onewire.Crc8.{crc8, crc8_table}
use esp_ac_dimmer.Onewire.Crc8.Laws.{IsByte}
use esp_ac_dimmer.Onewire.Crc8.Table.{crc8_table-eq-crc8}
use esp_ac_dimmer.Onewire.Crc8.Errors.{crc8_detects_byte}

abbrev rom_code : List ℕ
rom_code = 0x28 ∷ 0xFF ∷ 0x64 ∷ 0x1E ∷ 0x0F ∷ 0x16 ∷ 0x03 ∷ []

rom_code-bytes : All IsByte rom_code
rom_code-bytes = omega arith

crc8_table-eq-crc8_example : crc8_table rom_code 7 ≡ crc8 rom_code 7
crc8_table-eq-crc8_example = crc8_table-eq-crc8 rom_code 7 rom_code-bytes

crc8_detects_byte_example :
    crc8 (0x28 ∷ 0xFF ∷ 0x64 ∷ 0x1E ∷ 0x0F ∷ []) 5 ≢ crc8 (0x28 ∷ 0xFF ∷ 0x65 ∷ 0x1E ∷ 0x0F ∷ []) 5
crc8_detects_byte_example =
    crc8_detects_byte (0x28 ∷ 0xFF ∷ []) (0x1E ∷ 0x0F ∷ []) 0x64 0x65 (omega arith) (omega arith)
      (omega arith) (omega arith) (omega arith) (omega arith)
