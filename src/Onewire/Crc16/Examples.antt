-- ===== src/Onewire/Crc16/Examples.antt =====
-- The theorems on `crc16` at a command of a DS2408 and its answer.
use esp_ac_dimmer.Prelude.{
  true, length, ◌<◌, ◌++◌, ℕ, ◌+◌, ◌*◌, ◌≡◌, ◌↔◌, arith, List, [], ◌∷◌, some, All,
}
use esp_ac_dimmer.Onewire.Crc16.{crc16, check_crc16}
use esp_ac_dimmer.Onewire.Crc16.Laws.{crc16_bitwise, crc16-eq-bitwise, check_crc16_iff}

-- A command, its two address bytes and a byte of data.
abbrev sent : List ℕ
sent = 0xF0 ∷ 0x88 ∷ 0x00 ∷ 0x5A ∷ []

sent-bytes : All (λ b. b < 256) sent
sent-bytes = omega arith

crc16-eq-bitwise_example : crc16 (sent ++ (0x77 ∷ [])) (length sent) 0 ≡ some (crc16_bitwise 0 sent)
crc16-eq-bitwise_example = crc16-eq-bitwise sent (0x77 ∷ []) 0 sent-bytes (omega arith)

check_crc16_iff_example :
    (check_crc16 (sent ++ []) (length sent) 0x12 0x34 0 ≡ some true)
    ↔ (0x12 + 0x34 * 256 + crc16_bitwise 0 sent ≡ 0xFFFF)
check_crc16_iff_example =
    check_crc16_iff sent [] 0 0x12 0x34 sent-bytes (omega arith) (omega arith) (omega arith)
      (omega arith)
