-- ===== src/Onewire/TemperatureSensor/Celsius/Examples.antt =====
-- The theorems on the temperatures at readings of the data sheets.
use esp_ac_dimmer.Prelude.{ℕ, ◌≡◌, refl, arith, List, [], ◌∷◌}
use esp_ac_dimmer.Prelude.Int.{pos, negsuc}
use esp_ac_dimmer.Onewire.TemperatureSensor.{ds18s20, ds18b20}
use esp_ac_dimmer.Onewire.TemperatureSensor.Celsius.{get_celsius}
use esp_ac_dimmer.Onewire.TemperatureSensor.Celsius.Readings.{
  HasBytes, get_celsius-ds18b20, get_celsius-ds18s20,
}

-- -10.0625 degrees, at 11 bits.
abbrev cold : List ℕ
cold = 0x5F ∷ 0xFF ∷ 0 ∷ 0 ∷ 0x5F ∷ 0 ∷ 0 ∷ 0 ∷ 0 ∷ []

cold-HasBytes : HasBytes cold
cold-HasBytes = record { low = omega arith; high = omega arith; remain = omega arith }

get_celsius-ds18b20_example : get_celsius ds18b20 cold ≡ negsuc 161
get_celsius-ds18b20_example = get_celsius-ds18b20 cold (negsuc 160) cold-HasBytes (omega arith) refl

-- 25 degrees and a half, with 4 of 16 steps left.
abbrev warm : List ℕ
warm = 0x33 ∷ 0 ∷ 0 ∷ 0 ∷ 0 ∷ 0 ∷ 4 ∷ 0x10 ∷ 0 ∷ []

warm-HasBytes : HasBytes warm
warm-HasBytes = record { low = omega arith; high = omega arith; remain = omega arith }

get_celsius-ds18s20_example : get_celsius ds18s20 warm ≡ pos 408
get_celsius-ds18s20_example = get_celsius-ds18s20 warm (pos 51) warm-HasBytes (omega arith) refl
