-- ===== src/Onewire/TemperatureSensor/Examples.antt =====
-- The theorems on a measurement at a wire on which a sensor shows itself and then reads 0.
use esp_ac_dimmer.Prelude.{
  ℕ, ◌+◌, ◌==◌, ◌%◌, ◌||◌, ◌≡◌, refl, ltb, ◌&&◌, true, false, List, some, replicate, length, get_or,
}
use esp_ac_dimmer.Onewire.Line.{Callbacks, reset, select, write, poll, read_bytes}
use esp_ac_dimmer.Onewire.Crc8.{crc8}
use esp_ac_dimmer.Onewire.TemperatureSensor.{measure_temperature, data_valid}
use esp_ac_dimmer.Onewire.TemperatureSensor.Measure.{measure_temperature-valid}

-- The number of reads of the pin; two presence pulses, and then it is low.
abbrev wire : Callbacks ℕ
wire = record {
  set_pin_mode = λ m n. n;
  read_pin_value = λ n. (ltb n 8 && ((n % 4 == 0) || ((n % 4 == 1) || (n % 4 == 3))), n + 1);
  set_pin_value = λ b n. n;
  delay = λ t n. n;
  set_intr_mode = λ m n. n;
}

abbrev rom : List ℕ
rom = replicate 8 0x28

measured : (measure_temperature wire (λ t n. n) rom (replicate 9 7) 0).0 ≡ true
unfolding measure_temperature data_valid reset poll write select read_bytes crc8
measured = refl

measure_temperature-valid_example :
    let m_data = (measure_temperature wire (λ t n. n) rom (replicate 9 7) 0).1 in
    (length m_data ≡ 9) × (crc8 m_data 8 ≡ some (get_or m_data 8 0))
measure_temperature-valid_example =
    measure_temperature-valid wire (λ t n. n) rom (replicate 9 7) 0 measured

-- From the ninth read on the wire stays low.
no_presence :
    ((reset wire 8).0 && (reset wire (write wire 0x44 true (select wire rom (reset wire 8).1))).0)
    ≡ false
unfolding reset poll
no_presence = refl
