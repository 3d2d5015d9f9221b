-- ===== src/Onewire/TemperatureSensor.antt =====
-- `DS18B20_TemperatureSensor` of src/components/onewire/src/TemperatureSensor.cpp: the choice of the
-- sensor's class and the measurement, over the line and the checksum.
pub mod Kept
pub mod Measure
pub mod Celsius
mod Examples
use esp_ac_dimmer.Prelude.{
  ℕ, ◌==◌, if◌then◌else◌, Bool, true, false, List, Option, none, some, get_or,
}
use esp_ac_dimmer.Onewire.Line.{Callbacks, reset, select, write, read_bytes}
use esp_ac_dimmer.Onewire.Crc8.{crc8}

pub data SensorClass : Type 0 where
  ds18s20 ds18b20 : SensorClass

-- `TemperatureSensor::create`, by the family code; `none` is its null pointer.
abbrev pub create_sensor : ℕ → Option SensorClass
create_sensor family_code =
    if family_code == 0x10
    then some ds18s20
    else if family_code == 0x28
    then some ds18b20
    else if family_code == 0x22
    then some ds18b20
    else none

-- `crc8(m_data, 8) != m_data[8]`, negated.
unfoldable pub data_valid : List ℕ → Bool
data_valid m_data = elim (crc8 m_data 8) [ none ↦ false | some crc ↦ crc == get_or m_data 8 0 ]

module _ {W : Type 0} (cb : Callbacks W) (task_delay : ℕ → W → W) where
  -- `measureTemperature`: its answer, `m_data` and the wire. The first list is the sensor's ROM number,
  -- `task_delay` is `vTaskDelay` of so many milliseconds.
  unfoldable pub measure_temperature : List ℕ → List ℕ → W → Bool × List ℕ × W
  unfolding data_valid
  measure_temperature rom m_data w =
      let (present, w₁) = reset cb w in
      let w₂ = task_delay 10 (write cb 0x44 true (select cb rom w₁)) in
      let (present_again, w₃) = reset cb w₂ in
      let w₄ = write cb 0xBE false (select cb rom w₃) in
      let (bytes, w₅) = read_bytes cb 9 w₄ in
      if present
      then (if present_again then (data_valid bytes, bytes, w₅) else (false, m_data, w₃))
      else (false, m_data, w₁)
