-- ===== src/Onewire/TemperatureSensor/Celsius.antt =====
-- `getCelsius` of the two sensor classes of src/components/onewire/src/TemperatureSensor.cpp.
pub mod Readings
mod Examples
use esp_ac_dimmer.Prelude.{
  ℕ, suc, ◌+◌, ◌-◌, ◌*◌, ◌%◌, ◌^◌, ◌==◌, ltb, if◌then◌else◌, bit_and, bit_or, List, get_or,
}
use esp_ac_dimmer.Prelude.Int.{ℤ, pos, negsuc}
use esp_ac_dimmer.Onewire.TemperatureSensor.{SensorClass, ds18s20, ds18b20}

-- The number whose 16-bit pattern is given.
pub int16 : ℕ → ℤ
int16 r = if ltb r (2 ^ 15) then pos r else negsuc (2 ^ 16 - 1 - r)

-- `(m_data[1] << 8) | m_data[0]`, as all that follow the pattern of an `int16_t`.
pub raw_data : List ℕ → ℕ
raw_data m_data = bit_or (get_or m_data 1 0 * 2 ^ 8) (get_or m_data 0 0) % 2 ^ 16

-- The low bits that are undefined at a lower resolution are cleared, by the configuration byte.
pub raw_ds18b20 : List ℕ → ℕ
unfolding raw_data
raw_ds18b20 m_data =
    let raw = raw_data m_data in
    let cfg = bit_and (get_or m_data 4 0) 0x60 in
    if cfg == 0x00
    then bit_and raw (2 ^ 16 - 1 - 7)
    else if cfg == 0x20
    then bit_and raw (2 ^ 16 - 1 - 3)
    else if cfg == 0x40
    then bit_and raw (2 ^ 16 - 1 - 1)
    else raw

-- `raw << 3`, and with a count per degree of 16 the count that remains gives four more bits.
pub raw_ds18s20 : List ℕ → ℕ
unfolding raw_data
raw_ds18s20 m_data =
    let raw = raw_data m_data * 2 ^ 3 % 2 ^ 16 in
    if get_or m_data 7 0 == 0x10
    then (bit_and raw 0xFFF0 + 12 + 2 ^ 16 - get_or m_data 6 0) % 2 ^ 16
    else raw

-- `getCelsius`, in sixteenths of a degree.
pub get_celsius : SensorClass → List ℕ → ℤ
unfolding raw_ds18b20 raw_ds18s20 int16
get_celsius ds18b20 m_data = int16 (raw_ds18b20 m_data)
get_celsius ds18s20 m_data = int16 (raw_ds18s20 m_data)
