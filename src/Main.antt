-- ===== src/Main.antt =====
-- The loop of `app_main` in src/main/main.cpp, which polls the 1-Wire devices: each pass searches for the
-- next device, measures its temperature and sends it.
pub mod Kept
pub mod Passes
pub mod Rounds
pub mod Wiring
pub mod Startup
pub mod Delivery
mod Examples
use esp_ac_dimmer.Prelude.{
  ℕ, zero, suc, ◌+◌, ◌*◌, ◌==◌, if◌then◌else◌, Bool, true, false, List, [], ◌∷◌, Option, none, some,
  get_or,
}
use esp_ac_dimmer.Prelude.Int.{ℤ}
use esp_ac_dimmer.Streams.Values.{value_of}
use esp_ac_dimmer.Onewire.Line.{Callbacks}
use esp_ac_dimmer.Onewire.Crc8.{crc8}
use esp_ac_dimmer.Onewire.Search.{SearchState, reset_search, search}
use esp_ac_dimmer.Onewire.TemperatureSensor.{SensorClass, create_sensor, measure_temperature}
use esp_ac_dimmer.Onewire.TemperatureSensor.Celsius.{get_celsius}

-- `RegisterNumber::isCrcValid`.
pub is_crc_valid : List ℕ → Bool
is_crc_valid rom_data = elim (crc8 rom_data 7) [
  | none ↦ false
  | some crc ↦ get_or rom_data 7 0 == crc
]

-- The number `val64` of the address, and the temperature in sixteenths of a degree.
pub record TempMsg : Type 0 where
  pub id : ℕ
  pub temp_cels : ℤ

-- How a pass of the loop ends, with the address that was found.
pub data Pass : Type 0 where
  no_more_addresses : Pass
  crc_not_valid : List ℕ → Pass
  bad_sensor : List ℕ → Pass
  data_sent : List ℕ → TempMsg → Pass

-- `task_delay` is `vTaskDelay` of so many milliseconds, `send_data` is `udp_srv::sendData`, and `garbage`
-- is what the memory of a new sensor's `m_data` holds.
module _ {W : Type 0} (cb : Callbacks W) (task_delay : ℕ → W → W) (send_data : TempMsg → W → W)
    (garbage : List ℕ) where
  -- From the sensor that `create` gives on.
  pub measure_and_send : List ℕ → Option SensorClass → W → Pass × W
  measure_and_send rom_data none w = (bad_sensor rom_data, w)
  measure_and_send rom_data (some class) w =
      let (measured, m_data, w₁) = measure_temperature cb task_delay rom_data garbage w in
      let msg : TempMsg = record { id = value_of rom_data; temp_cels = get_celsius class m_data } in
      if measured then (data_sent rom_data msg, send_data msg w₁) else (bad_sensor rom_data, w₁)

  -- What is done with a found address.
  pub handle_address : List ℕ → W → Pass × W
  unfolding is_crc_valid measure_and_send
  handle_address rom_data w =
      if is_crc_valid rom_data
      then measure_and_send rom_data (create_sensor (get_or rom_data 0 0)) w
      else (crc_not_valid rom_data, w)

  -- One pass of the loop.
  pub pass : SearchState → W → Option (Pass × SearchState × W)
  unfolding handle_address
  pass s w = elim (search cb s true (task_delay 500 w)) [
    | none ↦ none
    | some (none, s', w') ↦ some (no_more_addresses, reset_search s', w')
    | some (some rom_data, s', w') ↦ let (p, w'') = handle_address rom_data w' in some (p, s', w'')
  ]

  -- So many passes of the endless loop.
  pub passes : ℕ → SearchState → W → Option (List Pass × SearchState × W)
  unfolding pass
  passes zero s w = some ([], s, w)
  passes (suc n) s w = elim (pass s w) [
    | none ↦ none
    | some (p, s', w') ↦ elim (passes n s' w') [
      | none ↦ none
      | some (ps, s'', w'') ↦ some (p ∷ ps, s'', w'')
    ]
  ]
