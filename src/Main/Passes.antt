-- ===== src/Main/Passes.antt =====
-- What one pass of the loop does after an answer of the search.
use esp_ac_dimmer.Prelude.{
  ℕ, suc, ◌≡◌, refl, true, List, ◌∷◌, get_or, Bool-cases, Option, none, some, inl, inr,
}
use esp_ac_dimmer.Onewire.Line.{Callbacks}
use esp_ac_dimmer.Onewire.Search.{SearchState, reset_search, search}
use esp_ac_dimmer.Onewire.TemperatureSensor.{SensorClass, create_sensor, measure_temperature}
use esp_ac_dimmer.Main.{
  is_crc_valid, TempMsg, Pass, no_more_addresses, crc_not_valid, bad_sensor, data_sent,
  handle_address, measure_and_send, pass, passes,
}

-- The address that a pass found.
abbrev pub address_of : Pass → Option (List ℕ)
address_of no_more_addresses = none
address_of (crc_not_valid rom_data) = some rom_data
address_of (bad_sensor rom_data) = some rom_data
address_of (data_sent rom_data msg) = some rom_data

module _ {W : Type 0} (cb : Callbacks W) (task_delay : ℕ → W → W) (send_data : TempMsg → W → W)
    (garbage : List ℕ) where
  address_of-measure_and_send :
      (rom : List ℕ) (sensor : Option SensorClass) (w : W)
      → address_of (measure_and_send cb task_delay send_data garbage rom sensor w).0 ≡ some rom
  unfolding measure_and_send
  address_of-measure_and_send rom none w = refl
  address_of-measure_and_send rom (some class) w =
      elim (Bool-cases (measure_temperature cb task_delay rom garbage w).0) [
        | inl measured ↦ rw measured refl
        | inr bad ↦ rw bad refl
      ]

  pub address_of-handle_address :
      (rom : List ℕ) (w : W)
      → address_of (handle_address cb task_delay send_data garbage rom w).0 ≡ some rom
  unfolding handle_address
  address_of-handle_address rom w = elim (Bool-cases (is_crc_valid rom)) [
    | inl valid ↦ rw valid (address_of-measure_and_send rom (create_sensor (get_or rom 0 0)) w)
    | inr bad ↦ rw bad refl
  ]

  pub pass-found :
      (s s' : SearchState) (w w' : W) (rom : List ℕ)
      → search cb s true (task_delay 500 w) ≡ some (some rom, s', w')
      → let r = handle_address cb task_delay send_data garbage rom w' in
        pass cb task_delay send_data garbage s w ≡ some (r.0, s', r.1)
  unfolding pass
  pass-found s s' w w' rom e = rw (e, pass) refl

  pub pass-none :
      (s s' : SearchState) (w w' : W)
      → search cb s true (task_delay 500 w) ≡ some (none, s', w')
      → pass cb task_delay send_data garbage s w ≡ some (no_more_addresses, reset_search s', w')
  unfolding pass
  pass-none s s' w w' e = rw (e, pass) refl

  pub passes-suc :
      (k n : ℕ) (p : Pass) (ps : List Pass) (s s' s'' : SearchState) (w w' w'' : W)
      → k ≡ suc n
      → pass cb task_delay send_data garbage s w ≡ some (p, s', w')
      → passes cb task_delay send_data garbage n s' w' ≡ some (ps, s'', w'')
      → passes cb task_delay send_data garbage k s w ≡ some (p ∷ ps, s'', w'')
  unfolding passes
  passes-suc k n p ps s s' s'' w w' w'' more first rest = rw (more, first, rest, passes) refl
