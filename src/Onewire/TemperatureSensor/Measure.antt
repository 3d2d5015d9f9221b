-- ===== src/Onewire/TemperatureSensor/Measure.antt =====
-- What a measurement leaves in `m_data`.
use esp_ac_dimmer.Prelude.{
  ℕ, ◌≡◌, refl, ap, ◌∙◌, inl, inr, ==_iff, true, false, ◌&&◌, List, some, length, get_or,
  Bool-cases, Option-cases,
}
use mathlib.Core.Bool.{false≢true}
use esp_ac_dimmer.Onewire.Line.{Callbacks, reset, select, write}
use esp_ac_dimmer.Onewire.Line.Bytes.{length-read_bytes}
use esp_ac_dimmer.Onewire.Crc8.{crc8}
use esp_ac_dimmer.Onewire.TemperatureSensor.{data_valid, measure_temperature}

data_valid-crc8 :
    (m_data : List ℕ) → data_valid m_data ≡ true → crc8 m_data 8 ≡ some (get_or m_data 8 0)
unfolding data_valid
data_valid-crc8 m_data h = elim (Option-cases (crc8 m_data 8)) [
  | inl e ↦ absurd (false≢true (rw (e, data_valid) at h))
  | inr (crc, e) ↦ e ∙ ap some ((==_iff crc (get_or m_data 8 0)).0 (rw (e, data_valid) at h))
]

module _ {W : Type 0} (cb : Callbacks W) (task_delay : ℕ → W → W) where
  -- A measurement that answers `true` leaves nine bytes in `m_data`, the last of which is the
  -- checksum of the eight before it.
  pub measure_temperature-valid :
      (rom m_data : List ℕ) (w : W)
      → (measure_temperature cb task_delay rom m_data w).0 ≡ true
      → let m_data' = (measure_temperature cb task_delay rom m_data w).1 in
        (length m_data' ≡ 9) × (crc8 m_data' 8 ≡ some (get_or m_data' 8 0))
  unfolding measure_temperature
  measure_temperature-valid rom m_data w ok = elim (Bool-cases (reset cb w).0) [
    | inr absent ↦ absurd (false≢true (rw absent at ok))
    | inl present ↦
        elim (Bool-cases
          (reset cb (task_delay 10 (write cb 0x44 true (select cb rom (reset cb w).1)))).0) [
            | inr absent ↦ absurd (false≢true (rw (present, absent) at ok))
            | inl again ↦
                rw (present, again)
                  (length-read_bytes cb 9 _, data_valid-crc8 _ (rw (present, again) at ok))
          ]
  ]

  -- Without a presence pulse at the start, or after the conversion, the measurement answers `false`
  -- and keeps `m_data`.
  pub measure_temperature-absent :
      (rom m_data : List ℕ) (w : W)
      → ((reset cb w).0
          && (reset cb (task_delay 10 (write cb 0x44 true (select cb rom (reset cb w).1)))).0)
        ≡ false
      → let r = measure_temperature cb task_delay rom m_data w in (r.0 ≡ false) × (r.1 ≡ m_data)
  unfolding measure_temperature
  measure_temperature-absent rom m_data w h = elim (Bool-cases (reset cb w).0) [
    | inr absent ↦ rw absent (refl, refl)
    | inl present ↦ let again = rw present at h in rw (present, again) (refl, refl)
  ]
