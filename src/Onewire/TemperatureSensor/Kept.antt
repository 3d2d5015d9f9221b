-- ===== src/Onewire/TemperatureSensor/Kept.antt =====
-- What the line keeps, a measurement keeps.
use esp_ac_dimmer.Prelude.{ℕ, true, false, List, Bool-cases, inl, inr}
use esp_ac_dimmer.Onewire.Line.{Callbacks, reset, write, select}
use esp_ac_dimmer.Onewire.Line.Kept.{IsKept, write-keeps, select-keeps, read_bytes-keeps}
use esp_ac_dimmer.Onewire.TemperatureSensor.{measure_temperature}

module _ {W : Type 0} (cb : Callbacks W) (task_delay : ℕ → W → W) (P : W → Type 0)
    (line : IsKept cb P) (by_delay : (t : ℕ) (w : W) → P w → P (task_delay t w)) where
  pub measure_temperature-keeps :
      (rom m_data : List ℕ) (w : W) → P w → P (measure_temperature cb task_delay rom m_data w).2
  unfolding measure_temperature
  measure_temperature-keeps rom m_data w h =
      let w₁ = (reset cb w).1 in
      let h₁ = line.by_reset w h in
      let w₂ = task_delay 10 (write cb 0x44 true (select cb rom w₁)) in
      let h₂ : P w₂ =
        by_delay 10 _ (write-keeps cb P line 0x44 true _ (select-keeps cb P line rom w₁ h₁)) in
      let w₃ = (reset cb w₂).1 in
      let h₃ : P w₃ = line.by_reset w₂ h₂ in
      elim (Bool-cases (reset cb w).0) [
        | inr absent ↦ rw absent h₁
        | inl present ↦ elim (Bool-cases (reset cb w₂).0) [
          | inr absent ↦ rw (present, absent) h₃
          | inl again ↦
              rw (present, again)
                (read_bytes-keeps cb P line 9 _
                  (write-keeps cb P line 0xBE false _ (select-keeps cb P line rom w₃ h₃)))
        ]
      ]
