-- ===== src/Main/Kept.antt =====
-- What the line keeps, a pass of the loop keeps.
use esp_ac_dimmer.Prelude.{
  ℕ, zero, suc, ◌≡◌, refl, subst, List, [], ◌∷◌, Bool-cases, inl, inr, Option, none, some, get_or,
}
use esp_ac_dimmer.Onewire.Line.{Callbacks}
use esp_ac_dimmer.Onewire.Line.Kept.{IsKept}
use esp_ac_dimmer.Onewire.TemperatureSensor.{SensorClass, create_sensor, measure_temperature}
use esp_ac_dimmer.Onewire.TemperatureSensor.Kept.{measure_temperature-keeps}
use esp_ac_dimmer.Onewire.Search.{SearchState, reset_search, search}
use esp_ac_dimmer.Onewire.Search.State.{IsValid, reset_search-IsValid, search-total}
use esp_ac_dimmer.Onewire.Search.Kept.{Leaves, search-keeps}
use esp_ac_dimmer.Main.Passes.{pass-found, pass-none}
use esp_ac_dimmer.Main.{
  true, TempMsg, no_more_addresses, pass, passes, measure_and_send, handle_address, is_crc_valid,
}

-- A condition on the wire that its bits keep, and the calls of the operating system and the network.
pub record IsUndisturbed {W : Type 0} (cb : Callbacks W) (task_delay : ℕ → W → W)
    (send_data : TempMsg → W → W) (P : W → Type 0) : Type 0 where
  pub line : IsKept cb P
  pub by_delay : (t : ℕ) (w : W) → P w → P (task_delay t w)
  pub by_send : (msg : TempMsg) (w : W) → P w → P (send_data msg w)

module _ {W : Type 0} (cb : Callbacks W) (task_delay : ℕ → W → W) (send_data : TempMsg → W → W)
    (garbage : List ℕ) (P : W → Type 0) (keeps : IsUndisturbed cb task_delay send_data P) where
  measure_and_send-keeps :
      (rom : List ℕ) (sensor : Option SensorClass) (w : W)
      → P w
      → P (measure_and_send cb task_delay send_data garbage rom sensor w).1
  unfolding measure_and_send
  measure_and_send-keeps rom none w h = h
  measure_and_send-keeps rom (some class) w h =
      let kept =
        measure_temperature-keeps cb task_delay P keeps.line keeps.by_delay rom garbage w h in
      elim (Bool-cases (measure_temperature cb task_delay rom garbage w).0) [
        | inl measured ↦ rw measured (keeps.by_send _ _ kept)
        | inr bad ↦ rw bad kept
      ]

  pub handle_address-keeps :
      (rom : List ℕ) (w : W) → P w → P (handle_address cb task_delay send_data garbage rom w).1
  unfolding handle_address
  handle_address-keeps rom w h = elim (Bool-cases (is_crc_valid rom)) [
    | inr bad ↦ rw bad h
    | inl valid ↦ rw valid (measure_and_send-keeps rom (create_sensor (get_or rom 0 0)) w h)
  ]

  -- What a pass, or a number of passes, leaves of the search and the wire.
  abbrev pub KeptBy : {A : Type 0} → Option (A × SearchState × W) → Type 0
  KeptBy {A} r =
      (a : A) × (s' : SearchState) × (w' : W) × (r ≡ some (a, s', w')) × IsValid s' × P w'

  answered-keeps :
      (addr : Option (List ℕ)) (s s' : SearchState) (w w' : W)
      → search cb s true (task_delay 500 w) ≡ some (addr, s', w')
      → IsValid s'
      → P w'
      → KeptBy (pass cb task_delay send_data garbage s w)
  answered-keeps none s s' w w' runs v h = (
    no_more_addresses,
    reset_search s',
    w',
    pass-none cb task_delay send_data garbage s s' w w' runs,
    reset_search-IsValid s',
    h,
  )
  answered-keeps (some rom) s s' w w' runs v h =
      let r = handle_address cb task_delay send_data garbage rom w' in
      (
        r.0,
        s',
        r.1,
        pass-found cb task_delay send_data garbage s s' w w' rom runs,
        v,
        handle_address-keeps rom w' h,
      )

  pass-keeps :
      (s : SearchState) (w : W)
      → IsValid s
      → P w
      → KeptBy (pass cb task_delay send_data garbage s w)
  pass-keeps s w v h =
      let w₀ = task_delay 500 w in
      let (addr, s', w', runs, v', answer) = search-total cb s true w₀ v in
      let kept = search-keeps cb P keeps.line s true w₀ (keeps.by_delay 500 w h) in
      answered-keeps addr s s' w w' runs v' (subst (Leaves P) runs kept)

  -- From a valid state of the search so many passes return, and keep the condition.
  pub passes-keeps :
      (n : ℕ) (s : SearchState) (w : W)
      → IsValid s
      → P w
      → KeptBy (passes cb task_delay send_data garbage n s w)
  unfolding passes
  passes-keeps zero s w v h = ([], s, w, refl, v, h)
  passes-keeps (suc n) s w v h =
      let (p, s', w', runs, v', h') = pass-keeps s w v h in
      let (ps, s'', w'', rest, v'', h'') = passes-keeps n s' w' v' h' in
      (p ∷ ps, s'', w'', rw (runs, rest, passes) refl, v'', h'')
