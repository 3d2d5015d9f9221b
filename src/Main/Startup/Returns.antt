-- ===== src/Main/Startup/Returns.antt =====
-- `app_main` once it has started.
use esp_ac_dimmer.Prelude.{ℕ, ◌≡◌, sym, ◌∙◌, ap, refl, List, Option, none, some, eq_of_some}
use esp_ac_dimmer.Onewire.Search.{SearchState, begin}
use esp_ac_dimmer.Main.{TempMsg, Pass, passes}
use esp_ac_dimmer.Main.Wiring.{wiring}
use esp_ac_dimmer.Main.Wiring.Released.{GpioLaws, IsReleased, passes-IsReleased}
use esp_ac_dimmer.Main.Startup.{
  Environment, udp_srv_task, init_flash, start_station, with_station, with_events, with_flash,
  start_up, app_main,
}
use esp_ac_dimmer.Wifi.Setup.{error_check}

module _ {W : Type 0} (env : Environment W) where
  open env use {gpio}

  abbrev Begins : SearchState → W → Type 0
  Begins s w = (w' : W) × (begin (wiring gpio) env.members w' ≡ (s, w))

  with_station-Begins :
      (o : Option W) (s : SearchState) (w : W) → with_station env o ≡ some (s, w) → Begins s w
  unfolding with_station
  with_station-Begins none s w e = cc
  with_station-Begins (some w') s w e = (env.platform.create_task udp_srv_task w', eq_of_some e)

  with_events-Begins :
      (o : Option W) (s : SearchState) (w : W) → with_events env o ≡ some (s, w) → Begins s w
  unfolding with_events
  with_events-Begins none s w e = cc
  with_events-Begins (some w') s w e = with_station-Begins (start_station env _) s w e

  with_flash-Begins :
      (o : Option W) (s : SearchState) (w : W) → with_flash env o ≡ some (s, w) → Begins s w
  unfolding with_flash
  with_flash-Begins none s w e = cc
  with_flash-Begins (some w') s w e = with_events-Begins (error_check _) s w e

  -- What `start_up` ends with is the constructor of `OneWire`.
  start_up-Begins : (w w₁ : W) (s : SearchState) → start_up env w ≡ some (s, w₁) → Begins s w₁
  unfolding start_up
  start_up-Begins w w₁ s e = with_flash-Begins (init_flash env w) s w₁ e

  app_main-started :
      (task_delay : ℕ → W → W) (send_data : TempMsg → W → W) (garbage : List ℕ) (n : ℕ) (w w₁ : W)
      (s : SearchState)
      → start_up env w ≡ some (s, w₁)
      → app_main env task_delay send_data garbage n w
        ≡ passes (wiring gpio) task_delay send_data garbage n s w₁
  unfolding app_main
  app_main-started task_delay send_data garbage n w w₁ s e = rw (e, app_main) refl

  -- Once `app_main` has started without an error, every number of passes of its loop returns, whatever
  -- devices are on the wire and whatever they answer. After them the pin of the wire is an input, or
  -- an open drain that lets go of the wire: it is neither left low nor driven high, not even after a
  -- write that asks for power. The delays and the sending of data are taken to leave the pin alone.
  pub app_main-IsReleased :
      (laws : GpioLaws gpio) (task_delay : ℕ → W → W) (send_data : TempMsg → W → W)
      (garbage : List ℕ)
      → ((t : ℕ) (w : W) → IsReleased gpio laws w → IsReleased gpio laws (task_delay t w))
      → ((msg : TempMsg) (w : W) → IsReleased gpio laws w → IsReleased gpio laws (send_data msg w))
      → (n : ℕ) (w w₁ : W) (s : SearchState) → start_up env w ≡ some (s, w₁)
      → (ps : List Pass) × (s' : SearchState) × (w' : W) × (app_main env task_delay send_data
            garbage n w
          ≡ some (ps, s', w'))
        × IsReleased gpio laws w'
  app_main-IsReleased laws task_delay send_data garbage by_delay by_send n w w₁ s e =
      let (w₀, b) = start_up-Begins w w₁ s e in
      let (ps, s', w', runs, released) =
        passes-IsReleased gpio laws task_delay send_data garbage by_delay by_send n env.members
          w₀ in
      (
        ps,
        s',
        w',
        app_main-started task_delay send_data garbage n w w₁ s e
            ∙ (ap
                  (λ (r : SearchState × W).
                    passes (wiring gpio) task_delay send_data garbage n r.0 r.1)
                  (sym b)
                ∙ runs),
        released,
      )
