-- ===== src/Main/Startup.antt =====
-- `app_main` of src/main/main.cpp before its loop: flash, events, pins, Wi-Fi, the other tasks, and the
-- constructor of `OneWire`.
pub mod Returns
mod Examples
use esp_ac_dimmer.Prelude.{ℕ, ◌==◌, ◌≡◌, if◌then◌else◌, List, Option, none, some}
use esp_ac_dimmer.Onewire.Search.{SearchState, begin}
use esp_ac_dimmer.Main.{TempMsg, Pass, passes}
use esp_ac_dimmer.Main.Wiring.{Gpio, configure_pins, wiring}
use esp_ac_dimmer.Wifi.Setup.{WifiDriver, error_check, init_station}

-- The tasks that `app_main` creates.
pub data Task : Type 0 where
  gpio_task_example udp_srv_task : Task

-- The calls of the ESP-IDF and of FreeRTOS before the loop. `event_loop_init` is `events::init`'s call that
-- can fail, after the creation of the event group; `no_free_pages` is the number `ESP_ERR_NVS_NO_FREE_PAGES`.
pub record Platform (W : Type 0) : Type 0 where
  pub nvs_flash_init : W → ℕ × W
  pub nvs_flash_erase : W → ℕ × W
  pub event_group_create : W → W
  pub event_loop_init : W → ℕ × W
  pub create_task : Task → W → W
  pub no_free_pages : ℕ

-- What `app_main` runs with. The sizes, the SSID and the password are those of `Wifi.Setup`, and `members` the
-- memory of the new `OneWire`, which its constructor overwrites.
pub record Environment (W : Type 0) : Type 0 where
  pub platform : Platform W
  pub gpio : Gpio W
  pub wifi : WifiDriver W
  pub ssid_size : ℕ
  pub password_size : ℕ
  pub others : ℕ
  pub ssid : List ℕ
  pub password : List ℕ
  pub max_sta_conn : ℕ
  pub members : SearchState

module _ {W : Type 0} (env : Environment W) where
  open env use {platform, gpio, wifi}
  open platform use {
    nvs_flash_init, nvs_flash_erase, event_group_create, event_loop_init, create_task,
  }

  -- Flash without free pages is erased, and initialized again.
  pub init_flash : W → Option W
  init_flash w =
      let (ret, w₁) = nvs_flash_init w in
      if ret == platform.no_free_pages
      then elim (error_check (nvs_flash_erase w₁)) [
        | none ↦ none
        | some w₂ ↦ error_check (nvs_flash_init w₂)
      ]
      else error_check (ret, w₁)

  -- `wifi::init_station`, with the configuration of the build.
  abbrev pub start_station : W → Option W
  start_station w =
      init_station env.ssid_size env.password_size env.others env.ssid env.password env.max_sta_conn
        wifi w

  -- `start_up` once the station has started, the events are handled and the flash is ready, each of which
  -- is `none` where an `ESP_ERROR_CHECK` ends the program.
  pub with_station : Option W → Option (SearchState × W)
  with_station none = none
  with_station (some w) = some (begin (wiring gpio) env.members (create_task udp_srv_task w))

  pub with_events : Option W → Option (SearchState × W)
  unfolding with_station
  with_events none = none
  with_events (some w) =
      with_station (start_station (create_task gpio_task_example (configure_pins gpio w)))

  pub with_flash : Option W → Option (SearchState × W)
  unfolding with_events
  with_flash none = none
  with_flash (some w) = with_events (error_check (event_loop_init (event_group_create w)))

  pub start_up : W → Option (SearchState × W)
  unfolding init_flash with_flash
  start_up w = with_flash (init_flash w)

  -- `app_main` with so many passes of its loop.
  pub app_main :
      (ℕ → W → W) → (TempMsg → W → W) → List ℕ → ℕ → W → Option (List Pass × SearchState × W)
  unfolding start_up
  app_main task_delay send_data garbage n w = elim (start_up w) [
    | none ↦ none
    | some (s, w') ↦ passes (wiring gpio) task_delay send_data garbage n s w'
  ]
