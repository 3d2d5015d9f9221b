-- ===== src/Main/Startup/Examples.antt =====
-- A start on pins of which one is the wire, pulled up and without devices, with a driver that never fails.
use esp_ac_dimmer.Prelude.{◌≡◌, refl, List, [], ◌∷◌, some}
use esp_ac_dimmer.Onewire.Search.{SearchState, begin, reset_search}
use esp_ac_dimmer.Wifi.Setup.{start_with, init_station}
use esp_ac_dimmer.Main.{Pass}
use esp_ac_dimmer.Main.Wiring.{configure_pins, wiring}
use esp_ac_dimmer.Main.Wiring.Released.{IsReleased}
use esp_ac_dimmer.Main.Wiring.Simulated.{
  Pins, pins, pins-laws, powered_on, blinking, blinking-IsReleased, unused_search,
}
use esp_ac_dimmer.Main.Startup.{Environment, start_up, app_main}
use esp_ac_dimmer.Main.Startup.Returns.{app_main-IsReleased}

-- The flash has no free pages, which is the code 2.
abbrev environment : Environment Pins
environment = record {
  platform = record {
    nvs_flash_init = λ w. (0, w);
    nvs_flash_erase = λ w. (0, w);
    event_group_create = λ w. w;
    event_loop_init = λ w. (0, w);
    create_task = λ task w. w;
    no_free_pages = 2;
  };
  gpio = pins;
  wifi = record {
    tcpip_adapter_init = λ w. w;
    esp_wifi_init = λ w. (0, w);
    esp_wifi_set_mode = λ mode w. (0, w);
    esp_wifi_set_config = λ mode config w. (0, w);
    esp_wifi_start = λ w. (0, w);
  };
  ssid_size = 32;
  password_size = 64;
  others = 8;
  ssid = 0x61 ∷ [];
  password = [];
  max_sta_conn = 2;
  members = unused_search;
}

abbrev wire_ready : Pins
unfolding begin
wire_ready = (begin (wiring pins) unused_search (configure_pins pins powered_on)).1

starts : start_up environment powered_on ≡ some (unused_search, wire_ready)
unfolding start_up init_station start_with begin reset_search
starts = refl

app_main-IsReleased_example :
    (ps : List Pass) × (s' : SearchState) × (w' : Pins) × (app_main environment blinking
        (λ msg w. w)
        []
        3
        powered_on
      ≡ some (ps, s', w'))
    × IsReleased pins pins-laws w'
app_main-IsReleased_example =
    app_main-IsReleased environment pins-laws blinking (λ msg w. w) [] blinking-IsReleased
      (λ msg w h. h) 3 powered_on wire_ready unused_search starts
