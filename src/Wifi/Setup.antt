-- ===== src/Wifi/Setup.antt =====
-- Starting the Wi-Fi: `init_station` and `init_acess_point` of src/components/netio/src/Wifi.cpp.
pub mod Written
mod Examples
use esp_ac_dimmer.Prelude.{
  ℕ, ◌+◌, ◌%◌, ◌^◌, ◌==◌, if◌then◌else◌, List, [], ◌∷◌, ◌++◌, Option, none, some, length, get_or,
  set, replicate,
}
use esp_ac_dimmer.Streams.{copy_at}

pub data WifiMode : Type 0 where
  wifi_mode_sta wifi_mode_ap : WifiMode

pub data AuthMode : Type 0 where
  wifi_auth_open wifi_auth_wpa_wpa2_psk : AuthMode

-- `wifi_config_t`: the memory that begins with `ssid`, and what else the program sets in it.
pub record WifiConfig : Type 0 where
  pub memory : List ℕ
  pub max_connection : ℕ
  pub authmode : AuthMode

-- The calls of the ESP-IDF, with the error codes that they answer.
pub record WifiDriver (W : Type 0) : Type 0 where
  pub tcpip_adapter_init : W → W
  pub esp_wifi_init : W → ℕ × W
  pub esp_wifi_set_mode : WifiMode → W → ℕ × W
  pub esp_wifi_set_config : WifiMode → WifiConfig → W → ℕ × W
  pub esp_wifi_start : W → ℕ × W

-- `ESP_ERROR_CHECK`, which ends the program if the code is not `ESP_OK`: `none`.
abbrev pub error_check : {W : Type 0} → ℕ × W → Option W
error_check (code, w) = if code == 0 then some w else none

-- `std::strcpy` to a position: the string and a zero.
abbrev pub strcpy : ℕ → List ℕ → List ℕ → List ℕ
unfolding copy_at
strcpy at bytes memory = copy_at at (bytes ++ (0 ∷ [])) memory

-- The ESP-IDF declares `ssid` and `password` of these sizes one behind the other. Behind `password` an access
-- point has the byte `ssid_len`, and other members follow. The SSID, the password and the number of
-- connections come from the configuration of the build; a string has no zero.
module _ (ssid_size password_size others : ℕ) (ssid password : List ℕ) (max_sta_conn : ℕ) where
  -- `wifi_config_t wifi_config = {}`.
  abbrev pub zeroed : WifiConfig
  zeroed = record {
    memory = replicate ssid_size 0 ++ (replicate password_size 0 ++ (0 ∷ replicate others 0));
    max_connection = 0;
    authmode = wifi_auth_open;
  }

  pub station_config : WifiConfig
  unfolding copy_at
  station_config = record zeroed {
    memory = strcpy ssid_size password (strcpy 0 ssid zeroed.memory);
  }

  pub access_point_config : WifiConfig
  unfolding copy_at
  access_point_config =
      let ssid_len = ssid_size + password_size in
      let copied = set (strcpy 0 ssid zeroed.memory) ssid_len (length ssid % 2 ^ 8) in
      let memory = strcpy ssid_size password copied in
      record {
        memory = memory;
        max_connection = max_sta_conn;
        authmode = if get_or memory ssid_len 0 == 0 then wifi_auth_open else wifi_auth_wpa_wpa2_psk;
      }

  module _ {W : Type 0} (driver : WifiDriver W) where
    open driver use {
      tcpip_adapter_init, esp_wifi_init, esp_wifi_set_mode, esp_wifi_set_config, esp_wifi_start,
    }

    -- The end of both functions, once the driver is initialized.
    unfoldable pub start_with : WifiMode → WifiConfig → W → Option W
    start_with mode config w = elim (error_check (esp_wifi_set_mode mode w)) [
      | none ↦ none
      | some w₁ ↦ elim (error_check (esp_wifi_set_config mode config w₁)) [
        | none ↦ none
        | some w₂ ↦ error_check (esp_wifi_start w₂)
      ]
    ]

    unfoldable pub init_station : W → Option W
    unfolding start_with station_config
    init_station w = elim (error_check (esp_wifi_init (tcpip_adapter_init w))) [
      | none ↦ none
      | some w₁ ↦ start_with wifi_mode_sta station_config w₁
    ]

    pub init_acess_point : W → Option W
    unfolding start_with access_point_config
    init_acess_point w = elim (error_check (esp_wifi_init (tcpip_adapter_init w))) [
      | none ↦ none
      | some w₁ ↦ start_with wifi_mode_ap access_point_config w₁
    ]
