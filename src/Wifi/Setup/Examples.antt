-- ===== src/Wifi/Setup/Examples.antt =====
-- Configurations with arrays of the ESP-IDF's sizes, and the strings that just fit.
use esp_ac_dimmer.Prelude.{ℕ, ◌≡◌, refl, arith, List, [], ◌∷◌, ◌++◌, replicate}
use esp_ac_dimmer.Wifi.Setup.{
  wifi_auth_open, wifi_auth_wpa_wpa2_psk, station_config, access_point_config,
}
use esp_ac_dimmer.Wifi.Setup.Written.{
  pad, station_config-memory, access_point_config-protected, access_point_config-open,
}

-- An SSID without a zero that ends it in its array, and a password of 64 digits.
abbrev long_ssid : List ℕ
long_ssid = replicate 32 0x61

abbrev digits : List ℕ
digits = replicate 64 0x30

station_config-memory_example :
    (station_config 32 64 8 long_ssid digits 2).memory
    ≡ pad 32 long_ssid ++ (pad 64 digits ++ (0 ∷ replicate 8 0))
station_config-memory_example =
    station_config-memory 32 64 8 long_ssid digits 2 (omega arith) (omega arith)

access_point_config-protected_example :
    ((access_point_config 32 64 8 long_ssid [] 2).memory
      ≡ pad 32 long_ssid ++ (pad 64 [] ++ (32 ∷ replicate 8 0)))
    × ((access_point_config 32 64 8 long_ssid [] 2).max_connection ≡ 2)
    × ((access_point_config 32 64 8 long_ssid [] 2).authmode ≡ wifi_auth_wpa_wpa2_psk)
access_point_config-protected_example =
    access_point_config-protected 32 64 8 long_ssid [] 2 (omega arith) (omega arith) (omega arith)
      (omega arith)

access_point_config-open_example :
    ((access_point_config 32 64 8 long_ssid digits 2).memory
      ≡ pad 32 long_ssid ++ (digits ++ (0 ∷ replicate 8 0)))
    × ((access_point_config 32 64 8 long_ssid digits 2).authmode ≡ wifi_auth_open)
access_point_config-open_example =
    access_point_config-open 32 64 8 long_ssid digits 2 (omega arith) refl
