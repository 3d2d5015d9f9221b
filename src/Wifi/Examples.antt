-- ===== src/Wifi/Examples.antt =====
-- The theorems on the events at two bits, and a connection that is lost.
use esp_ac_dimmer.Prelude.{
  ◌++◌, arith, ℕ, ◌≡◌, refl, Bool, true, false, ◌==◌, if◌then◌else◌, [], ◌∷◌,
}
use esp_ac_dimmer.Wifi.{
  wifi_connected_bit, EventGroup, EventGroupLaws, sta_start, sta_got_ip, sta_lost_ip,
  esp_wifi_connect, handle_event, Handles, no_events, next_event,
}
use esp_ac_dimmer.Wifi.Connection.{Handles-last}

-- The bits as a function.
abbrev bits : EventGroup (ℕ → Bool)
bits = record {
  set_bits = λ b g c. if c == b then true else g c;
  clear_bits = λ b g c. if c == b then false else g c;
  is_set = λ b g. g b;
}

bits_laws : EventGroupLaws bits
bits_laws = record {
  set_same = λ b g. ground arith;
  clear_same = λ b g. ground arith;
  set_other = λ g. refl;
  clear_other = λ g. refl;
}

abbrev none_set : ℕ → Bool
none_set c = false

abbrev connected : ℕ → Bool
connected = bits.set_bits wifi_connected_bit none_set

-- The station gets an address and loses it.
handled :
    Handles bits 205
      ((sta_start ∷ []) ++ (sta_got_ip ∷ sta_lost_ip ∷ []))
      none_set
      (esp_wifi_connect ∷ [])
      connected
unfolding handle_event
handled = next_event sta_start (sta_got_ip ∷ sta_lost_ip ∷ []) [] none_set connected (
    next_event sta_got_ip (sta_lost_ip ∷ []) [] none_set connected
      (next_event sta_lost_ip [] [] connected connected (no_events connected)))

Handles-last_example : bits.is_set wifi_connected_bit connected ≡ true
Handles-last_example =
    Handles-last bits bits_laws 205 (sta_start ∷ []) (sta_lost_ip ∷ []) sta_got_ip true none_set
      (esp_wifi_connect ∷ []) connected refl (refl, tt) handled
