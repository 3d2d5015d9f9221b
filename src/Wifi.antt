-- ===== src/Wifi.antt =====
-- The station's events: `handle_event` of src/components/netio/src/Wifi.cpp and the event bits of
-- src/components/system (Events.h, Events.cpp).
pub mod Connection
pub mod Setup
mod Examples
use esp_ac_dimmer.Prelude.{ℕ, ◌++◌, ◌≡◌, Bool, true, false, ◌==◌, if◌then◌else◌, List, [], ◌∷◌}

abbrev pub wifi_connected_bit : ℕ
wifi_connected_bit = 1

abbrev pub srv_connected_bit : ℕ
srv_connected_bit = 2

-- A FreeRTOS event group: `xEventGroupSetBits`, `xEventGroupClearBits`, and whether a bit is set.
pub record EventGroup (G : Type 0) : Type 0 where
  pub set_bits : ℕ → G → G
  pub clear_bits : ℕ → G → G
  pub is_set : ℕ → G → Bool

-- What FreeRTOS documents of them, for the bits that the program has.
pub record EventGroupLaws {G : Type 0} (group : EventGroup G) : Type 0 where
  pub set_same : (b : ℕ) (g : G) → group.is_set b (group.set_bits b g) ≡ true
  pub clear_same : (b : ℕ) (g : G) → group.is_set b (group.clear_bits b g) ≡ false
  pub set_other :
      (g : G)
      → group.is_set srv_connected_bit (group.set_bits wifi_connected_bit g)
        ≡ group.is_set srv_connected_bit g
  pub clear_other :
      (g : G)
      → group.is_set srv_connected_bit (group.clear_bits wifi_connected_bit g)
        ≡ group.is_set srv_connected_bit g

-- `events::set_bit` and `events::clear_bit`.
module _ {G : Type 0} (group : EventGroup G) where
  abbrev pub set_bit : ℕ → G → G
  set_bit bit g = group.set_bits bit g

  abbrev pub clear_bit : ℕ → G → G
  clear_bit bit g = group.clear_bits bit g

-- `xEventGroupWaitBits` with its two flags, whether to clear the bits and whether to wait for all of them.
-- `events::wait_for` and `events::wait_wifi_connection`, which the group's handle is given to.
module _ {G : Type 0} (wait_bits : ℕ → Bool → Bool → ℕ → G → G) where
  abbrev pub wait_for : ℕ → ℕ → G → G
  wait_for bits wait_ticks g = wait_bits bits false true wait_ticks g

  abbrev pub wait_wifi_connection : ℕ → G → G
  wait_wifi_connection wait_ticks g = wait_for wifi_connected_bit wait_ticks g

-- `system_event_t`, with the reason of a disconnection. The events from `sta_stop` on have no case of
-- their own in `handle_event`.
pub data SystemEvent : Type 0 where
  sta_start : SystemEvent
  sta_got_ip : SystemEvent
  sta_disconnected : ℕ → SystemEvent
  ap_staconnected : SystemEvent
  ap_stadisconnected : SystemEvent
  sta_stop : SystemEvent
  sta_lost_ip : SystemEvent
  other_event : SystemEvent

-- The calls of the driver.
pub data DriverCall : Type 0 where
  esp_wifi_connect : DriverCall
  esp_wifi_set_protocol : DriverCall

-- `WIFI_REASON_BASIC_RATE_NOT_SUPPORT` is a number of the driver's.
module _ {G : Type 0} (group : EventGroup G) (basic_rate_not_support : ℕ) where
  -- `handle_event`: the calls of the driver, and the event group after them.
  pub handle_event : SystemEvent → G → List DriverCall × G
  handle_event sta_start g = (esp_wifi_connect ∷ [], g)
  handle_event sta_got_ip g = ([], set_bit group wifi_connected_bit g)
  handle_event (sta_disconnected reason) g =
      let calls = esp_wifi_connect ∷ [] in
      (
        (if reason == basic_rate_not_support then esp_wifi_set_protocol ∷ calls else calls),
        clear_bit group wifi_connected_bit g,
      )
  handle_event ap_staconnected g = ([], g)
  handle_event ap_stadisconnected g = ([], g)
  handle_event sta_stop g = ([], g)
  handle_event sta_lost_ip g = ([], g)
  handle_event other_event g = ([], g)

  -- The event loop calls `handle_event` with one event after the other.
  pub data Handles : List SystemEvent → G → List DriverCall → G → Type 0 where
    no_events : (g : G) → Handles [] g [] g
    next_event :
        (e : SystemEvent) (es : List SystemEvent) (calls : List DriverCall) (g g' : G)
        → Handles es (handle_event e g).1 calls g'
        → Handles (e ∷ es) g ((handle_event e g).0 ++ calls) g'
