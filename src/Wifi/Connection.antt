-- ===== src/Wifi/Connection.antt =====
-- What the event bits and the driver's calls are after any events.
use esp_ac_dimmer.Prelude.{
  ◌++◌, none, All, some, Option, ℕ, suc, ◌≡◌, refl, ap, ◌∙◌, Bool, true, false, ◌==◌, Bool-cases,
  inl, inr, List, [], ◌∷◌,
}
use esp_ac_dimmer.Wifi.{
  wifi_connected_bit, srv_connected_bit, EventGroup, EventGroupLaws, SystemEvent, sta_start,
  sta_got_ip, sta_disconnected, ap_staconnected, ap_stadisconnected, sta_stop, sta_lost_ip,
  other_event, DriverCall, esp_wifi_connect, esp_wifi_set_protocol, handle_event, Handles,
  no_events, next_event,
}

-- What an event says of the connection: that the station got an address, or that it was disconnected.
abbrev pub connection : SystemEvent → Option Bool
connection sta_start = none
connection sta_got_ip = some true
connection (sta_disconnected reason) = some false
connection ap_staconnected = none
connection ap_stadisconnected = none
connection sta_stop = none
connection sta_lost_ip = none
connection other_event = none

-- What was said, or else what was before.
abbrev as_said : Option Bool → Bool → Bool
as_said none before = before
as_said (some b) before = b

-- How often a connection is to be tried: at the start, and whenever it is lost.
abbrev attempts : List SystemEvent → ℕ
attempts [] = 0
attempts (sta_start ∷ es) = suc (attempts es)
attempts (sta_got_ip ∷ es) = attempts es
attempts (sta_disconnected reason ∷ es) = suc (attempts es)
attempts (ap_staconnected ∷ es) = attempts es
attempts (ap_stadisconnected ∷ es) = attempts es
attempts (sta_stop ∷ es) = attempts es
attempts (sta_lost_ip ∷ es) = attempts es
attempts (other_event ∷ es) = attempts es

abbrev connects : List DriverCall → ℕ
connects [] = 0
connects (esp_wifi_connect ∷ calls) = suc (connects calls)
connects (esp_wifi_set_protocol ∷ calls) = connects calls

module _ {G : Type 0} (group : EventGroup G) (laws : EventGroupLaws group)
    (basic_rate_not_support : ℕ) where
  -- The Wi-Fi bit after one event.
  handle_event-connected :
      (e : SystemEvent) (g : G)
      → let bit = group.is_set wifi_connected_bit in
        bit (handle_event group basic_rate_not_support e g).1 ≡ as_said (connection e) (bit g)
  unfolding handle_event
  handle_event-connected sta_start g = refl
  handle_event-connected sta_got_ip g = laws.set_same wifi_connected_bit g
  handle_event-connected (sta_disconnected reason) g = laws.clear_same wifi_connected_bit g
  handle_event-connected ap_staconnected g = refl
  handle_event-connected ap_stadisconnected g = refl
  handle_event-connected sta_stop g = refl
  handle_event-connected sta_lost_ip g = refl
  handle_event-connected other_event g = refl

  Handles-none :
      (es : List SystemEvent) (calls : List DriverCall) (g g' : G)
      → Handles group basic_rate_not_support es g calls g'
      → All (λ e. connection e ≡ none) es
      → group.is_set wifi_connected_bit g' ≡ group.is_set wifi_connected_bit g
  Handles-none _ _ _ _ (no_events g) h = refl
  Handles-none _ _ _ _ (next_event e es calls g g' later) h =
      Handles-none es calls _ g' later h.1 ∙ rw h.0 at (handle_event-connected e g)

  -- After any events the Wi-Fi bit is as the last of them by which the station got an address or was
  -- disconnected left it: set after the former, cleared after the latter, whatever events without a
  -- case in `handle_event` follow. So it is still set when the station loses its address or is
  -- stopped.
  pub Handles-last :
      (before after : List SystemEvent) (e : SystemEvent) (b : Bool) (g : G)
      (calls : List DriverCall) (g' : G)
      → connection e ≡ some b
      → All (λ e'. connection e' ≡ none) after
      → Handles group basic_rate_not_support (before ++ (e ∷ after)) g calls g'
      → group.is_set wifi_connected_bit g' ≡ b
  Handles-last [] after e b g calls g' is last (next_event _ _ later _ _ h) =
      Handles-none after later _ g' h last ∙ rw is at (handle_event-connected e g)
  Handles-last (x ∷ before) after e b g calls g' is last (next_event _ _ later _ _ h) =
      Handles-last before after e b _ later g' is last h

  -- Any events keep the other bit, and the driver was told to connect at each start and after each
  -- disconnection, and no more often.
  Handles-attempts :
      (es : List SystemEvent) (calls : List DriverCall) (g g' : G)
      → Handles group basic_rate_not_support es g calls g'
      → (connects calls ≡ attempts es)
        × (group.is_set srv_connected_bit g' ≡ group.is_set srv_connected_bit g)
  unfolding handle_event
  Handles-attempts _ _ _ _ (no_events g) = (refl, refl)
  Handles-attempts _ _ _ _ (next_event sta_start es calls g g' h) =
      let later = Handles-attempts es calls g g' h in (ap suc later.0, later.1)
  Handles-attempts _ _ _ _ (next_event sta_got_ip es calls g g' h) =
      let later = Handles-attempts es calls _ g' h in (later.0, later.1 ∙ laws.set_other g)
  Handles-attempts _ _ _ _ (next_event (sta_disconnected reason) es calls g g' h) =
      let later = Handles-attempts es calls _ g' h in
      elim (Bool-cases (reason == basic_rate_not_support)) [
        | inl rate ↦ rw rate (ap suc later.0, later.1 ∙ laws.clear_other g)
        | inr other ↦ rw other (ap suc later.0, later.1 ∙ laws.clear_other g)
      ]
  Handles-attempts _ _ _ _ (next_event ap_staconnected es calls g g' h) =
      Handles-attempts es calls g g' h
  Handles-attempts _ _ _ _ (next_event ap_stadisconnected es calls g g' h) =
      Handles-attempts es calls g g' h
  Handles-attempts _ _ _ _ (next_event sta_stop es calls g g' h) = Handles-attempts es calls g g' h
  Handles-attempts _ _ _ _ (next_event sta_lost_ip es calls g g' h) =
      Handles-attempts es calls g g' h
  Handles-attempts _ _ _ _ (next_event other_event es calls g g' h) =
      Handles-attempts es calls g g' h
