-- ===== src/Messages/Handlers.antt =====
-- The callbacks for messages of src/components/netio/src/Messages.cpp. Nothing calls them yet: `parse` is empty.
use esp_ac_dimmer.Prelude.{Bool, false, Option}
use esp_ac_dimmer.Streams.{InputStream}
use esp_ac_dimmer.Messages.{Discovery, Temperature}

-- `Callbacks`; a `std::function` may be empty, and acts on a state `W` and the message.
pub record Callbacks (W : Type 0) : Type 0 where
  pub on_discovery : Option (Discovery → W → Discovery × W)
  pub on_temperature : Option (Temperature → W → Temperature × W)

module _ {W : Type 0} where
  -- `getCallbacs` and `setCallbacks` of `g_callbacks`.
  abbrev pub get_callbacks : Callbacks W → Callbacks W
  get_callbacks g_callbacks = g_callbacks

  abbrev pub set_callbacks : Callbacks W → Callbacks W → Callbacks W
  set_callbacks callbacks g_callbacks = callbacks

  -- The two overloads of `setCallback`.
  abbrev pub set_discovery_callback :
      Option (Discovery → W → Discovery × W) → Callbacks W → Callbacks W
  set_discovery_callback callback g_callbacks = record g_callbacks { on_discovery = callback }

  abbrev pub set_temperature_callback :
      Option (Temperature → W → Temperature × W) → Callbacks W → Callbacks W
  set_temperature_callback callback g_callbacks = record g_callbacks { on_temperature = callback }

-- `parse`, which is a stub.
abbrev pub parse : InputStream → Bool × InputStream
parse stream = (false, stream)
