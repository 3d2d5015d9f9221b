-- ===== src/Main/Delivery/Examples.antt =====
-- A sensor on a wire that shows itself and then reads 0, and a server that a client joins.
use esp_ac_dimmer.Prelude.{
  ℕ, ◌+◌, ◌%◌, ◌==◌, ltb, ◌&&◌, ◌||◌, ◌≡◌, refl, arith, true, List, [], ◌∷◌, ◌++◌, length, none,
}
use esp_ac_dimmer.Prelude.Int.{pos}
use esp_ac_dimmer.Streams.Values.{bytes_of}
use esp_ac_dimmer.Onewire.Line.{Callbacks, reset, select, write, poll, read_bytes}
use esp_ac_dimmer.Onewire.Crc8.{crc8}
use esp_ac_dimmer.Onewire.TemperatureSensor.{ds18b20, measure_temperature, data_valid}
use esp_ac_dimmer.Onewire.TemperatureSensor.Celsius.{get_celsius}
use esp_ac_dimmer.UdpServer.{ClientInfo, Environment, Server}
use esp_ac_dimmer.UdpServer.Sending.{SendOutcome}
use esp_ac_dimmer.Main.{Bool, is_crc_valid, handle_address}
use esp_ac_dimmer.Main.Delivery.{negsuc, wire_beside, float_bits, send_temp_msg}
use esp_ac_dimmer.Main.Delivery.Delivered.{handle_address-delivers}

-- The state is the number of reads of the pin, in which there are two presence pulses, and the number of
-- datagrams that were sent.
abbrev wire : Callbacks (ℕ × ℕ)
wire = record {
  set_pin_mode = λ m w. w;
  read_pin_value =
      λ w. (ltb w.0 8 && ((w.0 % 4 == 0) || ((w.0 % 4 == 1) || (w.0 % 4 == 3))), (w.0 + 1, w.1));
  set_pin_value = λ b w. w;
  delay = λ t w. w;
  set_intr_mode = λ m w. w;
}

abbrev near : ClientInfo
near = record { addr = 1; port = 9 }

abbrev environment : Environment (ℕ × ℕ) (List ClientInfo)
environment = record {
  lwip = record {
    socket = λ w. (pos 4, w);
    shutdown = λ sock w. w;
    close = λ sock w. w;
    sendto = λ sock bytes info w. (pos (length bytes), (w.0, w.1 + 1));
    recvfrom = λ sock size w. (record { len = pos 0; bytes = []; source = near }, w);
    now = λ w. (0, w);
    efuse_mac = λ w. none;
  };
  clients = record { emplace = λ c cs. c ∷ cs; elements = λ cs. cs };
  ticks_per_second = 1000;
  destination = near;
}

abbrev server : Server (List ClientInfo)
server = record {
  g_sock = pos 4;
  rx_buffer = [];
  tx_buffer = [];
  g_clients = [];
  g_discovery_timepoint = 0;
}

abbrev rom : List ℕ
rom = 0x28 ∷ 1 ∷ 0 ∷ 0 ∷ 0 ∷ 0 ∷ 0 ∷ 0x29 ∷ []

-- While the loop of `app_main` waits, the server gets its client.
abbrev joined : ℕ → Server (List ClientInfo) × (ℕ × ℕ) → Server (List ClientInfo) × (ℕ × ℕ)
joined t p = (record p.0 { g_clients = near ∷ [] }, p.1)

rom_valid : is_crc_valid rom ≡ true
unfolding is_crc_valid crc8
rom_valid = refl

measured : (measure_temperature (wire_beside wire) joined rom [] (server, (0, 0))).0 ≡ true
unfolding measure_temperature data_valid reset poll write select read_bytes crc8
measured = refl

-- 25 and -10.125.
float_bits_of_25 : float_bits (pos 400) ≡ 0x41C80000
unfolding float_bits
float_bits_of_25 = refl

float_bits_below_0 : float_bits (negsuc 161) ≡ 0xC1220000
unfolding float_bits
float_bits_below_0 = refl

handle_address-delivers_example :
    let (measured, m_data, world) =
      measure_temperature (wire_beside wire) joined rom [] (server, (0, 0)) in
    let datagram = rom ++ bytes_of 4 (float_bits (get_celsius ds18b20 m_data)) in
    let r =
      (handle_address
        (wire_beside wire)
        joined
        (send_temp_msg environment)
        []
        rom
        (server, (0, 0))).1 in
    (answer : Bool) × SendOutcome environment datagram world.0 world.1 (answer, r.0, r.1)
handle_address-delivers_example =
    handle_address-delivers environment wire joined [] rom ds18b20 (server, (0, 0)) refl
      (omega arith) rom_valid refl measured
