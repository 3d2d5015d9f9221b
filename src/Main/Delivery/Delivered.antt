-- ===== src/Main/Delivery/Delivered.antt =====
-- What a measured temperature comes to.
use esp_ac_dimmer.Prelude.{
  ℕ, ◌+◌, ◌*◌, ◌/◌, ◌%◌, ◌<◌, ◌≡◌, refl, sym, subst, ap, Bool, arith, true, List, [], ◌∷◌, ◌++◌,
  length, All, some, get_or,
}
use esp_ac_dimmer.Streams.Values.{bytes_of, value_of}
use esp_ac_dimmer.Onewire.Line.{Callbacks}
use esp_ac_dimmer.Onewire.TemperatureSensor.{SensorClass, create_sensor, measure_temperature}
use esp_ac_dimmer.Onewire.TemperatureSensor.Celsius.{get_celsius}
use esp_ac_dimmer.UdpServer.{Environment, Server, send_data}
use esp_ac_dimmer.UdpServer.Sending.{SendOutcome, send_data-outcome}
use esp_ac_dimmer.Main.{TempMsg, is_crc_valid, measure_and_send, handle_address}
use esp_ac_dimmer.Main.Delivery.{wire_beside, float_bits, send_temp_msg}

bytes_of-value_of : (bs : List ℕ) → All (λ b. b < 256) bs → bytes_of (length bs) (value_of bs) ≡ bs
unfolding bytes_of value_of
bytes_of-value_of [] h = refl
bytes_of-value_of (b ∷ bs) h =
    let low : (b + 256 * value_of bs) % 256 ≡ b = omega (arith, h.0) in
    let high : (b + 256 * value_of bs) / 256 ≡ value_of bs = omega (arith, h.0) in
    rw (low, high) (ap (◌∷◌ b) (bytes_of-value_of bs h.1))

module _ {W S : Type 0} (env : Environment W S) (cb : Callbacks W)
    (pause : ℕ → Server S × W → Server S × W) (garbage : List ℕ) where
  abbrev wire : Callbacks (Server S × W)
  wire = wire_beside cb

  measured-sends :
      (rom : List ℕ) (class : SensorClass) (p : Server S × W)
      → is_crc_valid rom ≡ true
      → create_sensor (get_or rom 0 0) ≡ some class
      → (measure_temperature wire pause rom garbage p).0 ≡ true
      → let (measured, m_data, p') = measure_temperature wire pause rom garbage p in
        let msg : TempMsg = record { id = value_of rom; temp_cels = get_celsius class m_data } in
        (handle_address wire pause (send_temp_msg env) garbage rom p).1 ≡ send_temp_msg env msg p'
  unfolding handle_address measure_and_send
  measured-sends rom class p valid known measured = rw (valid, known, measured) refl

  -- A found address with eight bytes and a right checksum, of a sensor of a known class whose temperature
  -- is measured: then what `handle_address` comes to is what a call of `sendData` comes to in the
  -- state after the measurement, with a datagram of the address's eight bytes and the temperature as
  -- a `float`. If the socket is closed, nothing changes; if each `sendto` answers a number that is
  -- not negative, each client of the server is sent the datagram once; otherwise the clients
  -- before the first whose `sendto` fails are, and the socket is closed. The delays may change the server
  -- and the world in any way.
  pub handle_address-delivers :
      (rom : List ℕ) (class : SensorClass) (p : Server S × W)
      → length rom ≡ 8
      → All (λ b. b < 256) rom
      → is_crc_valid rom ≡ true
      → create_sensor (get_or rom 0 0) ≡ some class
      → (measure_temperature (wire_beside cb) pause rom garbage p).0 ≡ true
      → let (measured, m_data, world) = measure_temperature (wire_beside cb) pause rom garbage p in
        let datagram = rom ++ bytes_of 4 (float_bits (get_celsius class m_data)) in
        let r = (handle_address (wire_beside cb) pause (send_temp_msg env) garbage rom p).1 in
        (answer : Bool) × SendOutcome env datagram world.0 world.1 (answer, r.0, r.1)
  handle_address-delivers rom class p eight bytes valid known measured =
      let m = measure_temperature wire pause rom garbage p in
      let id : bytes_of 8 (value_of rom) ≡ rom = rw eight at (bytes_of-value_of rom bytes) in
      let tail = bytes_of 4 (float_bits (get_celsius class m.1)) in
      let sent = send_data env (bytes_of 8 (value_of rom) ++ tail) m.2.0 m.2.1 in
      let outcome : SendOutcome env (rom ++ tail) m.2.0 m.2.1 sent =
        subst (λ front. SendOutcome env (front ++ tail) m.2.0 m.2.1 sent) id
          (send_data-outcome env (bytes_of 8 (value_of rom) ++ tail) m.2.0 m.2.1) in
      (
        sent.0,
        subst (λ r. SendOutcome env (rom ++ tail) m.2.0 m.2.1 (sent.0, r.0, r.1))
            (sym (measured-sends rom class p valid known measured)) outcome,
      )
