-- ===== src/Main/Delivery.antt =====
-- The loop of `app_main` in src/main/main.cpp together with the server of UdpSrv.cpp: the state is the server's
-- and the rest of the world, which the wire and the network are part of.
pub mod Delivered
mod Floats
mod Examples
use esp_ac_dimmer.Prelude.{
  ℕ, zero, suc, ◌+◌, ◌-◌, ◌*◌, ◌/◌, ◌^◌, ltb, if◌then◌else◌, Bool, List, ◌++◌,
}
use esp_ac_dimmer.Prelude.Int.{ℤ, pos, negsuc}
use esp_ac_dimmer.Streams.Values.{bytes_of}
use esp_ac_dimmer.Onewire.Line.{Callbacks}
use esp_ac_dimmer.UdpServer.{Environment, Server, send_data}
use esp_ac_dimmer.Main.{TempMsg}

module _ {W S : Type 0} where
  -- What acts on the world leaves the server's state alone.
  abbrev pub beside : (W → W) → Server S × W → Server S × W
  beside f (s, w) = (s, f w)

  abbrev pub wire_beside : Callbacks W → Callbacks (Server S × W)
  wire_beside cb = record {
    set_pin_mode = λ m. beside (cb.set_pin_mode m);
    read_pin_value = λ p. let (level, w) = cb.read_pin_value p.1 in (level, (p.0, w));
    set_pin_value = λ b. beside (cb.set_pin_value b);
    delay = λ t. beside (cb.delay t);
    set_intr_mode = λ m. beside (cb.set_intr_mode m);
  }

-- The exponent of the greatest power of two in a number below 2 ^ fuel.
pub exponent_of : ℕ → ℕ → ℕ
exponent_of zero n = 0
exponent_of (suc fuel) n = let rest = exponent_of fuel (n / 2) in if ltb n 2 then 0 else suc rest

-- The IEEE-754 pattern of single precision of n / 16, for 0 < n < 2 ^ 24, by n's exponent.
abbrev pub magnitude_bits : ℕ → ℕ → ℕ
magnitude_bits n e = (e + 123) * 2 ^ 23 + (n - 2 ^ e) * 2 ^ (23 - e)

-- The pattern of the `float` of so many sixteenths.
pub float_bits : ℤ → ℕ
unfolding exponent_of
float_bits (pos zero) = 0
float_bits (pos (suc n)) = magnitude_bits (suc n) (exponent_of 24 (suc n))
float_bits (negsuc n) = 2 ^ 31 + magnitude_bits (suc n) (exponent_of 24 (suc n))

-- The packed memory of a `TempMsg`.
abbrev pub temp_msg_bytes : TempMsg → List ℕ
temp_msg_bytes msg = bytes_of 8 msg.id ++ bytes_of 4 (float_bits msg.temp_cels)

-- The call of `sendData`, whose answer is not used.
abbrev pub send_temp_msg : {W S : Type 0} → Environment W S → TempMsg → Server S × W → Server S × W
send_temp_msg env msg (s, w) =
    let (answer, s', w') = send_data env (temp_msg_bytes msg) s w in (s', w')
