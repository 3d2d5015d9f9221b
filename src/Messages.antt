-- ===== src/Messages.antt =====
-- The messages of src/components/netio/include/Messages.h: their members, identifiers and encoding.
pub mod Create
pub mod Handlers
mod Examples
use esp_ac_dimmer.Prelude.{
  ℕ, ◌^◌, if◌then◌else◌, Bool, true, false, List, length, Option, none, some,
}
use esp_ac_dimmer.Streams.{OutputStream, InputStream, data_size}
use esp_ac_dimmer.Streams.Values.{Codec, number, write_number, read_number, write_pair, read_pair}

pub record Discovery : Type 0 where
  pub dev_id : ℕ

abbrev pub discovery_id : ℕ
discovery_id = 0x045f0f63

-- The value is the `float`'s pattern of 32 bits.
pub record Temperature : Type 0 where
  pub sensor_id : ℕ
  pub value : ℕ

abbrev pub temperature_id : ℕ
temperature_id = 0x3eee0c83

-- `Discovery::write` and `Discovery::read`.
abbrev pub discovery : Codec Discovery
discovery = record {
  write = λ m s. write_number 4 m.dev_id s;
  read = λ s.
      let (x, s') = read_number 4 s in
      elim x [ none ↦ (none, s') | some v ↦ (some (record { dev_id = v }), s') ];
}

-- `Temperature::write` and `Temperature::read`.
abbrev pub temperature : Codec Temperature
temperature = record {
  write = λ m s. write_pair (number 8) (number 4) (m.sensor_id, m.value) s;
  read = λ s.
      let (x, s') = read_pair (number 8) (number 4) s in
      elim x [ none ↦ (none, s') | some v ↦ (some (record { sensor_id = v.0; value = v.1 }), s') ];
}

module _ {M : Type 0} (msg_codec : Codec M) (id : ℕ) where
  -- `create`: the size that it answers, 0 where the message does not fit, and the buffer after it.
  pub create : List ℕ → M → ℕ × List ℕ
  create buffer msg =
      let ostream : OutputStream = record { buf = buffer; bufsize = length buffer; wpos = 0 } in
      let (identified, s₁) = write_number 4 id ostream in
      let (written, s₂) = msg_codec.write msg s₁ in
      if identified then (if written then (data_size s₂, s₂.buf) else (0, s₂.buf)) else (0, s₁.buf)
