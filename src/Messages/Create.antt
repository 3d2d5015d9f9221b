-- ===== src/Messages/Create.antt =====
-- A created message is read back as it was.
use esp_ac_dimmer.Prelude.{
  take, ◌^◌, ◌++◌, ℕ, ◌+◌, ◌^◌, ◌≤◌, ◌<◌, ◌≡◌, refl, ap, ◌∙◌, arith, List, [], ◌++◌, some, length,
  take, append-nil, length-append,
}
use esp_ac_dimmer.Streams.{OutputStream, InputStream, size}
use esp_ac_dimmer.Streams.Buffers.{
  take-appended, IsOpen, appended, appended-append, appended-IsOpen, reopened-Holds, size-Holds,
}
use esp_ac_dimmer.Streams.Values.{Codec, number, bytes_of, read_number, read_pair}
use esp_ac_dimmer.Streams.Values.RoundTrip.{
  RoundTrips, number-RoundTrips, pair-RoundTrips, write_number-appended, read_number-Holds,
  length-bytes_of,
}
use esp_ac_dimmer.Messages.{
  Discovery, discovery_id, discovery, Temperature, temperature_id, temperature, create,
}

-- A stream over the first `n` bytes of a buffer.
abbrev pub stream_of : List ℕ → ℕ → InputStream
stream_of buffer n = record { buf = take n buffer; bufsize = n; rpos = 0 }

-- What a receiver reads from a created message: the identifier, then the message, then nothing.
abbrev pub Arrives : {M : Type 0} → Codec M → ℕ → M → ℕ × List ℕ → Type 0
Arrives c id msg (n, buffer) =
    let s = stream_of buffer n in
    ((read_number 4 s).0 ≡ some id)
    × ((c.read (read_number 4 s).1).0 ≡ some msg)
    × (size (c.read (read_number 4 s).1).1 ≡ 0)

module _ {M : Type 0} (c : Codec M) (encode : M → List ℕ) (P : M → Type 0)
    (laws : RoundTrips c encode P) (id : ℕ) (small : id < 256 ^ 4) where
  create-appended :
      (buffer : List ℕ) (msg : M)
      → length buffer < 2 ^ 32
      → 4 + length (encode msg) ≤ length buffer
      → let s : OutputStream = record { buf = buffer; bufsize = length buffer; wpos = 0 } in
        create c id buffer msg
        ≡ (4 + length (encode msg), (appended s (bytes_of 4 id ++ encode msg)).buf)
  unfolding create
  create-appended buffer msg short room =
      let s : OutputStream = record { buf = buffer; bufsize = length buffer; wpos = 0 } in
      let o : IsOpen s = record { memory = refl; inside = omega arith; small = short } in
      let s₁ = appended s (bytes_of 4 id) in
      let four = length-bytes_of 4 id in
      let o₁ = appended-IsOpen s (bytes_of 4 id) o (omega (arith, four)) in
      let identified = write_number-appended 4 id s o (omega (arith, four)) in
      let written = laws.writes msg s₁ o₁ (omega (arith, four)) in
      let total : length (bytes_of 4 id ++ encode msg) ≡ 4 + length (encode msg) =
        omega (arith, length-append (bytes_of 4 id) (encode msg), four) in
      let joined = appended-append s (bytes_of 4 id) (encode msg) in
      let count : 0 + length (bytes_of 4 id) + length (encode msg) ≡ 4 + length (encode msg) =
        omega (arith, four) in
      rw (identified, written)
        (ap (λ (n : ℕ). (n, (appended s₁ (encode msg)).buf)) count
          ∙ ap (λ (s' : OutputStream). (4 + length (encode msg), s'.buf)) joined)

  pub create-Arrives :
      (buffer : List ℕ) (msg : M)
      → length buffer < 2 ^ 32
      → 4 + length (encode msg) ≤ length buffer
      → P msg
      → ((create c id buffer msg).0 ≡ 4 + length (encode msg))
        × Arrives c id msg (create c id buffer msg)
  create-Arrives buffer msg short room d =
      let s : OutputStream = record { buf = buffer; bufsize = length buffer; wpos = 0 } in
      let o : IsOpen s = record { memory = refl; inside = omega arith; small = short } in
      let image = bytes_of 4 id ++ encode msg in
      let total : length image ≡ 4 + length (encode msg) =
        omega (arith, length-append (bytes_of 4 id) (encode msg), length-bytes_of 4 id) in
      let arrived = rw total at (reopened-Holds s image o refl (omega (arith, total))) in
      let (got, held) = read_number-Holds 4 id (encode msg) _ small arrived in
      let (got', held') = laws.reads msg [] _ d (rw (append-nil (encode msg)) held) in
      rw (create-appended buffer msg short room) (refl, (got, got', size-Holds _ [] held'))

discovery-RoundTrips : RoundTrips discovery (λ m. bytes_of 4 m.dev_id) (λ m. m.dev_id < 256 ^ 4)
discovery-RoundTrips = record {
  writes = λ m s o h. (number-RoundTrips 4).writes m.dev_id s o h;
  reads = λ m rest s d h.
      let r = (number-RoundTrips 4).reads m.dev_id rest s d h in
      let got : (read_number 4 s).0 ≡ some m.dev_id = r.0 in rw (discovery, got) (refl, r.1);
}

temperature-RoundTrips :
    RoundTrips temperature
      (λ m. bytes_of 8 m.sensor_id ++ bytes_of 4 m.value)
      (λ m. (m.sensor_id < 256 ^ 8) × (m.value < 256 ^ 4))
temperature-RoundTrips =
    let both =
      pair-RoundTrips (number 8) (number 4) (bytes_of 8) (bytes_of 4) (λ v. v < 256 ^ 8)
        (λ v. v < 256 ^ 4) (number-RoundTrips 8) (number-RoundTrips 4) in
    record {
      writes = λ m s o h. both.writes (m.sensor_id, m.value) s o h;
      reads = λ m rest s d h.
          let r = both.reads (m.sensor_id, m.value) rest s d h in
          let got : (read_pair (number 8) (number 4) s).0 ≡ some (m.sensor_id, m.value) = r.0 in
          rw (temperature, got) (refl, r.1);
    }

-- In a buffer of 512 bytes `create` makes a discovery message of 8 bytes; from a stream over them a
-- receiver reads its identifier, the message as it was, and nothing more.
pub create-Arrives-discovery :
    (buffer : List ℕ) (msg : Discovery)
    → length buffer ≡ 512
    → msg.dev_id < 2 ^ 32
    → let r = create discovery discovery_id buffer msg in
      (r.0 ≡ 8) × Arrives discovery discovery_id msg r
create-Arrives-discovery buffer msg whole d = rw (length-bytes_of 4 msg.dev_id) at (
    create-Arrives discovery (λ m. bytes_of 4 m.dev_id) (λ m. m.dev_id < 256 ^ 4)
      discovery-RoundTrips discovery_id (omega arith) buffer msg (omega (arith, whole))
      (omega (arith, whole, length-bytes_of 4 msg.dev_id)) d)

-- What the buffer starts with after `create`.
pub create-image-discovery :
    (buffer : List ℕ) (msg : Discovery)
    → length buffer ≡ 512
    → msg.dev_id < 2 ^ 32
    → let r = create discovery discovery_id buffer msg in
      (r.0 ≡ 8) × (take 8 r.1 ≡ bytes_of 4 discovery_id ++ bytes_of 4 msg.dev_id)
create-image-discovery buffer msg whole d =
    let s : OutputStream = record { buf = buffer; bufsize = length buffer; wpos = 0 } in
    let o : IsOpen s = record {
      memory = refl;
      inside = omega arith;
      small = omega (arith, whole);
    } in
    let image = bytes_of 4 discovery_id ++ bytes_of 4 msg.dev_id in
    let four = length-bytes_of 4 msg.dev_id in
    let eight : length image ≡ 8 =
      length-append (bytes_of 4 discovery_id) (bytes_of 4 msg.dev_id)
      ∙ omega (arith, four, length-bytes_of 4 discovery_id) in
    let made =
      create-appended discovery (λ m. bytes_of 4 m.dev_id) (λ m. m.dev_id < 256 ^ 4)
        discovery-RoundTrips discovery_id (omega arith) buffer msg (omega (arith, whole))
        (omega (arith, whole, four)) in
    let front = take-appended s image o refl (omega (arith, whole, eight)) in
    rw made (omega (arith, four), rw eight at front)

-- In a buffer of 512 bytes `create` makes a temperature message of 16 bytes; from a stream over them
-- a receiver reads its identifier, the message as it was, and nothing more.
pub create-Arrives-temperature :
    (buffer : List ℕ) (msg : Temperature)
    → length buffer ≡ 512
    → msg.sensor_id < 2 ^ 64
    → msg.value < 2 ^ 32
    → let r = create temperature temperature_id buffer msg in
      (r.0 ≡ 16) × Arrives temperature temperature_id msg r
create-Arrives-temperature buffer msg whole d e =
    let len : length (bytes_of 8 msg.sensor_id ++ bytes_of 4 msg.value) ≡ 12 = omega (
      arith,
      length-append (bytes_of 8 msg.sensor_id) (bytes_of 4 msg.value),
      length-bytes_of 8 msg.sensor_id,
      length-bytes_of 4 msg.value,
    ) in
    rw len at (
      create-Arrives temperature (λ m. bytes_of 8 m.sensor_id ++ bytes_of 4 m.value)
        (λ m. (m.sensor_id < 256 ^ 8) × (m.value < 256 ^ 4)) temperature-RoundTrips temperature_id
        (omega arith) buffer msg (omega (arith, whole)) (omega (arith, whole, len)) (d, e))
