-- ===== src/Streams/Collections/Examples.antt =====
-- The theorems on sets and maps at a map from numbers to numbers.
use esp_ac_dimmer.Prelude.{
  ℕ, ◌<◌, ◌≡◌, ◌^◌, ◌==◌, if◌then◌else◌, refl, arith, Bool, true, false, ◌||◌, List, [], ◌∷◌, ◌++◌,
  some, replicate,
}
use esp_ac_dimmer.Streams.{OutputStream, InputStream, size}
use esp_ac_dimmer.Streams.Buffers.{IsOpen, HasRoom, reopened}
use esp_ac_dimmer.Streams.Values.{number, bytes_of}
use esp_ac_dimmer.Streams.Values.RoundTrip.{list_bytes, number-RoundTrips}
use esp_ac_dimmer.Streams.Collections.{Collection, write_map, read_map}
use esp_ac_dimmer.Streams.Collections.RoundTrip.{write-read_map}

abbrev has_key : ℕ → List (ℕ × ℕ) → Bool
has_key k [] = false
has_key k (e ∷ es) = (k == e.0) || has_key k es

-- The entries in the order of their insertion; a key that is there is not inserted again.
abbrev entries : Collection (List (ℕ × ℕ)) (ℕ × ℕ)
entries = record {
  insert = λ e es. if has_key e.0 es then es else es ++ (e ∷ []);
  elements = λ es. es;
}

abbrev levels : List (ℕ × ℕ)
levels = (7, 300) ∷ (9, 12) ∷ []

abbrev stream : OutputStream
stream = record { buf = replicate 16 0; bufsize = 16; wpos = 0 }

stream-IsOpen : IsOpen stream
stream-IsOpen = record { memory = refl; inside = omega arith; small = omega arith }

levels-fit : HasRoom stream (list_bytes (λ (e : ℕ × ℕ). bytes_of 2 e.0 ++ bytes_of 4 e.1) levels)
unfolding list_bytes bytes_of
levels-fit = omega arith

write-read_map_example :
    (out : OutputStream) × (s : InputStream) × (write_map entries
        (number 2)
        (number 4)
        levels
        stream
      ≡ (true, out))
    × (read_map entries (number 2) (number 4) out.wpos [] (reopened out out.wpos)
        ≡ some (true, levels, s))
    × (size s ≡ 0)
write-read_map_example =
    write-read_map entries (number 2) (number 4) (bytes_of 2) (bytes_of 4) (λ v. v < 256 ^ 2)
      (λ v. v < 256 ^ 4) (number-RoundTrips 2) (number-RoundTrips 4) levels [] stream refl
      stream-IsOpen refl levels-fit (omega arith)
