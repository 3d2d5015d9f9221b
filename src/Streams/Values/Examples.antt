-- ===== src/Streams/Values/Examples.antt =====
-- The theorems on streams at a small buffer.
use esp_ac_dimmer.Prelude.{ℕ, ◌≡◌, refl, arith, true, List, [], ◌∷◌, some, replicate}
use esp_ac_dimmer.Streams.{OutputStream, InputStream, size}
use esp_ac_dimmer.Streams.Buffers.{IsOpen, HasRoom, reopened}
use esp_ac_dimmer.Streams.Values.{bytes_of, write_string, read_vector}
use esp_ac_dimmer.Streams.Values.RoundTrip.{list_bytes}
use esp_ac_dimmer.Streams.Values.Strings.{write-read_string}

abbrev empty : OutputStream
empty = record { buf = replicate 16 0; bufsize = 16; wpos = 0 }

empty-IsOpen : IsOpen empty
empty-IsOpen = record { memory = refl; inside = omega arith; small = omega arith }

abbrev numbers : List ℕ
numbers = 70000 ∷ 258 ∷ []

numbers-fit : HasRoom empty (list_bytes (bytes_of 4) numbers)
unfolding list_bytes bytes_of
numbers-fit = omega arith

-- The string "dimmer".
abbrev name : List ℕ
name = 100 ∷ 105 ∷ 109 ∷ 109 ∷ 101 ∷ 114 ∷ []

write-read_string_example :
    (out : OutputStream) × (s : InputStream) × (write_string name empty ≡ (true, out))
    × (read_vector 1 (reopened out out.wpos) ≡ (some name, s))
    × (size s ≡ 0)
write-read_string_example =
    write-read_string name empty empty-IsOpen refl (omega arith) (omega arith) (omega arith)
