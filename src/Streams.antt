-- ===== src/Streams.antt =====
-- The array streams of src/components/common: InputStream.h, OutputStream.h and their sources.
-- This file has the buffers, Streams/Values.antt the values that are written and read.
pub mod Buffers
pub mod Values
pub mod Collections
use esp_ac_dimmer.Prelude.{
  ℕ, zero, suc, ◌+◌, ◌-◌, ◌*◌, ◌%◌, ◌^◌, ltb, if◌then◌else◌, Bool, true, false, List, [], ◌∷◌,
  length, take, drop,
}
use Prim.Native.Nat.{min}

-- `memcpy` to the position in the buffer; nothing is written behind the buffer's end.
unfoldable pub overwrite : List ℕ → List ℕ → List ℕ
overwrite [] buf = buf
overwrite (d ∷ bytes) [] = []
overwrite (d ∷ bytes) (b ∷ buf) = d ∷ overwrite bytes buf

unfoldable pub copy_at : ℕ → List ℕ → List ℕ → List ℕ
unfolding overwrite
copy_at zero bytes buf = overwrite bytes buf
copy_at (suc pos) bytes [] = []
copy_at (suc pos) bytes (b ∷ buf) = b ∷ copy_at pos bytes buf

-- `ArrayOutputStream`; the list is the memory that `m_buf` points to.
pub record OutputStream : Type 0 where
  pub buf : List ℕ
  pub bufsize : ℕ
  pub wpos : ℕ

abbrev pub data_size : OutputStream → ℕ
data_size s = s.wpos

-- The difference of two `uint32_t`.
pub free_space : OutputStream → ℕ
free_space s = (s.bufsize + 2 ^ 32 - data_size s) % 2 ^ 32

-- `ArrayOutputStream::write`, with the number of bytes that it answers.
pub write_data : List ℕ → OutputStream → ℕ × OutputStream
unfolding free_space copy_at
write_data bytes s =
    let size = min (length bytes) (free_space s) in
    (
      size,
      record s { buf = copy_at s.wpos (take size bytes) s.buf; wpos = (s.wpos + size) % 2 ^ 32 },
    )

abbrev pub flush : OutputStream → Bool × OutputStream
flush s = (true, record s { wpos = 0 })

-- `ArrayInputStream`.
pub record InputStream : Type 0 where
  pub buf : List ℕ
  pub bufsize : ℕ
  pub rpos : ℕ

pub size : InputStream → ℕ
size s = (s.bufsize + 2 ^ 32 - s.rpos) % 2 ^ 32

-- `ArrayInputStream::read`, with the bytes that it copies; their number is what it answers.
pub read_data : ℕ → InputStream → List ℕ × InputStream
unfolding size
read_data data_size s =
    let size_to_read = min data_size (size s) in
    (take size_to_read (drop s.rpos s.buf), record s { rpos = (s.rpos + size_to_read) % 2 ^ 32 })

-- `ArrayInputStream::reset` takes any offset.
abbrev pub reset : ℕ → InputStream → Bool × InputStream
reset offset s = (true, record s { rpos = offset })
