-- ===== src/Streams/Values/Lists.antt =====
-- A list that was written to an empty stream is read back from what the stream holds.
use esp_ac_dimmer.Prelude.{
  ℕ, ◌<◌, ◌≡◌, arith, true, List, [], ◌∷◌, some, length, append-nil, All, length-append,
}
use esp_ac_dimmer.Streams.{OutputStream, InputStream, size}
use esp_ac_dimmer.Streams.Buffers.{IsOpen, HasRoom, appended, reopened, reopened-Holds, size-Holds}
use esp_ac_dimmer.Streams.Values.{Codec, write_list, read_list}
use esp_ac_dimmer.Streams.Values.RoundTrip.{
  RoundTrips, list_bytes, write_list-appended, read_list-Holds,
}

module _ {A : Type 0} (item : Codec A) (encode : A → List ℕ) (P : A → Type 0)
    (laws : RoundTrips item encode P) where
  pub length-list_bytes : (xs : List A) → length xs < length (list_bytes encode xs)
  unfolding list_bytes
  length-list_bytes [] = omega arith
  length-list_bytes (x ∷ xs) =
      omega (arith, length-append (encode x) (list_bytes encode xs), length-list_bytes xs)

  -- A list of values that round-trip, whose encoding fits in an empty stream, is written; a stream
  -- over the bytes that were written reads the same list and is then at its end. The number of
  -- bytes bounds the markers, so the loop of the reader ends.
  pub write-read_list :
      (xs : List A) (s : OutputStream)
      → IsOpen s
      → s.wpos ≡ 0
      → HasRoom s (list_bytes encode xs)
      → All P xs
      → (out : OutputStream) × (s' : InputStream) × (write_list item xs s ≡ (true, out))
        × (read_list item out.wpos (reopened out out.wpos) ≡ some (some xs, s'))
        × (size s' ≡ 0)
  write-read_list xs s o e h d =
      let bytes = list_bytes encode xs in
      let n : (appended s bytes).wpos ≡ length bytes = omega arith in
      let (s', runs, held) =
        read_list-Holds item encode P laws xs [] (length bytes)
          (reopened (appended s bytes) (length bytes)) d (length-list_bytes xs)
          (rw (append-nil bytes) (reopened-Holds s bytes o e h)) in
      (
        appended s bytes,
        s',
        write_list-appended item encode P laws xs s o h,
        rw n runs,
        size-Holds s' [] held,
      )
