-- ===== src/Streams/Collections/RoundTrip.antt =====
-- A set or a map that was written is read back into an empty one.
use esp_ac_dimmer.Prelude.{
  ℕ, zero, suc, ◌<◌, ◌≡◌, refl, ap, ◌∙◌, arith, true, List, [], ◌∷◌, ◌++◌, some, length, append-nil,
  append_assoc, All,
}
use esp_ac_dimmer.Streams.{OutputStream, InputStream, size}
use esp_ac_dimmer.Streams.Buffers.{
  IsOpen, HasRoom, Holds, appended, reopened, reopened-Holds, size-Holds,
}
use esp_ac_dimmer.Streams.Values.{Codec, pair, read_number, marker_item, marker_end, bytes_of}
use esp_ac_dimmer.Streams.Values.RoundTrip.{
  RoundTrips, list_bytes, pair-RoundTrips, read_number-Holds, write_list-appended,
}
use esp_ac_dimmer.Streams.Values.Lists.{length-list_bytes}
use esp_ac_dimmer.Streams.Collections.{Collection, write_set, read_set, write_map, read_map}

module _ {C A : Type 0} (collection : Collection C A) where
  -- One after the other.
  abbrev pub insert_all : List A → C → C
  insert_all [] c = c
  insert_all (x ∷ xs) c = insert_all xs (collection.insert x c)

module _ {C A : Type 0} (collection : Collection C A) (item : Codec A) (encode : A → List ℕ)
    (P : A → Type 0) (laws : RoundTrips item encode P) where
  open collection use {insert, elements}

  read_set-end :
      (fuel : ℕ) (c : C) (s : InputStream)
      → (read_number 1 s).0 ≡ some marker_end
      → read_set collection item (suc fuel) c s ≡ some (true, c, (read_number 1 s).1)
  unfolding read_set
  read_set-end fuel c s got = rw (got, read_set) refl

  read_set-item :
      (x : A) (fuel : ℕ) (c : C) (s : InputStream)
      → (read_number 1 s).0 ≡ some marker_item
      → (item.read (read_number 1 s).1).0 ≡ some x
      → read_set collection item (suc fuel) c s
        ≡ read_set collection item fuel (insert x c) (item.read (read_number 1 s).1).1
  unfolding read_set
  read_set-item x fuel c s got got' = rw (got, got', read_set) refl

  read_set-Holds :
      (xs : List A) (rest : List ℕ) (fuel : ℕ) (c : C) (s : InputStream)
      → All P xs
      → length xs < fuel
      → Holds s (list_bytes encode xs ++ rest)
      → (s' : InputStream) × (read_set collection item fuel c s
          ≡ some (true, insert_all collection xs c, s'))
        × Holds s' rest
  unfolding list_bytes bytes_of
  read_set-Holds xs rest zero c s d enough h = absurd (omega arith)
  read_set-Holds [] rest (suc fuel) c s d enough h =
      let (got, held) = read_number-Holds 1 marker_end rest s (omega arith) h in
      ((read_number 1 s).1, read_set-end fuel c s got, held)
  read_set-Holds (x ∷ xs) rest (suc fuel) c s d enough h =
      let (got, held) =
        read_number-Holds 1 marker_item (encode x ++ (list_bytes encode xs ++ rest)) s (omega arith)
          (rw append_assoc at h) in
      let (got', held') =
        laws.reads x (list_bytes encode xs ++ rest) (read_number 1 s).1 d.0 held in
      let (s', runs, held'') =
        read_set-Holds xs rest fuel (insert x c) (item.read (read_number 1 s).1).1 d.1 (omega arith)
          held' in
      (s', read_set-item x fuel c s got got' ∙ runs, held'')

  -- A set whose elements round-trip, whose encoding fits in an empty stream, is written; a stream over the
  -- bytes that were written is read into another set, which gets all the elements in their order,
  -- and is then at its end. The number of bytes bounds the markers, so the loop of the reader ends.
  pub write-read_set :
      (c into : C) (s : OutputStream)
      → IsOpen s
      → s.wpos ≡ 0
      → HasRoom s (list_bytes encode (elements c))
      → All P (elements c)
      → (out : OutputStream) × (s' : InputStream) × (write_set collection item c s ≡ (true, out))
        × (read_set collection item out.wpos into (reopened out out.wpos)
            ≡ some (true, insert_all collection (elements c) into, s'))
        × (size s' ≡ 0)
  unfolding write_set
  write-read_set c into s o e h d =
      let bytes = list_bytes encode (elements c) in
      let n : (appended s bytes).wpos ≡ length bytes = omega arith in
      let (s', runs, held) =
        read_set-Holds (elements c) [] (length bytes) into
          (reopened (appended s bytes) (length bytes)) d
          (length-list_bytes item encode P laws (elements c))
          (rw (append-nil bytes) (reopened-Holds s bytes o e h)) in
      (
        appended s bytes,
        s',
        write_list-appended item encode P laws (elements c) s o h,
        rw n runs,
        size-Holds s' [] held,
      )

module _ {C K V : Type 0} (collection : Collection C (K × V)) (key : Codec K) (value : Codec V)
    (f : K → List ℕ) (g : V → List ℕ) (P : K → Type 0) (Q : V → Type 0)
    (key_laws : RoundTrips key f P) (value_laws : RoundTrips value g Q) where
  abbrev pub entry_bytes : K × V → List ℕ
  entry_bytes e = f e.0 ++ g e.1

  -- A map whose keys and values round-trip, whose encoding fits in an empty stream, is written. A stream over
  -- the bytes that were written is read into a map from which inserting the first map's entries
  -- makes that map, as an empty one: it is the first map then, and the stream is at its end.
  pub write-read_map :
      (c empty : C) (s : OutputStream)
      → insert_all collection (collection.elements c) empty ≡ c
      → IsOpen s
      → s.wpos ≡ 0
      → HasRoom s (list_bytes entry_bytes (collection.elements c))
      → All (λ e. P e.0 × Q e.1) (collection.elements c)
      → (out : OutputStream) × (s' : InputStream) × (write_map collection key value c s
          ≡ (true, out))
        × (read_map collection key value out.wpos empty (reopened out out.wpos)
            ≡ some (true, c, s'))
        × (size s' ≡ 0)
  unfolding write_map read_map
  write-read_map c empty s rebuilt o e h d =
      let (out, s', wrote, got, done) =
        write-read_set collection (pair key value) entry_bytes (λ x. P x.0 × Q x.1)
          (pair-RoundTrips key value f g P Q key_laws value_laws) c empty s o e h d in
      (out, s', wrote, got ∙ ap (λ (c' : C). some (true, c', s')) rebuilt, done)
