-- ===== src/Streams/Collections.antt =====
-- Sets and maps of src/components/common: `read` and `write` of a `std::set`, and
-- `writeMapLikeContainer` and `readMapLikeContainer`, whose elements are pairs.
pub mod RoundTrip
mod Examples
use esp_ac_dimmer.Prelude.{
  ℕ, zero, suc, ◌==◌, if◌then◌else◌, Bool, true, false, not, List, Option, none, some,
}
use esp_ac_dimmer.Streams.{OutputStream, InputStream}
use esp_ac_dimmer.Streams.Values.{Codec, read_number, write_list, marker_item, marker_end, pair}

-- What the templates use of a container of the standard library: `insert` or `emplace`, and its elements
-- in the order of its iterators.
pub record Collection (C A : Type 0) : Type 0 where
  pub insert : A → C → C
  pub elements : C → List A

module _ {C A : Type 0} (collection : Collection C A) (item : Codec A) where
  -- `write` of a set, which is `writeListLikeContainer` of its elements.
  pub write_set : C → OutputStream → Bool × OutputStream
  write_set c s = write_list item (collection.elements c) s

  -- `read` of a set, with at most so many markers, `none` when they run out: its answer, the set with
  -- what was inserted, and the stream.
  pub read_set : ℕ → C → InputStream → Option (Bool × C × InputStream)
  read_set zero c s = none
  read_set (suc fuel) c s =
      let (marker, s₁) = read_number 1 s in
      let (value, s₂) = item.read s₁ in
      elim marker [
        | none ↦ some (false, c, s₁)
        | some m ↦
            if m == marker_end
            then some (true, c, s₁)
            else if not (m == marker_item)
            then some (false, c, s₁)
            else elim value [
              | none ↦ some (false, c, s₂)
              | some x ↦ read_set fuel (collection.insert x c) s₂
            ]
      ]

module _ {C K V : Type 0} (collection : Collection C (K × V)) (key : Codec K)
    (value : Codec V) where
  -- `writeMapLikeContainer` and `readMapLikeContainer`: an entry is its key and then its value.
  pub write_map : C → OutputStream → Bool × OutputStream
  unfolding write_set
  write_map c s = write_set collection (pair key value) c s

  pub read_map : ℕ → C → InputStream → Option (Bool × C × InputStream)
  unfolding read_set
  read_map fuel c s = read_set collection (pair key value) fuel c s
