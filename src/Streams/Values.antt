-- ===== src/Streams/Values.antt =====
-- The values of `OutputBase::write` and `InputBase::read` in src/components/common: numbers, strings,
-- pairs and lists. The templates for lists take the element's `write` and `read` as a `Codec`.
pub mod RoundTrip
pub mod Lists
pub mod Strings
mod Examples
use esp_ac_dimmer.Prelude.{
  ℕ, zero, suc, ◌+◌, ◌*◌, ◌/◌, ◌%◌, ◌^◌, ltb, ◌==◌, if◌then◌else◌, Bool, true, false, not, List, [],
  ◌∷◌, Option, none, some, length,
}
use esp_ac_dimmer.Streams.{OutputStream, InputStream, write_data, size, read_data}

-- The memory of a number of so many bytes on a little-endian machine, and back.
unfoldable pub bytes_of : ℕ → ℕ → List ℕ
bytes_of zero v = []
bytes_of (suc n) v = v % 256 ∷ bytes_of n (v / 256)

unfoldable pub value_of : List ℕ → ℕ
value_of [] = 0
value_of (b ∷ bs) = b + 256 * value_of bs

-- `write` of a value of `n` bytes.
pub write_number : ℕ → ℕ → OutputStream → Bool × OutputStream
unfolding bytes_of
write_number n v s = let (written, s') = write_data (bytes_of n v) s in (n == written, s')

-- `read` of a value of `n` bytes; `none` is its `false`.
pub read_number : ℕ → InputStream → Option ℕ × InputStream
unfolding value_of
read_number n s =
    if ltb (size s) n
    then (none, s)
    else let (bs, s') = read_data n s in (if n == length bs then some (value_of bs) else none, s')

-- `write` of a `std::string`, whose characters are bytes.
pub write_string : List ℕ → OutputStream → Bool × OutputStream
unfolding write_number
write_string str s =
    let len = length str % 2 ^ 32 in
    let (ok, s₁) = write_number 4 len s in
    if ok then (let (written, s₂) = write_data str s₁ in (len == written, s₂)) else (false, s₁)

-- The values between an `Iterator` with so many items left and the end, each of `n` bytes.
pub iterate : ℕ → ℕ → InputStream → List ℕ × InputStream
unfolding read_number
iterate n zero s = ([], s)
iterate n (suc items_left) s =
    if ltb (size s) n
    then ([], s)
    else let (value, s₁) = read_number n s in
      elim value [
        | none ↦ ([], s₁)
        | some v ↦ let (vs, s₂) = iterate n items_left s₁ in (v ∷ vs, s₂)
      ]

-- From `begin` on; `itemsCount` is an `int` in the iterator.
pub read_items : ℕ → ℕ → InputStream → List ℕ × InputStream
unfolding iterate
read_items n items_count s =
    if ltb (size s) items_count
    then ([], s)
    else if ltb items_count (2 ^ 31)
    then iterate n items_count s
    else ([], s)

-- `read` of a `std::vector` of values of `n` bytes, and with `n = 1` of a `std::string`.
pub read_vector : ℕ → InputStream → Option (List ℕ) × InputStream
unfolding read_number read_items
read_vector n s =
    let (count, s₁) = read_number 4 s in
    elim count [
      | none ↦ (none, s₁)
      | some items_count ↦
          let (vs, s₂) = read_items n items_count s₁ in
          (if length vs == items_count then some vs else none, s₂)
    ]

-- `read` of a `std::unique_ptr`, by the element's `create`, with the pointer after it; a null pointer is
-- `none`.
abbrev pub read_unique :
    {T : Type 0}
    → (InputStream → Option T × InputStream)
    → InputStream
    → Bool × Option T × InputStream
read_unique create s =
    let (instance_uptr, s') = create s in
    elim instance_uptr [ none ↦ (false, none, s') | some t ↦ (true, some t, s') ]

-- What the templates use of an element: its `write`, and its `read` with `none` for `false`.
pub record Codec (A : Type 0) : Type 0 where
  pub write : A → OutputStream → Bool × OutputStream
  pub read : InputStream → Option A × InputStream

abbrev pub number : ℕ → Codec ℕ
number n = record { write = write_number n; read = read_number n }

-- `SerializationMarker`.
abbrev pub marker_item : ℕ
marker_item = 0

abbrev pub marker_end : ℕ
marker_end = 1

module _ {A : Type 0} (item : Codec A) where
  -- `writeListLikeContainer`.
  pub write_list : List A → OutputStream → Bool × OutputStream
  unfolding write_number
  write_list [] s = write_number 1 marker_end s
  write_list (x ∷ xs) s =
      let (marked, s₁) = write_number 1 marker_item s in
      let (ok, s₂) = item.write x s₁ in
      let rest = write_list xs s₂ in
      if not marked then (false, s₁) else if not ok then (false, s₂) else rest

  -- `readListLikeContainer` into an empty list, with at most so many markers; the outer `none` when
  -- they run out, the inner where it returns `false`.
  pub read_list : ℕ → InputStream → Option (Option (List A) × InputStream)
  unfolding read_number
  read_list zero s = none
  read_list (suc fuel) s =
      let (marker, s₁) = read_number 1 s in
      let (value, s₂) = item.read s₁ in
      let rest = read_list fuel s₂ in
      elim marker [
        | none ↦ some (none, s₁)
        | some m ↦
            if m == marker_end
            then some (some [], s₁)
            else if not (m == marker_item)
            then some (none, s₁)
            else elim value [
              | none ↦ some (none, s₂)
              | some x ↦ elim rest [
                | none ↦ none
                | some (none, s₃) ↦ some (none, s₃)
                | some (some xs, s₃) ↦ some (some (x ∷ xs), s₃)
              ]
            ]
      ]

module _ {A B : Type 0} (first : Codec A) (second : Codec B) where
  -- An entry of `writeMapLikeContainer` and `readMapLikeContainer`, or two members of a message.
  pub write_pair : A × B → OutputStream → Bool × OutputStream
  write_pair (a, b) s =
      let (ok, s₁) = first.write a s in if ok then second.write b s₁ else (false, s₁)

  pub read_pair : InputStream → Option (A × B) × InputStream
  read_pair s =
      let (x, s₁) = first.read s in
      elim x [
        | none ↦ (none, s₁)
        | some a ↦
            let (y, s₂) = second.read s₁ in
            elim y [ none ↦ (none, s₂) | some b ↦ (some (a, b), s₂) ]
      ]

  abbrev pub pair : Codec (A × B)
  pair = record { write = write_pair; read = read_pair }
