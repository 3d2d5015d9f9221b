-- ===== src/Streams/Values/RoundTrip.antt =====
-- What is written can be read back.
use esp_ac_dimmer.Prelude.{
  ℕ, zero, suc, ◌/◌, ◌^◌, ◌<◌, ◌≡◌, refl, ap, ◌∙◌, arith, ltb, ◌==◌, if◌then◌else◌, true, false,
  not, List, [], ◌∷◌, ◌++◌, some, length, length-append, append_assoc, All,
}
use native.Mathlib.Nat.{pow-suc}
use esp_ac_dimmer.Streams.{OutputStream, InputStream, size}
use esp_ac_dimmer.Streams.Buffers.{
  IsOpen, HasRoom, appended, appended-append, appended-IsOpen, write_data-appended, Holds,
  size-Holds, read_data-Holds,
}
use esp_ac_dimmer.Streams.Values.{
  bytes_of, value_of, write_number, read_number, Codec, number, marker_item, marker_end, write_list,
  read_list, write_pair, read_pair, pair,
}

-- A value in its domain is written as its encoding, where that fits, and read from it.
pub record RoundTrips {A : Type 0} (c : Codec A) (encode : A → List ℕ) (Domain : A → Type 0)
    : Type 0 where
  pub writes :
      (a : A) (s : OutputStream)
      → IsOpen s
      → HasRoom s (encode a)
      → c.write a s ≡ (true, appended s (encode a))
  pub reads :
      (a : A) (rest : List ℕ) (s : InputStream)
      → Domain a
      → Holds s (encode a ++ rest)
      → ((c.read s).0 ≡ some a) × Holds (c.read s).1 rest

pub length-bytes_of : (n v : ℕ) → length (bytes_of n v) ≡ n
unfolding bytes_of
length-bytes_of zero v = refl
length-bytes_of (suc n) v = ap suc (length-bytes_of n (v / 256))

pub value_of-bytes_of : (n v : ℕ) → v < 256 ^ n → value_of (bytes_of n v) ≡ v
unfolding value_of bytes_of
value_of-bytes_of zero v h = omega arith
value_of-bytes_of (suc n) v h =
    omega (arith, value_of-bytes_of n (v / 256) (omega (arith, pow-suc 256 n)))

pub write_number-appended :
    (n v : ℕ) (s : OutputStream)
    → IsOpen s
    → HasRoom s (bytes_of n v)
    → write_number n v s ≡ (true, appended s (bytes_of n v))
unfolding write_number
write_number-appended n v s o h =
    let same : (n == length (bytes_of n v)) ≡ true = rw (length-bytes_of n v) (ground arith) in
    rw (write_data-appended (bytes_of n v) s o h, same) refl

pub read_number-Holds :
    (n v : ℕ) (rest : List ℕ) (s : InputStream)
    → v < 256 ^ n
    → Holds s (bytes_of n v ++ rest)
    → ((read_number n s).0 ≡ some v) × Holds (read_number n s).1 rest
unfolding read_number
read_number-Holds n v rest s small h =
    let len = length-bytes_of n v in
    let enough : ltb (size s) n ≡ false =
      ground
        (arith, size-Holds s (bytes_of n v ++ rest) h, length-append (bytes_of n v) rest, len) in
    let (bytes, held) = rw len at (read_data-Holds (bytes_of n v) rest s h) in
    let same : (n == length (bytes_of n v)) ≡ true = rw len (ground arith) in
    rw (enough, bytes, same) (ap some (value_of-bytes_of n v small), held)

pub number-RoundTrips : (n : ℕ) → RoundTrips (number n) (bytes_of n) (λ v. v < 256 ^ n)
number-RoundTrips n = record {
  writes = λ v s o h. write_number-appended n v s o h;
  reads = λ v rest s small h. read_number-Holds n v rest s small h;
}

module _ {A B : Type 0} (first : Codec A) (second : Codec B) where
  pub pair-RoundTrips :
      (f : A → List ℕ) (g : B → List ℕ) (P : A → Type 0) (Q : B → Type 0)
      → RoundTrips first f P
      → RoundTrips second g Q
      → RoundTrips (pair first second) (λ x. f x.0 ++ g x.1) (λ x. P x.0 × Q x.1)
  unfolding write_pair read_pair
  pair-RoundTrips f g P Q a b = record {
    writes = λ x s o h.
        let total = length-append (f x.0) (g x.1) in
        let room : HasRoom s (f x.0) = omega (arith, h, total) in
        let o₁ = appended-IsOpen s (f x.0) o room in
        rw (a.writes x.0 s o room, b.writes x.1 (appended s (f x.0)) o₁ (omega (arith, h, total)))
          (ap (λ (s' : OutputStream). (true, s')) (appended-append s (f x.0) (g x.1)));
    reads = λ x rest s d h.
        let (got, held) = a.reads x.0 (g x.1 ++ rest) s d.0 (rw append_assoc at h) in
        let (got', held') = b.reads x.1 rest (first.read s).1 d.1 held in
        rw (read_pair, got, read_pair, got') (refl, held');
  }

-- The encoding of a list: a marker before each element, and one at the end.
unfoldable pub list_bytes : {A : Type 0} → (A → List ℕ) → List A → List ℕ
list_bytes encode [] = marker_end ∷ []
list_bytes encode (x ∷ xs) = marker_item ∷ encode x ++ list_bytes encode xs

module _ {A : Type 0} (item : Codec A) (encode : A → List ℕ) (P : A → Type 0)
    (laws : RoundTrips item encode P) where
  write_list-cons :
      (x : A) (xs : List A) (s : OutputStream)
      → write_list item (x ∷ xs) s ≡ (
          let (marked, s₁) = write_number 1 marker_item s in
          let (ok, s₂) = item.write x s₁ in
          if not marked then (false, s₁) else if not ok then (false, s₂) else write_list item xs s₂)
  unfolding write_list
  write_list-cons x xs s = refl

  -- A list whose encoding fits is written as its encoding.
  pub write_list-appended :
      (xs : List A) (s : OutputStream)
      → IsOpen s
      → HasRoom s (list_bytes encode xs)
      → write_list item xs s ≡ (true, appended s (list_bytes encode xs))
  unfolding list_bytes bytes_of
  write_list-appended [] s o h = unfold write_list in write_number-appended 1 marker_end s o h
  write_list-appended (x ∷ xs) s o h =
      let total = length-append (encode x) (list_bytes encode xs) in
      let s₁ = appended s (marker_item ∷ []) in
      let s₂ = appended s₁ (encode x) in
      let o₁ = appended-IsOpen s (marker_item ∷ []) o (omega (arith, h, total)) in
      let o₂ = appended-IsOpen s₁ (encode x) o₁ (omega (arith, h, total)) in
      let marked = write_number-appended 1 marker_item s o (omega (arith, h, total)) in
      let stored = laws.writes x s₁ o₁ (omega (arith, h, total)) in
      let others = write_list-appended xs s₂ o₂ (omega (arith, h, total)) in
      let joined =
        ap (λ (s' : OutputStream). appended s' (list_bytes encode xs))
          (appended-append s (marker_item ∷ []) (encode x))
        ∙ appended-append s (marker_item ∷ encode x) (list_bytes encode xs) in
      rw (write_list-cons x xs s, marked, stored, others)
        (ap (λ (s' : OutputStream). (true, s')) joined)

  read_list-end :
      (fuel : ℕ) (s : InputStream)
      → (read_number 1 s).0 ≡ some marker_end
      → read_list item (suc fuel) s ≡ some (some [], (read_number 1 s).1)
  unfolding read_list read_number
  read_list-end fuel s got = rw (read_list, got) refl

  read_list-item :
      (x : A) (xs : List A) (fuel : ℕ) (s s' : InputStream)
      → (read_number 1 s).0 ≡ some marker_item
      → (item.read (read_number 1 s).1).0 ≡ some x
      → read_list item fuel (item.read (read_number 1 s).1).1 ≡ some (some xs, s')
      → read_list item (suc fuel) s ≡ some (some (x ∷ xs), s')
  unfolding read_list
  read_list-item x xs fuel s s' got got' runs = rw (read_list, got, got', runs) refl

  pub read_list-Holds :
      (xs : List A) (rest : List ℕ) (fuel : ℕ) (s : InputStream)
      → All P xs
      → length xs < fuel
      → Holds s (list_bytes encode xs ++ rest)
      → (s' : InputStream) × (read_list item fuel s ≡ some (some xs, s')) × Holds s' rest
  unfolding list_bytes bytes_of
  read_list-Holds xs rest zero s d enough h = absurd (omega arith)
  read_list-Holds [] rest (suc fuel) s d enough h =
      let (got, held) = read_number-Holds 1 marker_end rest s (omega arith) h in
      ((read_number 1 s).1, read_list-end fuel s got, held)
  read_list-Holds (x ∷ xs) rest (suc fuel) s d enough h =
      let (got, held) =
        read_number-Holds 1 marker_item (encode x ++ (list_bytes encode xs ++ rest)) s (omega arith)
          (rw append_assoc at h) in
      let (got', held') =
        laws.reads x (list_bytes encode xs ++ rest) (read_number 1 s).1 d.0 held in
      let (s', runs, held'') =
        read_list-Holds xs rest fuel (item.read (read_number 1 s).1).1 d.1 (omega arith) held' in
      (s', read_list-item x xs fuel s s' got got' runs, held'')
