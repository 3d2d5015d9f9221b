-- ===== src/Streams/Values/Strings.antt =====
-- A string that was written to an empty stream is read back from what the stream holds.
use esp_ac_dimmer.Prelude.{
  ℕ, suc, ◌+◌, ◌%◌, ◌^◌, ◌≤◌, ◌<◌, ◌≡◌, refl, ap, ◌∙◌, arith, ltb, ◌==◌, ==_iff, if◌then◌else◌,
  true, false, List, [], ◌∷◌, ◌++◌, none, some, length, append-nil, append_assoc, All,
  length-append,
}
use esp_ac_dimmer.Streams.{OutputStream, InputStream, write_data, size}
use esp_ac_dimmer.Streams.Buffers.{
  IsOpen, HasRoom, appended, appended-append, appended-IsOpen, write_data-appended, reopened,
  reopened-Holds, Holds, size-Holds,
}
use esp_ac_dimmer.Streams.Values.{
  bytes_of, write_number, read_number, write_string, iterate, read_items, read_vector,
}
use esp_ac_dimmer.Streams.Values.RoundTrip.{
  write_number-appended, read_number-Holds, length-bytes_of,
}

-- The memory of so many values of `n` bytes, one after the other.
unfoldable pub flat : ℕ → List ℕ → List ℕ
flat n [] = []
flat n (v ∷ vs) = bytes_of n v ++ flat n vs

flat_one : (str : List ℕ) → All (λ b. b < 256) str → flat 1 str ≡ str
unfolding flat bytes_of
flat_one [] h = refl
flat_one (b ∷ str) h =
    let byte : b % 256 ≡ b = omega (arith, h.0) in rw (byte, flat_one str h.1) refl

length-flat : (n : ℕ) (vs : List ℕ) → 0 < n → length vs ≤ length (flat n vs)
unfolding flat
length-flat n [] h = omega arith
length-flat n (v ∷ vs) h =
    omega (arith, length-append (bytes_of n v) (flat n vs), length-bytes_of n v, length-flat n vs h)

iterate-suc :
    (n left : ℕ) (s : InputStream)
    → iterate n (suc left) s ≡ (
        if ltb (size s) n then ([], s) else elim (read_number n s).0 [
          | none ↦ ([], (read_number n s).1)
          | some v ↦ let (vs, s₂) = iterate n left (read_number n s).1 in (v ∷ vs, s₂)
        ])
unfolding iterate
iterate-suc n left s = refl

iterate-more :
    (n v left : ℕ) (s : InputStream)
    → ltb (size s) n ≡ false
    → (read_number n s).0 ≡ some v
    → iterate n (suc left) s ≡ (let (vs, s₂) = iterate n left (read_number n s).1 in (v ∷ vs, s₂))
iterate-more n v left s enough got = rw (iterate-suc n left s, enough, got) refl

-- The iterator gives as many values as it was asked for, where the stream holds them.
iterate-Holds :
    (n : ℕ) (vs rest : List ℕ) (s : InputStream)
    → All (λ v. v < 256 ^ n) vs
    → Holds s (flat n vs ++ rest)
    → ((iterate n (length vs) s).0 ≡ vs) × Holds (iterate n (length vs) s).1 rest
unfolding flat
iterate-Holds n [] rest s d h = unfold iterate in (refl, h)
iterate-Holds n (v ∷ vs) rest s d h =
    let h' = rw append_assoc at h in
    let (got, held) = read_number-Holds n v (flat n vs ++ rest) s d.0 h' in
    let enough : ltb (size s) n ≡ false = ground (
      arith,
      size-Holds s _ h',
      length-append (bytes_of n v) (flat n vs ++ rest),
      length-bytes_of n v,
    ) in
    let (others, held') = iterate-Holds n vs rest (read_number n s).1 d.1 held in
    rw (iterate-more n v (length vs) s enough got) (ap (◌∷◌ v) others, held')

read_vector-some :
    (n count : ℕ) (vs : List ℕ) (s s' : InputStream)
    → (read_number 4 s).0 ≡ some count
    → read_items n count (read_number 4 s).1 ≡ (vs, s')
    → length vs ≡ count
    → read_vector n s ≡ (some vs, s')
unfolding read_vector
read_vector-some n count vs s s' got items len =
    let same : (length vs == count) ≡ true = (==_iff (length vs) count).1 len in
    rw (read_vector, got, items, same) refl

read_items-enough :
    (n count : ℕ) (s : InputStream)
    → count ≤ size s
    → count < 2 ^ 31
    → read_items n count s ≡ iterate n count s
unfolding read_items
read_items-enough n count s enough small =
    let all_there : ltb (size s) count ≡ false = ground arith in
    let positive : ltb count (2 ^ 31) ≡ true = ground arith in rw (all_there, positive) refl

-- `read` of a vector whose count and values the stream holds.
pub read_vector-Holds :
    (n : ℕ) (vs rest : List ℕ) (s : InputStream)
    → 0 < n
    → length vs < 2 ^ 31
    → All (λ v. v < 256 ^ n) vs
    → Holds s (bytes_of 4 (length vs) ++ (flat n vs ++ rest))
    → (s' : InputStream) × (read_vector n s ≡ (some vs, s')) × Holds s' rest
read_vector-Holds n vs rest s some_byte small d h =
    let (got, held) = read_number-Holds 4 (length vs) (flat n vs ++ rest) s (omega arith) h in
    let s₁ = (read_number 4 s).1 in
    let enough : length vs ≤ size s₁ =
      omega
        (arith, size-Holds s₁ _ held, length-append (flat n vs) rest, length-flat n vs some_byte) in
    let (values, held') = iterate-Holds n vs rest s₁ d held in
    let s' = (iterate n (length vs) s₁).1 in
    let items : read_items n (length vs) s₁ ≡ (vs, s') =
      read_items-enough n (length vs) s₁ enough small ∙ ap (λ (xs : List ℕ). (xs, s')) values in
    (s', read_vector-some n (length vs) vs s s' got items refl, held')

write_string-eq :
    (str : List ℕ) (s : OutputStream)
    → write_string str s ≡ (
        let (ok, s₁) = write_number 4 (length str % 2 ^ 32) s in
        if ok
        then ((length str % 2 ^ 32) == (write_data str s₁).0, (write_data str s₁).1)
        else (false, s₁))
unfolding write_string
write_string-eq str s = refl

write_string-appended :
    (str : List ℕ) (s : OutputStream)
    → IsOpen s
    → length str < 2 ^ 32
    → HasRoom s (bytes_of 4 (length str) ++ str)
    → write_string str s ≡ (true, appended s (bytes_of 4 (length str) ++ str))
write_string-appended str s o small h =
    let len : length str % 2 ^ 32 ≡ length str = omega arith in
    let total = length-append (bytes_of 4 (length str)) str in
    let s₁ = appended s (bytes_of 4 (length str)) in
    let room : HasRoom s (bytes_of 4 (length str)) = omega (arith, h, total) in
    let o₁ = appended-IsOpen s (bytes_of 4 (length str)) o room in
    let counted = write_number-appended 4 (length str) s o room in
    let copied = write_data-appended str s₁ o₁ (omega (arith, h, total)) in
    let same : (length str == length str) ≡ true = (==_iff _ _).1 refl in
    rw (write_string-eq str s, len, counted, copied, same)
      (ap (λ (s' : OutputStream). (true, s')) (appended-append s (bytes_of 4 (length str)) str))

-- A string of fewer than 2 ^ 31 bytes that fits in an empty stream with its length is written; a
-- stream over the bytes that were written reads the same string and is then at its end.
pub write-read_string :
    (str : List ℕ) (s : OutputStream)
    → IsOpen s
    → s.wpos ≡ 0
    → All (λ b. b < 256) str
    → length str < 2 ^ 31
    → 4 + length str ≤ s.bufsize
    → (out : OutputStream) × (s' : InputStream) × (write_string str s ≡ (true, out))
      × (read_vector 1 (reopened out out.wpos) ≡ (some str, s'))
      × (size s' ≡ 0)
write-read_string str s o e bytes small room =
    let image = bytes_of 4 (length str) ++ str in
    let total : length image ≡ 4 + length str =
      omega (arith, length-append (bytes_of 4 (length str)) str, length-bytes_of 4 (length str)) in
    let fits : HasRoom s image = omega (arith, total) in
    let n : (appended s image).wpos ≡ length image = omega arith in
    let whole : bytes_of 4 (length str) ++ (flat 1 str ++ []) ≡ image =
      rw (append-nil (flat 1 str), flat_one str bytes) refl in
    let (s', runs, held) =
      read_vector-Holds 1 str [] (reopened (appended s image) (length image)) (omega arith) small
        bytes (rw whole (reopened-Holds s image o e fits)) in
    (
      appended s image,
      s',
      write_string-appended str s o (omega arith) fits,
      rw n runs,
      size-Holds s' [] held,
    )
