-- ===== src/Streams/Buffers.antt =====
-- What a write leaves in the buffer, and what a read takes from it.
use esp_ac_dimmer.Prelude.{
  if◌then◌else◌, ltb, ℕ, zero, suc, ◌+◌, ◌-◌, ◌%◌, ◌^◌, ◌≤◌, ◌<◌, ◌≡◌, refl, ap, ◌∙◌, arith, List,
  [], ◌∷◌, ◌++◌, length, take, drop, length-append, take-length, drop-length,
}
use Prim.Native.Nat.{min}
use esp_ac_dimmer.Streams.{
  OutputStream, InputStream, reset, overwrite, copy_at, free_space, write_data, size, read_data,
}

pub record IsOpen (s : OutputStream) : Type 0 where
  pub memory : length s.buf ≡ s.bufsize
  pub inside : s.wpos ≤ s.bufsize
  pub small : s.bufsize < 2 ^ 32

-- What the stream is after the bytes were written, and the bytes that were written so far.
abbrev pub appended : OutputStream → List ℕ → OutputStream
appended s bytes = record s { buf = copy_at s.wpos bytes s.buf; wpos = s.wpos + length bytes }

abbrev pub HasRoom : OutputStream → List ℕ → Type 0
HasRoom s bytes = s.wpos + length bytes ≤ s.bufsize

length-overwrite : (x buf : List ℕ) → length (overwrite x buf) ≡ length buf
unfolding overwrite
length-overwrite [] buf = refl
length-overwrite (d ∷ x) [] = refl
length-overwrite (d ∷ x) (b ∷ buf) = ap suc (length-overwrite x buf)

length-copy_at : (p : ℕ) (x buf : List ℕ) → length (copy_at p x buf) ≡ length buf
unfolding copy_at
length-copy_at zero x buf = length-overwrite x buf
length-copy_at (suc p) x [] = refl
length-copy_at (suc p) x (b ∷ buf) = ap suc (length-copy_at p x buf)

overwrite-append :
    (x y buf : List ℕ) → copy_at (length x) y (overwrite x buf) ≡ overwrite (x ++ y) buf
unfolding copy_at overwrite
overwrite-append [] y buf = refl
overwrite-append (d ∷ x) y [] = refl
overwrite-append (d ∷ x) y (b ∷ buf) = ap (◌∷◌ d) (overwrite-append x y buf)

copy_at-append :
    (p : ℕ) (x y buf : List ℕ) → copy_at (p + length x) y (copy_at p x buf) ≡ copy_at p (x ++ y) buf
unfolding copy_at
copy_at-append zero x y buf =
    let e : 0 + length x ≡ length x = omega arith in rw e (overwrite-append x y buf)
copy_at-append (suc p) x y [] =
    let e : suc p + length x ≡ suc (p + length x) = omega arith in rw e refl
copy_at-append (suc p) x y (b ∷ buf) =
    let e : suc p + length x ≡ suc (p + length x) = omega arith in
    rw e (ap (◌∷◌ b) (copy_at-append p x y buf))

pub appended-append :
    (s : OutputStream) (x y : List ℕ) → appended (appended s x) y ≡ appended s (x ++ y)
appended-append s x y =
    let e : s.wpos + length x + length y ≡ s.wpos + length (x ++ y) =
      omega (arith, length-append x y) in
    rw (copy_at-append s.wpos x y s.buf, e) refl

pub appended-IsOpen :
    (s : OutputStream) (x : List ℕ) → IsOpen s → HasRoom s x → IsOpen (appended s x)
appended-IsOpen s x o h = record {
  memory = length-copy_at s.wpos x s.buf ∙ o.memory;
  inside = h;
  small = o.small;
}

take-all : (x : List ℕ) → take (length x) x ≡ x
take-all [] = refl
take-all (d ∷ x) = ap (◌∷◌ d) (take-all x)

-- Bytes that fit are all written.
pub write_data-appended :
    (x : List ℕ) (s : OutputStream)
    → IsOpen s
    → HasRoom s x
    → write_data x s ≡ (length x, appended s x)
unfolding write_data free_space
write_data-appended x s o h =
    let n : min (length x) ((s.bufsize + 2 ^ 32 - s.wpos) % 2 ^ 32) ≡ length x =
      omega (arith, o.inside, o.small) in
    let p : (s.wpos + length x) % 2 ^ 32 ≡ s.wpos + length x = omega (arith, o.small) in
    rw (n, p, take-all x) refl

take-overwrite : (x buf : List ℕ) → length x ≤ length buf → take (length x) (overwrite x buf) ≡ x
unfolding overwrite
take-overwrite [] buf h = refl
take-overwrite (d ∷ x) [] h = absurd (omega arith)
take-overwrite (d ∷ x) (b ∷ buf) h = ap (◌∷◌ d) (take-overwrite x buf (omega arith))

-- From an empty stream, the buffer starts with what was written.
pub take-appended :
    (s : OutputStream) (x : List ℕ)
    → IsOpen s
    → s.wpos ≡ 0
    → HasRoom s x
    → take (length x) (appended s x).buf ≡ x
unfolding copy_at
take-appended s x o e h = rw e (take-overwrite x s.buf (omega (arith, o.memory)))

-- The bytes that an input stream has still to read.
pub record Holds (s : InputStream) (bytes : List ℕ) : Type 0 where
  pub rest : drop s.rpos s.buf ≡ bytes
  pub count : s.bufsize ≡ s.rpos + length bytes
  pub small : s.bufsize < 2 ^ 32

drop-add : (n m : ℕ) (x : List ℕ) → drop (n + m) x ≡ drop m (drop n x)
drop-add zero m x = let e : 0 + m ≡ m = omega arith in rw e refl
drop-add (suc n) zero [] = let e : suc n + 0 ≡ suc n = omega arith in rw e refl
drop-add (suc n) (suc m) [] = let e : suc n + suc m ≡ suc (n + suc m) = omega arith in rw e refl
drop-add (suc n) m (b ∷ x) = let e : suc n + m ≡ suc (n + m) = omega arith in rw e (drop-add n m x)

pub size-Holds : (s : InputStream) (x : List ℕ) → Holds s x → size s ≡ length x
unfolding size
size-Holds s x h = omega (arith, h.count, h.small)

-- Bytes that are there are read.
pub read_data-Holds :
    (x rest : List ℕ) (s : InputStream)
    → Holds s (x ++ rest)
    → ((read_data (length x) s).0 ≡ x) × Holds (read_data (length x) s).1 rest
unfolding read_data
read_data-Holds x rest s h =
    let total : length (x ++ rest) ≡ length x + length rest = length-append x rest in
    let n : min (length x) (size s) ≡ length x = omega (arith, size-Holds s (x ++ rest) h, total) in
    let p : (s.rpos + length x) % 2 ^ 32 ≡ s.rpos + length x =
      omega (arith, h.count, h.small, total) in
    rw (n, p)
      (
        rw h.rest (take-length x rest),
        record {
          rest = drop-add s.rpos (length x) s.buf ∙ rw h.rest (drop-length x rest);
          count = omega (arith, h.count, total);
          small = h.small;
        },
      )

-- An input stream over the memory that an output stream was given, from its start.
abbrev pub reopened : OutputStream → ℕ → InputStream
reopened s n = record { buf = take n s.buf; bufsize = n; rpos = 0 }

pub reopened-Holds :
    (s : OutputStream) (x : List ℕ)
    → IsOpen s
    → s.wpos ≡ 0
    → HasRoom s x
    → Holds (reopened (appended s x) (length x)) x
reopened-Holds s x o e h = record {
  rest = take-appended s x o e h;
  count = omega arith;
  small = omega (arith, o.small, h);
}

-- After `reset` to an offset in the buffer the stream has the bytes from there on. `reset` also takes
-- an offset behind the end, and the size then wraps around to almost 2 ^ 32.
pub size-reset :
    (offset : ℕ) (s : InputStream)
    → s.bufsize < 2 ^ 32
    → offset < 2 ^ 32
    → size (reset offset s).1
      ≡ (if ltb s.bufsize offset then 2 ^ 32 - (offset - s.bufsize) else s.bufsize - offset)
unfolding size
size-reset offset s small h = ground arith
