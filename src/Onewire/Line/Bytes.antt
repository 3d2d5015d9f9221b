-- ===== src/Onewire/Line/Bytes.antt =====
-- The bytes that `write` and `read` put on the wire and take from it, bit by bit.
use esp_ac_dimmer.Prelude.{
  length, ℕ, zero, suc, ◌+◌, ◌*◌, ◌/◌, ◌%◌, ◌^◌, ◌<◌, ◌≡◌, refl, ap, ◌∙◌, arith, ◌==◌, ltb, bit_and,
  bit_or, if◌then◌else◌, Bool, true, false, ◌&&◌, List, [], ◌∷◌, all_below, all_below_sound,
}
use esp_ac_dimmer.Prelude.Bits.{bit_or_step}
use native.Mathlib.Nat.{pow-suc}
use esp_ac_dimmer.Onewire.Line.{
  read_bytes, Callbacks, write_bit, read_bit, float, write_loop, write, read_loop, read,
}

-- The bits of a byte, the lowest first, and the number that a list of bits stands for.
unfoldable pub bits_of : ℕ → ℕ → List ℕ
bits_of zero v = []
bits_of (suc n) v = v % 2 ∷ bits_of n (v / 2)

unfoldable pub number_of : List ℕ → ℕ
number_of [] = 0
number_of (b ∷ bs) = b + 2 * number_of bs

module _ {W : Type 0} (cb : Callbacks W) where
  unfoldable pub write_each : List ℕ → W → W
  write_each [] w = w
  write_each (b ∷ bs) w = write_each bs (write_bit cb b w)

  unfoldable pub read_each : ℕ → W → List ℕ × W
  read_each zero w = ([], w)
  read_each (suc n) w = let (b, w₁) = read_bit cb w in let (bs, w₂) = read_each n w₁ in (b ∷ bs, w₂)

number_of-bits_of : (n v : ℕ) → v < 2 ^ n → number_of (bits_of n v) ≡ v
unfolding number_of bits_of
number_of-bits_of zero v h = omega arith
number_of-bits_of (suc n) v h =
    omega (arith, number_of-bits_of n (v / 2) (omega (arith, pow-suc 2 n)))

-- The eight tests of the loop of `write` on a byte.
abbrev tested : ℕ → ℕ → ℕ
tested mask v = if bit_and mask v == 0 then 0 else 1

abbrev tests_agree : ℕ → Bool
tests_agree v =
    (tested 1 v == (v % 2))
    && ((tested 2 v == (v / 2 % 2))
        && ((tested 4 v == (v / 2 / 2 % 2))
            && ((tested 8 v == (v / 2 / 2 / 2 % 2))
                && ((tested 16 v == (v / 2 / 2 / 2 / 2 % 2))
                    && ((tested 32 v == (v / 2 / 2 / 2 / 2 / 2 % 2))
                        && ((tested 64 v == (v / 2 / 2 / 2 / 2 / 2 / 2 % 2))
                            && (tested 128 v == (v / 2 / 2 / 2 / 2 / 2 / 2 / 2 % 2))))))))

tests_check : all_below 256 tests_agree ≡ true
unfolding all_below
tests_check = refl

tests :
    (v : ℕ)
    → v < 256
    → (tested 1 v ≡ v % 2)
      × (tested 2 v ≡ v / 2 % 2)
      × (tested 4 v ≡ v / 2 / 2 % 2)
      × (tested 8 v ≡ v / 2 / 2 / 2 % 2)
      × (tested 16 v ≡ v / 2 / 2 / 2 / 2 % 2)
      × (tested 32 v ≡ v / 2 / 2 / 2 / 2 / 2 % 2)
      × (tested 64 v ≡ v / 2 / 2 / 2 / 2 / 2 / 2 % 2)
      × (tested 128 v ≡ v / 2 / 2 / 2 / 2 / 2 / 2 / 2 % 2)
tests v h = let t = all_below_sound 256 tests_agree v tests_check h in grind arith

mask_add : (i r : ℕ) → r < 2 ^ i → bit_or r (2 ^ i) ≡ r + 2 ^ i
mask_add zero zero h = refl
mask_add zero (suc r) h = absurd (omega arith)
mask_add (suc i) r h =
    let half : 2 ^ suc i / 2 ≡ 2 ^ i = omega (arith, pow-suc 2 i) in
    let halved = mask_add i (r / 2) (omega (arith, pow-suc 2 i)) in
    omega (
      arith,
      pow-suc 2 i,
      bit_or_step r (2 ^ suc i),
      rw half at (bit_or_step r (2 ^ suc i)),
      halved,
    )

powers_check : all_below 8 (λ i. (2 ^ i % 256 == 2 ^ i) && ltb 0 (2 ^ i)) ≡ true
unfolding all_below
powers_check = refl

power-fits : (i : ℕ) → i < 8 → (2 ^ i % 256 ≡ 2 ^ i) × (0 < 2 ^ i)
power-fits i h =
    let t = all_below_sound 8 (λ i. (2 ^ i % 256 == 2 ^ i) && ltb 0 (2 ^ i)) i powers_check h in
    ground arith

take_bit :
    (b i r : ℕ) → b < 2 → r < 2 ^ i → (if b == 0 then r else bit_or r (2 ^ i)) ≡ r + 2 ^ i * b
take_bit zero i r hb h = omega arith
take_bit (suc zero) i r hb h = omega (arith, mask_add i r h)
take_bit (suc (suc b)) i r hb h = absurd (omega arith)

sum_below : (p b r : ℕ) → r < p → b < 2 → r + p * b < p * 2
sum_below p zero r h hb = omega arith
sum_below p (suc zero) r h hb = omega arith
sum_below p (suc (suc b)) r h hb = absurd (omega arith)

module _ {W : Type 0} (cb : Callbacks W) where
  -- `write` sends the eight bits of a byte, the lowest first, and then lets the wire float unless
  -- power is asked for.
  pub write-eq :
      (v : ℕ) (power : Bool) (w : W)
      → v < 256
      → write cb v power w ≡ (
          if power then write_each cb (bits_of 8 v) w else float cb (write_each cb (bits_of 8 v) w))
  unfolding write write_loop write_each bits_of
  write-eq v power w h = let t = tests v h in rw (t.0, t.1, t.2, t.3, t.4, t.5, t.6, t.7) refl

  read_bit-lt : (w : W) → (read_bit cb w).0 < 2
  unfolding read_bit
  read_bit-lt w = ground arith

  read_loop-suc :
      (fuel mask r : ℕ) (w : W)
      → read_loop cb (suc fuel) mask r w ≡ (
          if mask == 0
          then (r, w)
          else read_loop cb fuel
              (mask * 2 % 256)
              (if (read_bit cb w).0 == 0 then r else bit_or r mask)
              (read_bit cb w).1)
  unfolding read_loop
  read_loop-suc fuel mask r w = refl

  read_loop-eq :
      (k i r : ℕ) (w : W)
      → k + i ≡ 8
      → r < 2 ^ i
      → let x = read_each cb k w in
        read_loop cb (suc k) (2 ^ i % 256) r w ≡ (r + 2 ^ i * number_of x.0, x.1)
  unfolding read_each number_of
  read_loop-eq zero i r w e h =
      let eight : i ≡ 8 = omega arith in
      rw (read_loop-suc 0 (2 ^ i % 256) r w, eight) (ap (λ (n : ℕ). (n, w)) (omega arith))
  read_loop-eq (suc k) i r w e h =
      let (b, w') = read_bit cb w in
      let (bits, w'') = read_each cb k w' in
      let fits = power-fits i (omega arith) in
      let some_mask : (2 ^ i == 0) ≡ false = ground (arith, fits.1) in
      let next : 2 ^ i * 2 % 256 ≡ 2 ^ suc i % 256 = omega (arith, pow-suc 2 i) in
      let stored : (if b == 0 then r else bit_or r (2 ^ i)) ≡ r + 2 ^ i * b =
        take_bit b i r (read_bit-lt w) h in
      let below : r + 2 ^ i * b < 2 ^ suc i =
        rw (pow-suc 2 i) (sum_below (2 ^ i) b r h (read_bit-lt w)) in
      let rest = read_loop-eq k (suc i) (r + 2 ^ i * b) w' (omega arith) below in
      rw (read_loop-suc (suc k) (2 ^ i % 256) r w, fits.0, some_mask, next, stored, rest)
        (ap (λ (n : ℕ). (n, w'')) (rw (pow-suc 2 i) (omega arith)))

  -- `read` takes eight bits and answers the number that they stand for, the first bit the lowest.
  pub read-eq : (w : W) → read cb w ≡ (let (bits, w') = read_each cb 8 w in (number_of bits, w'))
  unfolding read
  read-eq w =
      read_loop-eq 8 0 0 w refl (omega arith)
      ∙ ap (λ (n : ℕ). (n, (read_each cb 8 w).1)) (omega arith)

  -- When the eight slots of `read` give the bits that `write` sends for a byte, lowest first, `read`
  -- answers that byte, and leaves the wire as the eighth slot does.
  pub read-of_bits :
      (v : ℕ) (w w' : W) → v < 256 → read_each cb 8 w ≡ (bits_of 8 v, w') → read cb w ≡ (v, w')
  read-of_bits v w w' h e = read-eq w ∙ rw (e, number_of-bits_of 8 v h) refl

  pub length-read_bytes : (count : ℕ) (w : W) → length (read_bytes cb count w).0 ≡ count
  unfolding read_bytes
  length-read_bytes zero w = refl
  length-read_bytes (suc count) w = ap suc (length-read_bytes count (read cb w).1)
