-- ===== src/Onewire/Crc16/Laws.antt =====
-- The byte step of `crc16` against the bit-by-bit CRC with the reflected polynomial 0xA001.
use native.Mathlib.Nat.{pow-suc}
use esp_ac_dimmer.Prelude.{
  ℕ, zero, suc, ◌+◌, ◌*◌, ◌/◌, ◌%◌, ◌^◌, ◌<◌, ◌≡◌, ◌↔◌, refl, sym, ap, ◌∙◌, ◌-◌, arith, ◌==◌,
  ==_iff, if◌then◌else◌, bit_and, bit_xor, List, [], ◌∷◌, ◌++◌, some, true, length, All, all_below,
  all_below_sound,
}
use esp_ac_dimmer.Prelude.Bits.{
  zero-bit_xor, bit_xor-div_256, bit_and_byte, bit_xor_assoc, bit_xor_comm, bit_xor-half,
  bit_xor-mod_two, bit_xor-zero, bit_xor-lt, bit_xor_fields,
}
use esp_ac_dimmer.Onewire.Crc16.{parity_at, crc16_byte, crc16_loop, crc16, check_crc16}

-- The specification: one shift for each bit, with 0xA001 fed back where a one falls out.
pub shift_out : ℕ → ℕ
shift_out c = if c % 2 == 0 then c / 2 else bit_xor (c / 2) 0xA001

pub shifts : ℕ → ℕ → ℕ
unfolding shift_out
shifts zero c = c
shifts (suc n) c = shifts n (shift_out c)

pub crc16_bitwise : ℕ → List ℕ → ℕ
unfolding shifts
crc16_bitwise c [] = c
crc16_bitwise c (b ∷ bs) = crc16_bitwise (shifts 8 (bit_xor c b)) bs

-- What a byte step adds to the register's upper half.
tail_of : ℕ → ℕ
unfolding crc16_byte
tail_of x = crc16_byte 0 x

tail_check : all_below 256 (λ x. tail_of x == shifts 8 x) ≡ true
unfolding all_below tail_of shifts
tail_check = refl

-- Bits that the shift does not reach pass through it.
shift_out-xor : (a c : ℕ) → shift_out (bit_xor a (c * 2)) ≡ bit_xor (shift_out a) c
unfolding shift_out
shift_out-xor a c =
    let parity : bit_xor a (c * 2) % 2 ≡ a % 2 = omega (arith, bit_xor-mod_two a (c * 2)) in
    let half : bit_xor a (c * 2) / 2 ≡ bit_xor (a / 2) c =
      bit_xor-half a (c * 2) ∙ ap (bit_xor (a / 2)) (omega arith) in
    rw (parity, half)
      (ground (
        arith,
        bit_xor_assoc (a / 2) c 0xA001,
        bit_xor_comm c 0xA001,
        bit_xor_assoc (a / 2) 0xA001 c,
      ))

shifts-xor : (n a c : ℕ) → shifts n (bit_xor a (c * 2 ^ n)) ≡ bit_xor (shifts n a) c
unfolding shifts
shifts-xor zero a c = ap (bit_xor a) (omega arith)
shifts-xor (suc n) a c =
    let twice : c * 2 ^ suc n ≡ c * 2 ^ n * 2 = rw (pow-suc 2 n) (omega arith) in
    rw twice (ap (shifts n) (shift_out-xor a (c * 2 ^ n)) ∙ shifts-xor n (shift_out a) c)

-- The byte step after its first two lines, over any odd-parity bit.
abbrev spread : ℕ → ℕ → ℕ → ℕ
spread odd h x =
    bit_xor (bit_xor (if odd == 0 then h else bit_xor h 0xC001) (x * 2 ^ 6 % 2 ^ 16))
      (x * 2 ^ 6 % 2 ^ 16 * 2 % 2 ^ 16)

spread-xor : (odd h x : ℕ) → spread odd h x ≡ bit_xor h (spread odd 0 x)
spread-xor odd h x =
    let u = x * 2 ^ 6 % 2 ^ 16 in
    let v = u * 2 % 2 ^ 16 in
    ground (
      arith,
      bit_xor_assoc h u v,
      zero-bit_xor u,
      zero-bit_xor 0xC001,
      bit_xor_assoc (bit_xor h 0xC001) u v,
      bit_xor_assoc h 0xC001 (bit_xor u v),
      bit_xor_assoc 0xC001 u v,
    )

abbrev odd_of : ℕ → ℕ
odd_of x = bit_xor (parity_at (bit_and x 0x0F)) (parity_at (x / 2 ^ 4))

crc16_byte-eq-spread :
    (crc b : ℕ)
    → crc16_byte crc b ≡ (let x = bit_and (bit_xor b crc) 0xff in spread (odd_of x) (crc / 2 ^ 8) x)
unfolding crc16_byte
crc16_byte-eq-spread crc b = refl

tail_of-eq-spread :
    (y : ℕ) → tail_of y ≡ (let x = bit_and (bit_xor y 0) 0xff in spread (odd_of x) 0 x)
unfolding tail_of
tail_of-eq-spread y = crc16_byte-eq-spread 0 y

crc16_byte-eq-xor :
    (crc b : ℕ) → crc16_byte crc b ≡ bit_xor (crc / 256) (tail_of (bit_xor crc b % 256))
crc16_byte-eq-xor crc b =
    let y = bit_xor crc b % 256 in
    let here : bit_and (bit_xor b crc) 0xff ≡ y =
      bit_and_byte (bit_xor b crc) ∙ ap (λ (t : ℕ). t % 256) (bit_xor_comm b crc) in
    let there : bit_and (bit_xor y 0) 0xff ≡ y =
      bit_and_byte (bit_xor y 0) ∙ (ap (λ (t : ℕ). t % 256) (bit_xor-zero y) ∙ omega arith) in
    let tail : tail_of y ≡ spread (odd_of y) 0 y =
      tail_of-eq-spread y ∙ ap (λ (x : ℕ). spread (odd_of x) 0 x) there in
    crc16_byte-eq-spread crc b
    ∙ (ap (λ (x : ℕ). spread (odd_of x) (crc / 256) x) here
        ∙ (spread-xor (odd_of y) (crc / 256) y ∙ ap (bit_xor (crc / 256)) (sym tail)))

crc16_byte-eq-shifts : (crc b : ℕ) → b < 256 → crc16_byte crc b ≡ shifts 8 (bit_xor crc b)
crc16_byte-eq-shifts crc b h =
    let y = bit_xor crc b in
    let low : tail_of (y % 256) ≡ shifts 8 (y % 256) =
      (==_iff _ _).0 (all_below_sound 256 _ (y % 256) tail_check (omega arith)) in
    let upper : y / 256 ≡ crc / 256 =
      bit_xor-div_256 crc b ∙ (ap (bit_xor (crc / 256)) (omega arith) ∙ bit_xor-zero (crc / 256)) in
    let joined : bit_xor (y % 256) (y / 256 * 2 ^ 8) ≡ y =
      bit_xor_comm (y % 256) (y / 256 * 2 ^ 8)
      ∙ (bit_xor_fields 8 (y / 256) (y % 256) (omega arith) ∙ omega arith) in
    crc16_byte-eq-xor crc b
    ∙ (ap (bit_xor (crc / 256)) low
        ∙ (bit_xor_comm (crc / 256) (shifts 8 (y % 256))
            ∙ (ap (bit_xor (shifts 8 (y % 256))) (sym upper)
                ∙ (sym (shifts-xor 8 (y % 256) (y / 256)) ∙ ap (shifts 8) joined))))

crc16_loop-eq-bitwise :
    (bs rest : List ℕ) (crc : ℕ)
    → All (λ b. b < 256) bs
    → crc16_loop (bs ++ rest) (length bs) crc ≡ some (crc16_bitwise crc bs)
unfolding crc16_loop crc16_bitwise
crc16_loop-eq-bitwise [] rest crc h = refl
crc16_loop-eq-bitwise (b ∷ bs) rest crc h =
    rw (crc16_byte-eq-shifts crc b h.0)
      (crc16_loop-eq-bitwise bs rest (shifts 8 (bit_xor crc b)) h.1)

-- Over a buffer of fewer than 2 ^ 16 bytes, which are as many as `len` can tell, `crc16` is the bit-by-bit CRC
-- with the reflected polynomial 0xA001, from every start value.
pub crc16-eq-bitwise :
    (bs rest : List ℕ) (crc : ℕ)
    → All (λ b. b < 256) bs
    → length bs < 2 ^ 16
    → crc16 (bs ++ rest) (length bs) crc ≡ some (crc16_bitwise crc bs)
unfolding crc16
crc16-eq-bitwise bs rest crc h short =
    let len : length bs % 2 ^ 16 ≡ length bs = omega arith in
    rw len (crc16_loop-eq-bitwise bs rest crc h)

shift_out-lt : (c : ℕ) → c < 2 ^ 16 → shift_out c < 2 ^ 16
unfolding shift_out
shift_out-lt c h = ground (arith, bit_xor-lt 16 (c / 2) 0xA001)

shifts-lt : (n c : ℕ) → c < 2 ^ 16 → shifts n c < 2 ^ 16
unfolding shifts
shifts-lt zero c h = h
shifts-lt (suc n) c h = shifts-lt n (shift_out c) (shift_out-lt c h)

pub crc16_bitwise-lt :
    (c : ℕ) (bs : List ℕ) → c < 2 ^ 16 → All (λ b. b < 256) bs → crc16_bitwise c bs < 2 ^ 16
unfolding crc16_bitwise
crc16_bitwise-lt c [] hc h = hc
crc16_bitwise-lt c (b ∷ bs) hc h =
    crc16_bitwise-lt (shifts 8 (bit_xor c b)) bs
      (shifts-lt 8 (bit_xor c b) (bit_xor-lt 16 c b hc (omega arith))) h.1

-- `check_crc16` accepts the two received bytes exactly when they are, low byte first, the bitwise
-- complement of the bit-by-bit CRC of the message, which has fewer than 2 ^ 16 bytes, from the start
-- value.
pub check_crc16_iff :
    (bs rest : List ℕ) (start lo hi : ℕ)
    → All (λ b. b < 256) bs
    → length bs < 2 ^ 16
    → start < 2 ^ 16
    → lo < 256
    → hi < 256
    → (check_crc16 (bs ++ rest) (length bs) lo hi start ≡ some true)
      ↔ (lo + hi * 256 + crc16_bitwise start bs ≡ 0xFFFF)
unfolding check_crc16
check_crc16_iff bs rest start lo hi h short hs hl hh =
    rw (crc16-eq-bitwise bs rest start h short) (
      ground
        (arith, crc16_bitwise-lt start bs hs h, bit_and_byte (0xFFFF - crc16_bitwise start bs)))
