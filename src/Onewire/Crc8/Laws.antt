-- ===== src/Onewire/Crc8/Laws.antt =====
-- The checksum as a fold over the bytes, and the algebra of its byte step.
use esp_ac_dimmer.Prelude.{
  append-nil, ℕ, zero, suc, ◌+◌, ◌/◌, ◌%◌, ◌^◌, ◌<◌, ◌≡◌, refl, sym, ap, ◌∙◌, arith, ◌==◌,
  if◌then◌else◌, bit_xor, List, [], ◌∷◌, ◌++◌, some, length,
}
use esp_ac_dimmer.Prelude.Bits.{
  bit_and-one, bit_xor_assoc, bit_xor_comm, bit_xor-half, bit_xor-mod_two, bit_xor-zero, bit_xor-lt,
}
use esp_ac_dimmer.Onewire.Crc8.{crc8_round, crc8_byte, crc8_loop, crc8}

abbrev pub IsByte : ℕ → Type 0
IsByte b = b < 256

-- The checksum of all the bytes of a list.
unfoldable pub crc8_of : ℕ → List ℕ → ℕ
crc8_of crc [] = crc
crc8_of crc (b ∷ bs) = crc8_of (crc8_byte 8 crc b) bs

pub crc8_of-append :
    (crc : ℕ) (xs ys : List ℕ) → crc8_of crc (xs ++ ys) ≡ crc8_of (crc8_of crc xs) ys
unfolding crc8_of
crc8_of-append crc [] ys = refl
crc8_of-append crc (x ∷ xs) ys = crc8_of-append (crc8_byte 8 crc x) xs ys

crc8_loop-eq-crc8_of :
    (bs rest : List ℕ) (crc : ℕ) → crc8_loop (length bs) (bs ++ rest) crc ≡ some (crc8_of crc bs)
unfolding crc8_loop crc8_of
crc8_loop-eq-crc8_of [] rest crc = refl
crc8_loop-eq-crc8_of (b ∷ bs) rest crc = crc8_loop-eq-crc8_of bs rest (crc8_byte 8 crc b)

pub crc8-eq-crc8_of :
    (bs rest : List ℕ) → length bs < 2 ^ 8 → crc8 (bs ++ rest) (length bs) ≡ some (crc8_of 0 bs)
unfolding crc8
crc8-eq-crc8_of bs rest h =
    let whole : length bs % 2 ^ 8 ≡ length bs = omega arith in
    rw whole (crc8_loop-eq-crc8_of bs rest 0)

-- Over a whole buffer.
pub crc8-whole : (bs : List ℕ) → length bs < 2 ^ 8 → crc8 bs (length bs) ≡ some (crc8_of 0 bs)
crc8-whole bs h = rw append-nil at (crc8-eq-crc8_of bs [] h)

-- The feedback of one round as a number.
abbrev feedback : ℕ → ℕ
feedback m = if m == 0 then 0 else 0x8C

round-eq-xor : (crc b : ℕ) → crc8_round crc b ≡ bit_xor (crc / 2) (feedback ((crc + b) % 2))
unfolding crc8_round
round-eq-xor crc b =
    rw (bit_and-one (bit_xor crc b), bit_xor-mod_two crc b) (ground (arith, bit_xor-zero (crc / 2)))

-- What is left of the byte can be moved into the register at any time.
round_absorb : (crc b : ℕ) → bit_xor (crc8_round crc b) (b / 2) ≡ crc8_round (bit_xor crc b) 0
round_absorb crc b =
    let parity : (bit_xor crc b + 0) % 2 ≡ (crc + b) % 2 = omega (arith, bit_xor-mod_two crc b) in
    let f = feedback ((crc + b) % 2) in
    rw (round-eq-xor crc b, round-eq-xor (bit_xor crc b) 0, parity, bit_xor-half crc b)
      (cc (
        bit_xor_assoc (crc / 2) f (b / 2),
        bit_xor_comm f (b / 2),
        bit_xor_assoc (crc / 2) (b / 2) f,
      ))

halvings : ℕ → ℕ → ℕ
halvings zero b = b
halvings (suc n) b = halvings n (b / 2)

byte_absorb :
    (n crc b : ℕ) → bit_xor (crc8_byte n crc b) (halvings n b) ≡ crc8_byte n (bit_xor crc b) 0
unfolding crc8_byte halvings
byte_absorb zero crc b = refl
byte_absorb (suc n) crc b =
    byte_absorb n (crc8_round crc b) (b / 2) ∙ ap (λ c. crc8_byte n c 0) (round_absorb crc b)

-- A byte step depends on the register and the byte through their exclusive or alone.
pub crc8_byte-eq-xor : (crc b : ℕ) → IsByte b → crc8_byte 8 crc b ≡ crc8_byte 8 (bit_xor crc b) 0
crc8_byte-eq-xor crc b h =
    let spent : halvings 8 b ≡ 0 = unfold halvings in omega arith in
    sym (bit_xor-zero (crc8_byte 8 crc b))
    ∙ (ap (bit_xor (crc8_byte 8 crc b)) (sym spent) ∙ byte_absorb 8 crc b)

feedback-xor :
    (m n : ℕ) → m < 2 → n < 2 → feedback ((m + n) % 2) ≡ bit_xor (feedback m) (feedback n)
feedback-xor zero zero p q = refl
feedback-xor zero (suc zero) p q = refl
feedback-xor zero (suc (suc n)) p q = absurd (omega arith)
feedback-xor (suc zero) zero p q = refl
feedback-xor (suc zero) (suc zero) p q = refl
feedback-xor (suc zero) (suc (suc n)) p q = absurd (omega arith)
feedback-xor (suc (suc m)) n p q = absurd (omega arith)

pub xor_swap :
    (a b c d : ℕ) → bit_xor (bit_xor a b) (bit_xor c d) ≡ bit_xor (bit_xor a c) (bit_xor b d)
xor_swap a b c d = cc (
  bit_xor_assoc a b (bit_xor c d),
  bit_xor_assoc b c d,
  bit_xor_comm b c,
  bit_xor_assoc c b d,
  bit_xor_assoc a c (bit_xor b d),
)

round_linear :
    (c d a b : ℕ)
    → crc8_round (bit_xor c d) (bit_xor a b) ≡ bit_xor (crc8_round c a) (crc8_round d b)
round_linear c d a b =
    let parity : (bit_xor c d + bit_xor a b) % 2 ≡ ((c + a) % 2 + (d + b) % 2) % 2 =
      omega (arith, bit_xor-mod_two c d, bit_xor-mod_two a b) in
    rw
      (
        round-eq-xor (bit_xor c d) (bit_xor a b),
        round-eq-xor c a,
        round-eq-xor d b,
        parity,
        feedback-xor ((c + a) % 2) ((d + b) % 2) (omega arith) (omega arith),
        bit_xor-half c d,
      )
      (xor_swap (c / 2) (d / 2) (feedback ((c + a) % 2)) (feedback ((d + b) % 2)))

byte_linear :
    (n c d a b : ℕ)
    → crc8_byte n (bit_xor c d) (bit_xor a b) ≡ bit_xor (crc8_byte n c a) (crc8_byte n d b)
unfolding crc8_byte
byte_linear zero c d a b = refl
byte_linear (suc n) c d a b =
    rw (round_linear c d a b, bit_xor-half a b)
      (byte_linear n (crc8_round c a) (crc8_round d b) (a / 2) (b / 2))

-- The bytewise exclusive or of two messages, as long as the shorter one.
abbrev pub xor_bytes : List ℕ → List ℕ → List ℕ
xor_bytes [] bs = []
xor_bytes (a ∷ as') [] = []
xor_bytes (a ∷ as') (b ∷ bs) = bit_xor a b ∷ xor_bytes as' bs

pub crc8_of-xor :
    (c d : ℕ) (xs ys : List ℕ)
    → length xs ≡ length ys
    → crc8_of (bit_xor c d) (xor_bytes xs ys) ≡ bit_xor (crc8_of c xs) (crc8_of d ys)
unfolding crc8_of
crc8_of-xor c d [] [] e = refl
crc8_of-xor c d [] (y ∷ ys) e = absurd (omega arith)
crc8_of-xor c d (x ∷ xs) [] e = absurd (omega arith)
crc8_of-xor c d (x ∷ xs) (y ∷ ys) e =
    ap (λ r. crc8_of r (xor_bytes xs ys)) (byte_linear 8 c d x y)
    ∙ crc8_of-xor (crc8_byte 8 c x) (crc8_byte 8 d y) xs ys (omega arith)

round-lt : (crc b : ℕ) → IsByte crc → IsByte (crc8_round crc b)
round-lt crc b h =
    rw (round-eq-xor crc b)
      (bit_xor-lt 8 (crc / 2) (feedback ((crc + b) % 2)) (omega arith) (ground arith))

pub crc8_byte-lt : (n crc b : ℕ) → IsByte crc → IsByte (crc8_byte n crc b)
unfolding crc8_byte
crc8_byte-lt zero crc b h = h
crc8_byte-lt (suc n) crc b h = crc8_byte-lt n (crc8_round crc b) (b / 2) (round-lt crc b h)

-- The register stays a byte.
pub crc8_of-lt : (crc : ℕ) (bs : List ℕ) → IsByte crc → IsByte (crc8_of crc bs)
unfolding crc8_of
crc8_of-lt crc [] h = h
crc8_of-lt crc (b ∷ bs) h = crc8_of-lt (crc8_byte 8 crc b) bs (crc8_byte-lt 8 crc b h)
