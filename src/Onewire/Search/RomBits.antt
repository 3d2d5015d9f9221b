-- ===== src/Onewire/Search/RomBits.antt =====
-- A ROM number as its 64 bits, in the order in which the search goes through them.
use esp_ac_dimmer.Prelude.{
  ℕ, zero, suc, ◌+◌, ◌-◌, ◌*◌, ◌/◌, ◌%◌, ◌^◌, ◌<◌, ◌≡◌, refl, sym, ap, ◌∙◌, arith, ltb, ◌==◌,
  bit_and, bit_or, Bool, true, false, not, ◌&&◌, List, [], ◌∷◌, ◌++◌, length, get_or, set,
  length-append, All, all_below, all_below_sound,
}
use native.Mathlib.Nat.{pow-suc}

abbrev IsByte : ℕ → Type 0
IsByte b = b < 256

-- The lowest bits of a number, the lowest first.
unfoldable pub path_of : ℕ → ℕ → List Bool
path_of zero v = []
path_of (suc n) v = (v % 2 == 1) ∷ path_of n (v / 2)

unfoldable pub rom_path : List ℕ → List Bool
rom_path [] = []
rom_path (b ∷ rom) = path_of 8 b ++ rom_path rom

abbrev same : Bool → Bool → Bool
same true b = b
same false b = not b

same_sound : (a b : Bool) → same a b ≡ true → a ≡ b
same_sound true b h = sym h
same_sound false true h = cc
same_sound false false h = refl

all_same : List Bool → List Bool → Bool
all_same [] [] = true
all_same [] (b ∷ bs) = false
all_same (a ∷ as') [] = false
all_same (a ∷ as') (b ∷ bs) = same a b && all_same as' bs

all_same_sound : (as' bs : List Bool) → all_same as' bs ≡ true → as' ≡ bs
unfolding all_same
all_same_sound [] [] h = refl
all_same_sound [] (b ∷ bs) h = cc
all_same_sound (a ∷ as') [] h = cc
all_same_sound (a ∷ as') (b ∷ bs) h = ground (arith, same_sound a b, all_same_sound as' bs)

pub length-path_of : (n v : ℕ) → length (path_of n v) ≡ n
unfolding path_of
length-path_of zero v = refl
length-path_of (suc n) v = ap suc (length-path_of n (v / 2))

pub length-rom_path : (rom : List ℕ) → length (rom_path rom) ≡ 8 * length rom
unfolding rom_path
length-rom_path [] = refl
length-rom_path (b ∷ rom) =
    omega
      (arith, length-append (path_of 8 b) (rom_path rom), length-path_of 8 b, length-rom_path rom)

-- The test of a bit, and the ways to write one, agree with the list of bits: checked on all bytes.
abbrev pub written : Bool → ℕ → ℕ → ℕ
written true byte mask = bit_or byte mask
written false byte mask = bit_and byte (255 - mask)

test_check :
    all_below 256
      (λ b. all_below 8 (λ j. same (ltb 0 (bit_and b (2 ^ j))) (get_or (path_of 8 b) j false)))
    ≡ true
unfolding all_below path_of
test_check = refl

write_check :
    (d : Bool)
    → all_below 256
        (λ b. all_below 8 (λ j. all_same (path_of 8 (written d b (2 ^ j))) (set (path_of 8 b) j d)))
      ≡ true
unfolding all_below path_of all_same
write_check true = refl
write_check false = refl

test_byte : (b j : ℕ) → IsByte b → j < 8 → ltb 0 (bit_and b (2 ^ j)) ≡ get_or (path_of 8 b) j false
test_byte b j hb hj = same_sound _ _ (
    all_below_sound 8 (λ j. same (ltb 0 (bit_and b (2 ^ j))) (get_or (path_of 8 b) j false)) j
      (all_below_sound 256
        (λ b. all_below 8 (λ j. same (ltb 0 (bit_and b (2 ^ j))) (get_or (path_of 8 b) j false))) b
        test_check hb)
      hj)

write_byte :
    (d : Bool) (b j : ℕ)
    → IsByte b
    → j < 8
    → path_of 8 (written d b (2 ^ j)) ≡ set (path_of 8 b) j d
write_byte d b j hb hj = all_same_sound _ _ (
    all_below_sound 8 (λ j. all_same (path_of 8 (written d b (2 ^ j))) (set (path_of 8 b) j d)) j
      (all_below_sound 256
        (λ b. all_below 8 (λ j. all_same (path_of 8 (written d b (2 ^ j))) (set (path_of 8 b) j d)))
        b (write_check d) hb)
      hj)

module _ {ℓ} {A : Type ℓ} where
  get_or-append_left :
      (xs ys : List A) (i : ℕ) (a : A) → i < length xs → get_or (xs ++ ys) i a ≡ get_or xs i a
  get_or-append_left [] ys i a h = absurd (omega arith)
  get_or-append_left (x ∷ xs) ys zero a h = refl
  get_or-append_left (x ∷ xs) ys (suc i) a h = get_or-append_left xs ys i a (omega arith)

  pub get_or-append_right :
      (xs ys : List A) (i : ℕ) (a : A) → get_or (xs ++ ys) (length xs + i) a ≡ get_or ys i a
  get_or-append_right [] ys i a = let e : 0 + i ≡ i = omega arith in rw e refl
  get_or-append_right (x ∷ xs) ys i a =
      let e : suc (length xs) + i ≡ suc (length xs + i) = omega arith in
      rw e (get_or-append_right xs ys i a)

  set-append_left :
      (xs ys : List A) (i : ℕ) (a : A) → i < length xs → set (xs ++ ys) i a ≡ set xs i a ++ ys
  set-append_left [] ys i a h = absurd (omega arith)
  set-append_left (x ∷ xs) ys zero a h = refl
  set-append_left (x ∷ xs) ys (suc i) a h = ap (◌∷◌ x) (set-append_left xs ys i a (omega arith))

  append_injective :
      (xs ys us vs : List A) → length xs ≡ length ys → xs ++ us ≡ ys ++ vs → (xs ≡ ys) × (us ≡ vs)
  append_injective [] [] us vs len e = (refl, e)
  append_injective [] (y ∷ ys) us vs len e = absurd (omega arith)
  append_injective (x ∷ xs) [] us vs len e = absurd (omega arith)
  append_injective (x ∷ xs) (y ∷ ys) us vs len e =
      let same_head : x ≡ y = cc in
      let tails : xs ++ us ≡ ys ++ vs = cc in
      let parts = append_injective xs ys us vs (omega arith) tails in
      (let tails_equal : xs ≡ ys = parts.0 in cc, parts.1)

  pub set-append_right :
      (xs ys : List A) (i : ℕ) (a : A) → set (xs ++ ys) (length xs + i) a ≡ xs ++ set ys i a
  set-append_right [] ys i a = let e : 0 + i ≡ i = omega arith in rw e refl
  set-append_right (x ∷ xs) ys i a =
      let e : suc (length xs) + i ≡ suc (length xs + i) = omega arith in
      rw e (ap (◌∷◌ x) (set-append_right xs ys i a))

-- The bit `n` of a ROM number is the bit `n % 8` of its byte `n / 8`.
pub rom_path-test :
    (rom : List ℕ) (k j : ℕ)
    → All IsByte rom
    → k < length rom
    → j < 8
    → ltb 0 (bit_and (get_or rom k 0) (2 ^ j)) ≡ get_or (rom_path rom) (8 * k + j) false
unfolding rom_path
rom_path-test [] k j h hk hj = absurd (omega arith)
rom_path-test (b ∷ rom) zero j h hk hj =
    let len = length-path_of 8 b in
    let e : 8 * 0 + j ≡ j = omega arith in
    rw e (
      test_byte b j h.0 hj
      ∙ sym (get_or-append_left (path_of 8 b) (rom_path rom) j false (omega (arith, len))))
rom_path-test (b ∷ rom) (suc k) j h hk hj =
    let e : 8 * suc k + j ≡ length (path_of 8 b) + (8 * k + j) =
      omega (arith, length-path_of 8 b) in
    rw e (
      rom_path-test rom k j h.1 (omega arith) hj
      ∙ sym (get_or-append_right (path_of 8 b) (rom_path rom) (8 * k + j) false))

pub rom_path-set :
    (rom : List ℕ) (k j : ℕ) (d : Bool)
    → All IsByte rom
    → k < length rom
    → j < 8
    → rom_path (set rom k (written d (get_or rom k 0) (2 ^ j))) ≡ set (rom_path rom) (8 * k + j) d
unfolding rom_path
rom_path-set [] k j d h hk hj = absurd (omega arith)
rom_path-set (b ∷ rom) zero j d h hk hj =
    let e : 8 * 0 + j ≡ j = omega arith in
    rw (e, write_byte d b j h.0 hj)
      (sym (set-append_left (path_of 8 b) (rom_path rom) j d (omega (arith, length-path_of 8 b))))
rom_path-set (b ∷ rom) (suc k) j d h hk hj =
    let e : 8 * suc k + j ≡ length (path_of 8 b) + (8 * k + j) =
      omega (arith, length-path_of 8 b) in
    rw (e, set-append_right (path_of 8 b) (rom_path rom) (8 * k + j) d)
      (ap (◌++◌ (path_of 8 b)) (rom_path-set rom k j d h.1 (omega arith) hj))

path_of-injective : (n a b : ℕ) → a < 2 ^ n → b < 2 ^ n → path_of n a ≡ path_of n b → a ≡ b
unfolding path_of
path_of-injective zero a b ha hb e = omega arith
path_of-injective (suc n) a b ha hb e =
    let lowest : (a % 2 == 1) ≡ (b % 2 == 1) = cc in
    let rest : path_of n (a / 2) ≡ path_of n (b / 2) = cc in
    let halves =
      path_of-injective n (a / 2) (b / 2) (omega (arith, pow-suc 2 n)) (omega (arith, pow-suc 2 n))
        rest in
    ground arith

-- Two ROM numbers with the same bits are the same.
pub rom_path-injective :
    (rom rom' : List ℕ)
    → All IsByte rom
    → All IsByte rom'
    → rom_path rom ≡ rom_path rom'
    → rom ≡ rom'
unfolding rom_path
rom_path-injective [] [] h h' e = refl
rom_path-injective [] (b ∷ rom') h h' e =
    absurd
      (omega (arith, ap length e, length-append (path_of 8 b) (rom_path rom'), length-path_of 8 b))
rom_path-injective (b ∷ rom) [] h h' e =
    absurd
      (omega (arith, ap length e, length-append (path_of 8 b) (rom_path rom), length-path_of 8 b))
rom_path-injective (b ∷ rom) (c ∷ rom') h h' e =
    let parts =
      append_injective (path_of 8 b) (path_of 8 c) (rom_path rom) (rom_path rom')
        (length-path_of 8 b ∙ sym (length-path_of 8 c)) e in
    let first : b ≡ c = path_of-injective 8 b c h.0 h'.0 parts.0 in
    let others : rom ≡ rom' = rom_path-injective rom rom' h.1 h'.1 parts.1 in cc

-- A ROM number whose bits begin with those of a byte begins with the byte.
pub rom_path-family :
    (rom : List ℕ) (family : ℕ) (tail : List Bool)
    → All IsByte rom
    → 0 < length rom
    → IsByte family
    → rom_path rom ≡ path_of 8 family ++ tail
    → get_or rom 0 0 ≡ family
unfolding rom_path
rom_path-family [] family tail bytes some_bytes small e = absurd (omega arith)
rom_path-family (b ∷ rom) family tail bytes some_bytes small e =
    let parts =
      append_injective (path_of 8 b) (path_of 8 family) (rom_path rom) tail
        (length-path_of 8 b ∙ sym (length-path_of 8 family)) e in
    path_of-injective 8 b family bytes.0 small parts.0

pub rom_path-split :
    (rom : List ℕ)
    → 0 < length rom
    → (tail : List Bool) × (rom_path rom ≡ path_of 8 (get_or rom 0 0) ++ tail)
unfolding rom_path
rom_path-split [] some_bytes = absurd (omega arith)
rom_path-split (b ∷ rom) some_bytes = (rom_path rom, refl)
