-- ===== src/Onewire/Crc8/Errors.antt =====
-- What the checksum detects, and how a message with its own checksum is recognised.
use esp_ac_dimmer.Prelude.{
  ◌≢◌, eq_of_some, length-append, true, ℕ, zero, suc, ◌+◌, ◌*◌, ◌/◌, ◌≡◌, ◌↔◌, refl, sym, ap, ◌∙◌,
  arith, ◌<◌, ◌^◌, ◌==◌, ==_iff, if◌then◌else◌, bit_xor, List, [], ◌∷◌, ◌++◌, some, length, All,
  all_below, all_below_sound,
}
use esp_ac_dimmer.Prelude.Bits.{bit_xor_comm, bit_xor-lt, bit_xor_cancel, bit_xor_self}
use esp_ac_dimmer.Onewire.Crc8.{crc8_round, crc8_byte, crc8}
use esp_ac_dimmer.Onewire.Crc8.Laws.{
  crc8-whole, IsByte, crc8_byte-eq-xor, crc8_byte-lt, crc8_of-lt, crc8_of, crc8_of-append,
}

-- One round backwards: the feedback always sets the highest bit, and only it does.
unround : ℕ → ℕ
unround crc = if crc / 128 == 0 then crc * 2 else bit_xor crc 0x8C * 2 + 1

unrounds : ℕ → ℕ → ℕ
unrounds zero crc = crc
unrounds (suc n) crc = unrounds n (unround crc)

rounds_check : all_below 256 (λ x. unrounds 8 (crc8_byte 8 x 0) == x) ≡ true
unfolding all_below crc8_byte crc8_round unrounds unround
rounds_check = refl

rounds_undo : (x : ℕ) → IsByte x → unrounds 8 (crc8_byte 8 x 0) ≡ x
rounds_undo x h = (==_iff _ x).0 (all_below_sound 256 _ x rounds_check h)

rounds_injective : (x y : ℕ) → IsByte x → IsByte y → crc8_byte 8 x 0 ≡ crc8_byte 8 y 0 → x ≡ y
rounds_injective x y hx hy e = cc (rounds_undo x hx, rounds_undo y hy)

crc8_byte-injective :
    (c d b : ℕ) → IsByte c → IsByte d → IsByte b → crc8_byte 8 c b ≡ crc8_byte 8 d b → c ≡ d
crc8_byte-injective c d b hc hd hb e =
    let same =
      rounds_injective (bit_xor c b) (bit_xor d b) (bit_xor-lt 8 c b hc hb) (bit_xor-lt 8 d b hd hb)
        (sym (crc8_byte-eq-xor c b hb) ∙ (e ∙ crc8_byte-eq-xor d b hb)) in
    bit_xor_cancel b c d (bit_xor_comm b c ∙ (same ∙ bit_xor_comm d b))

crc8_byte-injective_byte :
    (c a b : ℕ) → IsByte c → IsByte a → IsByte b → crc8_byte 8 c a ≡ crc8_byte 8 c b → a ≡ b
crc8_byte-injective_byte c a b hc ha hb e = bit_xor_cancel c a b (
    rounds_injective (bit_xor c a) (bit_xor c b) (bit_xor-lt 8 c a hc ha) (bit_xor-lt 8 c b hc hb)
      (sym (crc8_byte-eq-xor c a ha) ∙ (e ∙ crc8_byte-eq-xor c b hb)))

crc8_of-injective :
    (c d : ℕ) (bs : List ℕ)
    → IsByte c
    → IsByte d
    → All IsByte bs
    → crc8_of c bs ≡ crc8_of d bs
    → c ≡ d
unfolding crc8_of
crc8_of-injective c d [] hc hd h e = e
crc8_of-injective c d (b ∷ bs) hc hd h e = crc8_byte-injective c d b hc hd h.0 (
    crc8_of-injective (crc8_byte 8 c b) (crc8_byte 8 d b) bs (crc8_byte-lt 8 c b hc)
      (crc8_byte-lt 8 d b hd) h.1 e)

self : (c : ℕ) → IsByte c → crc8_byte 8 c c ≡ 0
unfolding crc8_byte crc8_round
self c hc = crc8_byte-eq-xor c c hc ∙ ap (λ x. crc8_byte 8 x 0) (bit_xor_self c)

same_byte :
    (xs ys : List ℕ) (a b : ℕ)
    → All IsByte xs
    → All IsByte ys
    → IsByte a
    → IsByte b
    → length xs + suc (length ys) < 2 ^ 8
    → crc8 (xs ++ (a ∷ ys)) (length (xs ++ (a ∷ ys)))
      ≡ crc8 (xs ++ (b ∷ ys)) (length (xs ++ (b ∷ ys)))
    → a ≡ b
same_byte xs ys a b hx hy ha hb short e = crc8_byte-injective_byte r a b r-IsByte ha hb (
    crc8_of-injective (crc8_byte 8 r a) (crc8_byte 8 r b) ys (crc8_byte-lt 8 r a r-IsByte)
      (crc8_byte-lt 8 r b r-IsByte) hy tails)
  where
    r : ℕ
    r = crc8_of 0 xs

    r-IsByte : IsByte r
    r-IsByte = crc8_of-lt 0 xs (omega arith)

    whole : crc8_of 0 (xs ++ (a ∷ ys)) ≡ crc8_of 0 (xs ++ (b ∷ ys))
    whole = eq_of_some (
        sym (crc8-whole (xs ++ (a ∷ ys)) (omega (arith, length-append xs (a ∷ ys), short)))
        ∙ (e ∙ crc8-whole (xs ++ (b ∷ ys)) (omega (arith, length-append xs (b ∷ ys), short))))

    tails : crc8_of (crc8_byte 8 r a) ys ≡ crc8_of (crc8_byte 8 r b) ys
    tails =
        unfold crc8_of in
        sym (crc8_of-append 0 xs (a ∷ ys)) ∙ (whole ∙ crc8_of-append 0 xs (b ∷ ys))

-- Two messages of fewer than 256 bytes, which are as many as `len` can tell, that differ in one byte only,
-- wherever it stands, have different checksums.
pub crc8_detects_byte :
    (xs ys : List ℕ) (a b : ℕ)
    → All IsByte xs
    → All IsByte ys
    → IsByte a
    → IsByte b
    → length xs + suc (length ys) < 2 ^ 8
    → a ≢ b
    → crc8 (xs ++ (a ∷ ys)) (length (xs ++ (a ∷ ys)))
      ≢ crc8 (xs ++ (b ∷ ys)) (length (xs ++ (b ∷ ys)))
crc8_detects_byte xs ys a b hx hy ha hb short ne e = ne (same_byte xs ys a b hx hy ha hb short e)

-- The message `bs` of fewer than 255 bytes followed by the byte `c` has checksum 0 exactly when `c` is
-- the checksum of `bs`.
pub crc8_residue :
    (bs : List ℕ) (c : ℕ)
    → All IsByte bs
    → IsByte c
    → length bs + 1 < 2 ^ 8
    → (crc8 (bs ++ (c ∷ [])) (length bs + 1) ≡ some 0) ↔ (crc8 bs (length bs) ≡ some c)
crc8_residue bs c h hc short =
    rw (snoc, crc8-whole bs (omega arith))
      (
        (λ e. ap some (crc8_byte-injective r c c r-IsByte hc hc (eq_of_some e ∙ sym (self c hc)))),
        (λ e. ap some (rw (eq_of_some e) (self c hc))),
      )
  where
    r : ℕ
    r = crc8_of 0 bs

    r-IsByte : IsByte r
    r-IsByte = crc8_of-lt 0 bs (omega arith)

    snoc : crc8 (bs ++ (c ∷ [])) (length bs + 1) ≡ some (crc8_byte 8 r c)
    snoc =
        let e : length (bs ++ (c ∷ [])) ≡ length bs + 1 = length-append bs (c ∷ []) in
        rw (← e) (
          crc8-whole (bs ++ (c ∷ [])) (omega (arith, e, short))
          ∙ ap some (unfold crc8_of in crc8_of-append 0 bs (c ∷ [])))
