-- ===== src/Onewire/Crc8/Table.antt =====
-- The version of `crc8` over the table of 32 bytes agrees with the bit-by-bit version.
use esp_ac_dimmer.Prelude.{
  true, ℕ, zero, suc, ◌%◌, ◌^◌, ◌≡◌, refl, sym, ap, ◌∙◌, arith, ◌==◌, ==_iff, bit_xor, List, [],
  ◌∷◌, All, all_below, all_below_sound,
}
use esp_ac_dimmer.Prelude.Bits.{bit_xor_comm, bit_xor-lt, bit_xor-zero}
use esp_ac_dimmer.Onewire.Crc8.{
  crc8_round, crc8_byte, crc8_loop, crc8, table_byte, table_loop, crc8_table,
}
use esp_ac_dimmer.Onewire.Crc8.Laws.{IsByte, crc8_byte-eq-xor, crc8_byte-lt}

table_check : all_below 256 (λ x. table_byte 0 x == crc8_byte 8 x 0) ≡ true
unfolding all_below table_byte crc8_byte crc8_round
table_check = refl

table_byte-eq-crc8_byte : (crc b : ℕ) → IsByte crc → IsByte b → table_byte crc b ≡ crc8_byte 8 crc b
unfolding table_byte
table_byte-eq-crc8_byte crc b hc hb =
    let x = bit_xor b crc in
    let x-IsByte : IsByte x = bit_xor-lt 8 b crc hb hc in
    let at_zero : table_byte crc b ≡ table_byte 0 x = rw (bit_xor-zero x) refl in
    let checked : table_byte 0 x ≡ crc8_byte 8 x 0 =
      (==_iff _ _).0 (all_below_sound 256 _ x table_check x-IsByte) in
    at_zero
    ∙ (checked ∙ (ap (λ y. crc8_byte 8 y 0) (bit_xor_comm b crc) ∙ sym (crc8_byte-eq-xor crc b hb)))

loops_agree :
    (len : ℕ) (bs : List ℕ) (crc : ℕ)
    → All IsByte bs
    → IsByte crc
    → table_loop len bs crc ≡ crc8_loop len bs crc
unfolding table_loop crc8_loop
loops_agree zero bs crc h hc = refl
loops_agree (suc len) [] crc h hc = refl
loops_agree (suc len) (b ∷ bs) crc h hc =
    rw (table_byte-eq-crc8_byte crc b hc h.0)
      (loops_agree len bs (crc8_byte 8 crc b) h.1 (crc8_byte-lt 8 crc b hc))

-- On a buffer of bytes the version over the table and the bit-by-bit version of `crc8` return the
-- same checksum for every length, and both read past the buffer for the same lengths.
pub crc8_table-eq-crc8 :
    (addr : List ℕ) (len : ℕ) → All IsByte addr → crc8_table addr len ≡ crc8 addr len
unfolding crc8_table crc8
crc8_table-eq-crc8 addr len h = loops_agree (len % 2 ^ 8) addr 0 h (omega arith)
