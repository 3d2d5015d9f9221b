-- ===== src/Onewire/Search/Termination.antt =====
-- The loop of `search` ends within 64 rounds, and the variables that it leaves are in range.
use esp_ac_dimmer.Prelude.{
  all_below_sound, ==_iff, all_below, ℕ, zero, suc, ◌+◌, ◌-◌, ◌*◌, ◌/◌, ◌%◌, ◌^◌, ◌≤◌, ◌<◌, ◌≡◌,
  refl, ap, ◌∙◌, inl, inr, arith, ltb, ◌==◌, true, false, ◌&&◌, List, [], ◌∷◌, some, length, get_or,
  set, All, length-set, Bool-cases,
}
use esp_ac_dimmer.Prelude.Bits.{bit_or-lt, bit_and-le}
use esp_ac_dimmer.Onewire.Line.{Callbacks, read_bit, write_bit}
use esp_ac_dimmer.Onewire.Search.{
  SearchLoop, discrepancy_direction, record_zero, store_bit, next_bit, choose, search_loop,
}

abbrev IsByte : ℕ → Type 0
IsByte b = b < 256

All-get : (xs : List ℕ) (i : ℕ) → All IsByte xs → IsByte (get_or xs i 0)
All-get [] i h = omega arith
All-get (x ∷ xs) zero h = h.0
All-get (x ∷ xs) (suc i) h = All-get xs i h.1

All-set : (xs : List ℕ) (i v : ℕ) → IsByte v → All IsByte xs → All IsByte (set xs i v)
All-set [] i v hv h = h
All-set (x ∷ xs) zero v hv h = (hv, h.1)
All-set (x ∷ xs) (suc i) v hv h = (h.0, All-set xs i v hv h.1)

-- The ROM number is eight bytes.
pub record IsRom (rom : List ℕ) : Type 0 where
  pub eight : length rom ≡ 8
  pub bytes : All IsByte rom

-- The loop's variables after `n` bits, when zeros were recorded up to position `z`.
pub record At (n z : ℕ) (l : SearchLoop) : Type 0 where
  pub number : l.id_bit_number ≡ n + 1
  pub byte : l.rom_byte_number ≡ n / 8
  pub mask : l.rom_byte_mask ≡ 2 ^ (n % 8)
  pub rom : IsRom l.rom_no
  pub zeros : l.last_zero ≤ z
  pub family : l.last_family_discrepancy ≤ 8

mask_table : all_below 7 (λ j. 2 ^ j * 2 % 256 == 2 ^ (j + 1)) ≡ true
unfolding all_below
mask_table = refl

range_table : all_below 8 (λ j. ltb (2 ^ j) (2 ^ 8) && ltb 0 (2 ^ j)) ≡ true
unfolding all_below
range_table = refl

shift_mask : (j : ℕ) → j < 7 → 2 ^ j * 2 % 256 ≡ 2 ^ (j + 1)
shift_mask j h = (==_iff _ _).0 (all_below_sound 7 _ j mask_table h)

mask-lt : (j : ℕ) → j < 8 → (2 ^ j < 2 ^ 8) × (0 < 2 ^ j)
mask-lt j h = let t = all_below_sound 8 _ j range_table h in ground arith

pub next_bit-At :
    (n : ℕ) (l : SearchLoop) → n < 64 → At n (n + 1) l → At (n + 1) (n + 1) (next_bit l)
unfolding next_bit
next_bit-At n l h a = elim (Bool-cases (n % 8 == 7)) [
  | inl last ↦
      let e : n % 8 ≡ 7 = (==_iff _ _).0 last in
      let m : l.rom_byte_mask ≡ 128 = a.mask ∙ ap (λ (j : ℕ). 2 ^ j) e in
      let zero' : l.rom_byte_mask * 2 % 256 ≡ 0 = omega (arith, m) in
      let next : (n + 1) % 8 ≡ 0 = omega arith in
      rw zero' (record {
        number = omega (arith, a.number);
        byte = omega (arith, a.byte);
        mask = rw next refl;
        rom = a.rom;
        zeros = a.zeros;
        family = a.family;
      })
  | inr more ↦
      let j : n % 8 < 7 = ground arith in
      let m : l.rom_byte_mask * 2 % 256 ≡ 2 ^ (n % 8 + 1) = rw a.mask (shift_mask (n % 8) j) in
      let next : (n + 1) % 8 ≡ n % 8 + 1 = omega arith in
      let some_bit : (2 ^ (n % 8 + 1) == 0) ≡ false =
        let pos = mask-lt (n % 8 + 1) (omega arith) in ground arith in
      rw (m, some_bit)
        (record {
          number = omega (arith, a.number);
          byte = omega (arith, a.byte);
          mask = rw next refl;
          rom = a.rom;
          zeros = a.zeros;
          family = a.family;
        })
]

pub store_bit-At : (n z d : ℕ) (l : SearchLoop) → At n z l → At n z (store_bit d l)
unfolding store_bit
store_bit-At n z d l a =
    let byte = get_or l.rom_no l.rom_byte_number 0 in
    let b = All-get l.rom_no l.rom_byte_number a.rom.bytes in
    let m : l.rom_byte_mask < 2 ^ 8 = rw a.mask ((mask-lt (n % 8) (omega arith)).0) in
    record {
      number = a.number;
      byte = a.byte;
      mask = a.mask;
      rom = record {
        eight = length-set l.rom_no l.rom_byte_number _ ∙ a.rom.eight;
        bytes =
            All-set l.rom_no l.rom_byte_number _
              (ground (
                arith,
                bit_or-lt 8 byte l.rom_byte_mask b m,
                bit_and-le byte (255 - l.rom_byte_mask),
              ))
              a.rom.bytes;
      };
      zeros = a.zeros;
      family = a.family;
    }

At-later : (n : ℕ) (l : SearchLoop) → At n n l → At n (n + 1) l
At-later n l a = record {
  number = a.number;
  byte = a.byte;
  mask = a.mask;
  rom = a.rom;
  zeros = omega (arith, a.zeros);
  family = a.family;
}

record_zero-At : (n : ℕ) (l : SearchLoop) → At n n l → At n (n + 1) (record_zero l)
unfolding record_zero
record_zero-At n l a = record {
  number = a.number;
  byte = a.byte;
  mask = a.mask;
  rom = a.rom;
  zeros = omega (arith, a.number);
  family = ground (arith, a.family);
}

pub choose-At : (n last a b : ℕ) (l : SearchLoop) → At n n l → At n (n + 1) (choose last a b l).1
unfolding choose
choose-At n last a b l h = elim (Bool-cases (a == b)) [
  | inr differ ↦ rw differ (At-later n l h)
  | inl same ↦ elim (Bool-cases (discrepancy_direction last l == 0)) [
    | inl zeroed ↦ rw (same, zeroed) (record_zero-At n l h)
    | inr one ↦ rw (same, one) (At-later n l h)
  ]
]

-- The loop ends, with the variables after some number of bits of at most 64; all 64 bits were gone
-- through if `id_bit_number` says so.
pub record LoopEnd (l : SearchLoop) : Type 0 where
  pub bits : ℕ
  pub at : At bits bits l
  pub at_most : bits ≤ 64

module _ {W : Type 0} (cb : Callbacks W) where
  pub search_loop-total :
      (fuel last n : ℕ) (l : SearchLoop) (w : W)
      → fuel + n ≡ 64
      → n < 64
      → At n n l
      → (l' : SearchLoop) × (w' : W) × (search_loop cb fuel last l w ≡ some (l', w')) × LoopEnd l'
  unfolding search_loop
  search_loop-total zero last n l w e h a = absurd (omega arith)
  search_loop-total (suc fuel) last n l w e h a = elim (Bool-cases ((r₁.0 == 1) && (r₂.0 == 1))) [
    | inl stop ↦ (l, r₂.1, rw stop refl, record { bits = n; at = a; at_most = omega arith })
    | inr go ↦ elim (Bool-cases (ltb l₂.rom_byte_number 8)) [
      | inr done ↦
          (l₂, w₃, rw (go, done) refl, record { bits = n + 1; at = a₂; at_most = omega arith })
      | inl more ↦
          let below : n + 1 < 64 = ground (arith, a₂.byte) in
          let (l', w', runs, ends) =
            search_loop-total fuel last (n + 1) l₂ w₃ (omega arith) below a₂ in
          (l', w', rw (go, more) runs, ends)
    ]
  ]
    where
      r₁ : ℕ × W
      r₁ = read_bit cb w

      r₂ : ℕ × W
      r₂ = read_bit cb r₁.1

      c : ℕ × SearchLoop
      c = choose last r₁.0 r₂.0 l

      l₂ : SearchLoop
      l₂ = next_bit (store_bit c.0 c.1)

      w₃ : W
      w₃ = write_bit cb c.0 r₂.1

      a₂ : At (n + 1) (n + 1) l₂
      a₂ =
          next_bit-At n (store_bit c.0 c.1) h
            (store_bit-At n (n + 1) c.0 c.1 (choose-At n last r₁.0 r₂.0 l a))
