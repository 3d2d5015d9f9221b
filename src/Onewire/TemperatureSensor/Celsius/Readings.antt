-- ===== src/Onewire/TemperatureSensor/Celsius/Readings.antt =====
-- The temperatures that the sensors' nine bytes stand for, after their data sheets.
use esp_ac_dimmer.Prelude.{
  ℕ, zero, suc, ◌+◌, ◌-◌, ◌*◌, ◌/◌, ◌%◌, ◌^◌, ◌<◌, ◌≤◌, ◌≡◌, inl, inr, refl, ◌∙◌, arith, ltb,
  lt→ltb, ◌==◌, ==_iff, if◌then◌else◌, false, List, get_or, Bool-cases,
}
use esp_ac_dimmer.Prelude.Int.{ℤ, pos, negsuc}
use esp_ac_dimmer.Prelude.Masks.{
  bit_and_three, bit_and_two, bit_and_bit, bit_and_nibble, bit_and_config, bit_or_fields,
}
use esp_ac_dimmer.Onewire.TemperatureSensor.{ds18s20, ds18b20}
use esp_ac_dimmer.Onewire.TemperatureSensor.Celsius.{
  int16, raw_data, raw_ds18b20, raw_ds18s20, get_celsius,
}

-- The bytes of the scratchpad that a temperature is made of.
pub record HasBytes (m_data : List ℕ) : Type 0 where
  pub low : get_or m_data 0 0 < 256
  pub high : get_or m_data 1 0 < 256
  pub remain : get_or m_data 6 0 < 256

-- The register's 16 bits.
abbrev pub register : List ℕ → ℕ
register m_data = get_or m_data 1 0 * 256 + get_or m_data 0 0

-- The 16 bits of a number.
abbrev pub pattern_of : ℤ → ℕ
pattern_of (pos n) = n
pattern_of (negsuc n) = 2 ^ 16 - 1 - n

-- At most `most` above 0, and at most `least` below.
abbrev pub Within : ℕ → ℕ → ℤ → Type 0
Within least most (pos n) = n ≤ most
Within least most (negsuc n) = n < least

-- The greatest multiple of `unit` that is not above a number.
abbrev pub floor_to : ℕ → ℤ → ℤ
floor_to unit (pos n) = pos (n / unit * unit)
floor_to unit (negsuc n) = negsuc ((n / unit + 1) * unit - 1)

abbrev pub minus : ℕ → ℕ → ℤ
minus a b = if ltb a b then negsuc (b - a - 1) else pos (a - b)

-- Half degrees as sixteenths of a degree.
abbrev pub eightfold : ℤ → ℤ
eightfold (pos n) = pos (8 * n)
eightfold (negsuc n) = negsuc (8 * n + 7)

-- Whole degrees less a quarter, and the part of a degree that was counted of 16 steps.
abbrev pub counted : ℤ → ℕ → ℤ
counted (pos n) remain = minus (16 * (n / 2) + 12) remain
counted (negsuc n) remain = minus 12 (16 * (n / 2 + 1) + remain)

abbrev pub config : List ℕ → ℕ
config m_data = get_or m_data 4 0 / 32 % 4

int16-pattern_of :
    (t : ℤ) → Within (2 ^ 15) (2 ^ 15 - 1) t → (r : ℕ) → r ≡ pattern_of t → int16 r ≡ t
unfolding int16
int16-pattern_of (pos n) h r e = let small = lt→ltb r (2 ^ 15) (omega arith) in rw (small, e) refl
int16-pattern_of (negsuc n) h r e =
    let big : ltb r (2 ^ 15) ≡ false = ground arith in
    let back : 2 ^ 16 - 1 - r ≡ n = omega arith in rw (big, back) refl

raw_data-register : (m_data : List ℕ) → HasBytes m_data → raw_data m_data ≡ register m_data
unfolding raw_data
raw_data-register m_data h =
    omega (arith, h.low, h.high, bit_or_fields 8 (get_or m_data 1 0) (get_or m_data 0 0) h.low)

-- `raw_ds18b20` of a register and a configuration.
masked : ℕ → ℕ → ℕ
masked r c =
    if 32 * c == 0
    then r - r % 2 ^ 3
    else if 32 * c == 0x20
    then r - r % 2 ^ 2
    else if 32 * c == 0x40
    then r - r % 2 ^ 1
    else r

raw_ds18b20-masked :
    (m_data : List ℕ)
    → HasBytes m_data
    → raw_ds18b20 m_data ≡ masked (register m_data) (config m_data)
unfolding raw_ds18b20 masked
raw_ds18b20-masked m_data h =
    let small : register m_data < 2 ^ 16 = omega (arith, h.low, h.high) in
    rw
      (
        raw_data-register m_data h,
        bit_and_config (get_or m_data 4 0),
        bit_and_three (register m_data) small,
        bit_and_two (register m_data) small,
        bit_and_bit (register m_data) small,
      )
      refl

masked-floor_to :
    (c r : ℕ) (t : ℤ)
    → c < 4
    → Within (2 ^ 15) (2 ^ 15 - 1) t
    → r ≡ pattern_of t
    → (masked r c ≡ pattern_of (floor_to (2 ^ (3 - c)) t))
      × Within (2 ^ 15) (2 ^ 15 - 1) (floor_to (2 ^ (3 - c)) t)
unfolding masked
masked-floor_to zero r (pos n) lt h e = (omega arith, omega arith)
masked-floor_to zero r (negsuc n) lt h e = (omega arith, omega arith)
masked-floor_to (suc zero) r (pos n) lt h e = (omega arith, omega arith)
masked-floor_to (suc zero) r (negsuc n) lt h e = (omega arith, omega arith)
masked-floor_to (suc (suc zero)) r (pos n) lt h e = (omega arith, omega arith)
masked-floor_to (suc (suc zero)) r (negsuc n) lt h e = (omega arith, omega arith)
masked-floor_to (suc (suc (suc zero))) r (pos n) lt h e = (omega arith, omega arith)
masked-floor_to (suc (suc (suc zero))) r (negsuc n) lt h e = (omega arith, omega arith)
masked-floor_to (suc (suc (suc (suc c)))) r t lt h e = absurd (omega arith)

-- A DS18B20's temperature is that of its register, rounded down to what its resolution defines: a
-- multiple of 8 sixteenths at 9 bits, every sixteenth at 12.
pub get_celsius-ds18b20 :
    (m_data : List ℕ) (t : ℤ)
    → HasBytes m_data
    → Within (2 ^ 15) (2 ^ 15 - 1) t
    → register m_data ≡ pattern_of t
    → get_celsius ds18b20 m_data ≡ floor_to (2 ^ (3 - config m_data)) t
unfolding get_celsius
get_celsius-ds18b20 m_data t h within e =
    let floored = masked-floor_to (config m_data) (register m_data) t (omega arith) within e in
    int16-pattern_of (floor_to (2 ^ (3 - config m_data)) t) floored.1 (raw_ds18b20 m_data)
      (raw_ds18b20-masked m_data h ∙ floored.0)

eightfold-pattern_of :
    (r : ℕ) (t : ℤ)
    → Within 110 250 t
    → r ≡ pattern_of t
    → (r * 2 ^ 3 % 2 ^ 16 ≡ pattern_of (eightfold t)) × Within (2 ^ 15) (2 ^ 15 - 1) (eightfold t)
eightfold-pattern_of r (pos n) h e = (omega arith, omega arith)
eightfold-pattern_of r (negsuc n) h e = (omega arith, omega arith)

minus-pattern_of :
    (a b : ℕ)
    → a < 2 ^ 12
    → b < 2 ^ 12
    → ((a + 2 ^ 16 - b) % 2 ^ 16 ≡ pattern_of (minus a b))
      × Within (2 ^ 15) (2 ^ 15 - 1) (minus a b)
minus-pattern_of a b ha hb = elim (Bool-cases (ltb a b)) [
  | inl below ↦ let less : a < b = ground arith in rw below (omega arith, omega arith)
  | inr above ↦ let more : b ≤ a = ground arith in rw above (omega arith, omega arith)
]

counted-pattern_of :
    (r remain : ℕ) (t : ℤ)
    → remain < 256
    → Within 110 250 t
    → r ≡ pattern_of t
    → ((16 * (r / 2) + 12 + 2 ^ 16 - remain) % 2 ^ 16 ≡ pattern_of (counted t remain))
      × Within (2 ^ 15) (2 ^ 15 - 1) (counted t remain)
counted-pattern_of r remain (pos n) b h e =
    let there = minus-pattern_of (16 * (n / 2) + 12) remain (omega arith) (omega arith) in
    (rw e there.0, there.1)
counted-pattern_of r remain (negsuc n) b h e =
    let there = minus-pattern_of 12 (16 * (n / 2 + 1) + remain) (omega arith) (omega arith) in
    let same : (16 * (r / 2) + 12 + 2 ^ 16 - remain) % 2 ^ 16
        ≡ (12 + 2 ^ 16 - (16 * (n / 2 + 1) + remain)) % 2 ^ 16 =
      omega arith in
    (same ∙ there.0, there.1)

get_celsius-int16 : (m_data : List ℕ) → get_celsius ds18s20 m_data ≡ int16 (raw_ds18s20 m_data)
unfolding get_celsius
get_celsius-int16 m_data = refl

module _ (m_data : List ℕ) (t : ℤ) (h : HasBytes m_data) (within : Within 110 250 t)
    (e : register m_data ≡ pattern_of t) where
  raw_ds18s20-shifted :
      (get_or m_data 7 0 == 0x10) ≡ false → raw_ds18s20 m_data ≡ register m_data * 2 ^ 3 % 2 ^ 16
  unfolding raw_ds18s20
  raw_ds18s20-shifted other = rw (other, raw_data-register m_data h) refl

  raw_ds18s20-counted :
      get_or m_data 7 0 ≡ 0x10
      → raw_ds18s20 m_data ≡ (16 * (register m_data / 2) + 12 + 2 ^ 16 - get_or m_data 6 0) % 2 ^ 16
  unfolding raw_ds18s20
  raw_ds18s20-counted count =
      rw
        (
          count,
          raw_data-register m_data h,
          bit_and_nibble (register m_data * 2 ^ 3 % 2 ^ 16) (omega arith),
        )
        (omega (arith, h.remain))

  -- A DS18S20's temperature between -55 and 125 degrees: the register is in half degrees; with a count per
  -- degree of 16 it is the register's whole degrees less a quarter, and the sixteenths that were
  -- counted of the next degree.
  pub get_celsius-ds18s20 :
      get_celsius ds18s20 m_data
      ≡ (if get_or m_data 7 0 == 0x10 then counted t (get_or m_data 6 0) else eightfold t)
  get_celsius-ds18s20 = get_celsius-int16 m_data ∙ elim (Bool-cases (get_or m_data 7 0 == 0x10)) [
    | inl count ↦
        let read = counted-pattern_of (register m_data) (get_or m_data 6 0) t h.remain within e in
        rw count (
          int16-pattern_of (counted t (get_or m_data 6 0)) read.1 (raw_ds18s20 m_data)
            (raw_ds18s20-counted ((==_iff (get_or m_data 7 0) 0x10).0 count) ∙ read.0))
    | inr other ↦
        let read = eightfold-pattern_of (register m_data) t within e in
        rw other (
          int16-pattern_of (eightfold t) read.1 (raw_ds18s20 m_data)
            (raw_ds18s20-shifted other ∙ read.0))
  ]
