-- ===== src/Onewire/Line.antt =====
-- Bits and bytes on the wire: the methods of `OneWire` in src/components/onewire/src/onewire.cpp that
-- only use the callbacks, over the state `W` of what the callbacks act on.
pub mod Bytes
pub mod Observer
pub mod Kept
pub mod Idle
pub mod Reset
mod Examples
use esp_ac_dimmer.Prelude.{
  ℕ, zero, suc, ◌+◌, ◌*◌, ◌/◌, ◌%◌, ◌^◌, ◌==◌, if◌then◌else◌, bit_and, bit_or, Bool, true, false,
  List, [], ◌∷◌, Option, none, some,
}

pub data PinMode : Type 0 where
  input output : PinMode

pub data IntMode : Type 0 where
  intr_on intr_off : IntMode

-- The five callbacks of a `OneWire`.
pub record Callbacks (W : Type 0) : Type 0 where
  pub set_pin_mode : PinMode → W → W
  pub read_pin_value : W → Bool × W
  pub set_pin_value : Bool → W → W
  pub delay : ℕ → W → W
  pub set_intr_mode : IntMode → W → W

-- `ResetPulseUs`, `ResetTimeUs` and `ResetStepUs`.
abbrev pub reset_pulse_us : ℕ
reset_pulse_us = 500

abbrev pub reset_time_us : ℕ
reset_time_us = 700

abbrev pub reset_step_us : ℕ
reset_step_us = 10

module _ {W : Type 0} (cb : Callbacks W) where
  open cb use {set_pin_mode, read_pin_value, set_pin_value, delay, set_intr_mode}

  abbrev pub no_interrupts : W → W
  no_interrupts w = set_intr_mode intr_off w

  abbrev pub interrupts : W → W
  interrupts w = set_intr_mode intr_on w

  -- `noInterrupts(); m_setPinValueClbk(false); m_setPinModeClbk(OUTPUT)`.
  abbrev pub pull_low : W → W
  pull_low w = set_pin_mode output (set_pin_value false (no_interrupts w))

  unfoldable pub write_bit : ℕ → W → W
  write_bit v w =
      if bit_and v 1 == 0
      then delay 5 (interrupts (set_pin_value true (delay 65 (pull_low w))))
      else delay 55 (interrupts (set_pin_value true (delay 10 (pull_low w))))

  -- The pin's value as a `uint8_t`.
  unfoldable pub read_bit : W → ℕ × W
  read_bit w =
      let w₁ = set_pin_value false (set_pin_mode output (no_interrupts w)) in
      let w₂ = delay 10 (set_pin_mode input (delay 3 w₁)) in
      let (level, w₃) = read_pin_value w₂ in (if level then 1 else 0, delay 53 (interrupts w₃))

  -- Lets the wire float: the end of `write` and `write_bytes` where no power is asked for.
  unfoldable pub float : W → W
  float w = interrupts (set_pin_value false (set_pin_mode input (no_interrupts w)))

  -- `for (uint8_t bitMask = 0x01; bitMask; bitMask <<= 1)`, with at most so many rounds.
  pub write_loop : ℕ → ℕ → ℕ → W → W
  unfolding write_bit
  write_loop zero bit_mask v w = w
  write_loop (suc fuel) bit_mask v w =
      let rest =
        write_loop fuel (bit_mask * 2 % 2 ^ 8) v
          (write_bit (if bit_and bit_mask v == 0 then 0 else 1) w) in
      if bit_mask == 0 then w else rest

  unfoldable pub write : ℕ → Bool → W → W
  unfolding write_loop float
  write v power w = let w' = write_loop 9 0x01 v w in if power then w' else float w'

  pub write_all : List ℕ → W → W
  unfolding write
  write_all [] w = w
  write_all (b ∷ bs) w = write_all bs (write b false w)

  -- `write_bytes`: the list is the buffer's first `count` bytes.
  pub write_bytes : List ℕ → Bool → W → W
  unfolding write_all
  write_bytes buf power w = let w' = write_all buf w in if power then w' else float w'

  pub read_loop : ℕ → ℕ → ℕ → W → ℕ × W
  unfolding read_bit
  read_loop zero bit_mask r w = (r, w)
  read_loop (suc fuel) bit_mask r w =
      let rest =
        let (b, w') = read_bit w in
        read_loop fuel (bit_mask * 2 % 2 ^ 8) (if b == 0 then r else bit_or r bit_mask) w' in
      if bit_mask == 0 then (r, w) else rest

  pub read : W → ℕ × W
  unfolding read_loop
  read w = read_loop 9 0x01 0 w

  -- `read_bytes`, with the bytes that it stores.
  unfoldable pub read_bytes : ℕ → W → List ℕ × W
  unfolding read
  read_bytes zero w = ([], w)
  read_bytes (suc count) w =
      let (b, w₁) = read w in let (bs, w₂) = read_bytes count w₁ in (b ∷ bs, w₂)

  -- `select`: the list is the 8 bytes of `rom`.
  unfoldable pub select : List ℕ → W → W
  unfolding write_all
  select rom w = write_all rom (write 0x55 false w)

  pub skip : W → W
  unfolding write
  skip w = write 0xCC false w

  pub depower : W → W
  depower w = interrupts (set_pin_mode input (no_interrupts w))

  -- One `do … while` loop of `reset`: at most `retries - 1` polls, each after a delay, until the pin
  -- reads `until`; what is left of `retries`, or `none` for the `return false`. It is never entered
  -- with 0 retries.
  unfoldable pub poll : ℕ → ℕ → Bool → W → Option ℕ × W
  poll zero step until w = (none, w)
  poll (suc zero) step until w = (none, w)
  poll (suc (suc r)) step until w =
      let (level, w') = read_pin_value (delay step w) in
      let again = poll (suc r) step until w' in
      if level
      then (if until then (some (suc r), w') else again)
      else (if until then again else (some (suc r), w'))

  -- The rest of `reset` after each of its loops.
  pub reset_end : Option ℕ × W → Bool × W
  reset_end (none, w) = (false, w)
  reset_end (some retries, w) = (true, delay (reset_step_us * retries) (interrupts w))

  pub await_end : Option ℕ × W → Bool × W
  unfolding reset_end poll
  await_end (none, w) = (false, w)
  await_end (some retries, w) = reset_end (poll retries 2 true w)

  pub await_presence : Option ℕ × W → Bool × W
  unfolding await_end poll
  await_presence (none, w) = (false, w)
  await_presence (some retries, w) = await_end (poll retries 2 false w)

  pub reset_pulse : Option ℕ × W → Bool × W
  unfolding await_presence poll
  reset_pulse (none, w) = (false, w)
  reset_pulse (some retries, w) =
      let w₁ = interrupts (pull_low w) in
      let w₂ = set_pin_mode input (no_interrupts (delay reset_pulse_us w₁)) in
      await_presence (poll retries 2 true w₂)

  -- `OneWire::reset`: whether a presence pulse was seen.
  unfoldable pub reset : W → Bool × W
  unfolding reset_pulse poll
  reset w = reset_pulse (
      poll (reset_time_us / reset_step_us) reset_step_us true
        (interrupts (set_pin_mode input (no_interrupts w))))
