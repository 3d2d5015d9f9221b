-- ===== src/Onewire/Line/Examples.antt =====
-- A pin that records what is done to it, and the theorems on the wire at it.
use esp_ac_dimmer.Prelude.{ℕ, ◌+◌, ◌≡◌, refl, arith, Bool, true, false, List, [], ◌∷◌, some, get_or}
use esp_ac_dimmer.Onewire.Line.{
  input, IntMode, intr_on, intr_off, Callbacks, poll, reset, read, write, read_bit,
}
use esp_ac_dimmer.Onewire.Line.Bytes.{bits_of, write_each, read_each, write-eq, read-of_bits}
use esp_ac_dimmer.Onewire.Line.Observer.{Observer}
use esp_ac_dimmer.Onewire.Line.Reset.{Outcome, reset-Outcome, reset_leaves_intr_off}

-- The levels are those that the pin will be read at, the last one for ever; the count is of the reads.
record Pin : Type 0 where
  levels : List Bool
  reads : ℕ
  clock : ℕ
  intr : IntMode

abbrev level : Pin → Bool
level p = get_or p.levels p.reads false

abbrev pin : Callbacks Pin
pin = record {
  set_pin_mode = λ m p. p;
  read_pin_value = λ p. (level p, record p { reads = p.reads + 1 });
  set_pin_value = λ b p. p;
  delay = λ t p. record p { clock = p.clock + t };
  set_intr_mode = λ m p. record p { intr = m };
}

abbrev observed : Observer pin
observed = record {
  intr = λ p. p.intr;
  clock = λ p. p.clock;
  reads = λ p. p.reads;
  effect = λ m i. m;
  effect_twice = λ m m' i. refl;
  mode_intr = λ m w. refl;
  mode_clock = λ m w. refl;
  mode_reads = λ m w. refl;
  value_intr = λ b w. refl;
  value_clock = λ b w. refl;
  value_reads = λ b w. refl;
  read_intr = λ w. refl;
  read_clock = λ w. refl;
  read_reads = λ w. refl;
  delay_intr = λ t w. refl;
  delay_clock = λ t w. refl;
  delay_reads = λ t w. refl;
  intr_intr = λ m w. refl;
  intr_clock = λ m w. refl;
  intr_reads = λ m w. refl;
}

abbrev pin_with : List Bool → Pin
pin_with levels = record { levels = levels; reads = 0; clock = 0; intr = intr_off }

-- High, high after the pulse, a presence pulse, high again.
abbrev present : Pin
present = pin_with (true ∷ true ∷ false ∷ true ∷ [])

reset-Outcome_example : Outcome pin observed present (reset pin present).0 (reset pin present).1
reset-Outcome_example = reset-Outcome pin observed present

-- High at the start, then low for ever: the wire is short-circuited after the pulse.
abbrev shorted : Pin
shorted = pin_with (true ∷ [])

abbrev shorted_start : Pin
shorted_start =
    pin.set_intr_mode intr_on (pin.set_pin_mode input (pin.set_intr_mode intr_off shorted))

shorted-poll : (poll pin 70 10 true shorted_start).0 ≡ some 69
unfolding poll
shorted-poll = refl

shorted-reset : (reset pin shorted).0 ≡ false
unfolding reset poll
shorted-reset = refl

reset_leaves_intr_off_example : (reset pin shorted).1.intr ≡ intr_off
reset_leaves_intr_off_example =
    reset_leaves_intr_off pin observed 69 shorted shorted-poll shorted-reset

write-eq_example : write pin 0x44 true present ≡ write_each pin (bits_of 8 0x44) present
write-eq_example = write-eq pin 0x44 true present (omega arith)

abbrev answering : Pin
answering = pin_with (false ∷ false ∷ true ∷ false ∷ false ∷ false ∷ true ∷ false ∷ [])

answering-bits : read_each pin 8 answering ≡ (bits_of 8 0x44, (read_each pin 8 answering).1)
unfolding read_each bits_of read_bit
answering-bits = refl

read-of_bits_example : read pin answering ≡ (0x44, (read_each pin 8 answering).1)
read-of_bits_example =
    read-of_bits pin 0x44 answering (read_each pin 8 answering).1 (omega arith) answering-bits
