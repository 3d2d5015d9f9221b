-- ===== src/Main/Wiring/Observed.antt =====
-- `OneWire::reset` with the callbacks of src/main/main.cpp, of which the one for the interrupts is empty.
use esp_ac_dimmer.Prelude.{ℕ, ◌+◌, ◌≡◌, refl, inl, inr, Bool, true, false}
use esp_ac_dimmer.Onewire.Line.{IntMode, intr_on, reset}
use esp_ac_dimmer.Onewire.Line.Observer.{Observer}
use esp_ac_dimmer.Onewire.Line.Reset.{Outcome, reset-Outcome}
use esp_ac_dimmer.Main.Wiring.{GpioMode, Gpio, wiring}

-- The time that was waited, how often a level was read, and whether the interrupts are on: no call of the
-- GPIO driver turns them on or off.
record GpioObserver {W : Type 0} (gpio : Gpio W) : Type 0 where
  intr : W → IntMode
  clock : W → ℕ
  reads : W → ℕ
  direction_intr : (pin : ℕ) (m : GpioMode) (w : W) → intr (gpio.set_direction pin m w) ≡ intr w
  direction_clock : (pin : ℕ) (m : GpioMode) (w : W) → clock (gpio.set_direction pin m w) ≡ clock w
  direction_reads : (pin : ℕ) (m : GpioMode) (w : W) → reads (gpio.set_direction pin m w) ≡ reads w
  level_intr : (pin v : ℕ) (w : W) → intr (gpio.set_level pin v w) ≡ intr w
  level_clock : (pin v : ℕ) (w : W) → clock (gpio.set_level pin v w) ≡ clock w
  level_reads : (pin v : ℕ) (w : W) → reads (gpio.set_level pin v w) ≡ reads w
  read_intr : (pin : ℕ) (w : W) → intr (gpio.get_level pin w).1 ≡ intr w
  read_clock : (pin : ℕ) (w : W) → clock (gpio.get_level pin w).1 ≡ clock w
  read_reads : (pin : ℕ) (w : W) → reads (gpio.get_level pin w).1 ≡ reads w + 1
  delay_intr : (t : ℕ) (w : W) → intr (gpio.ets_delay_us t w) ≡ intr w
  delay_clock : (t : ℕ) (w : W) → clock (gpio.ets_delay_us t w) ≡ clock w + t
  delay_reads : (t : ℕ) (w : W) → reads (gpio.ets_delay_us t w) ≡ reads w

module _ {W : Type 0} (gpio : Gpio W) (o : GpioObserver gpio) where
  abbrev wiring-Observer : Observer (wiring gpio)
  wiring-Observer = record {
    intr = o.intr;
    clock = o.clock;
    reads = o.reads;
    effect = λ m i. i;
    effect_twice = λ m m' i. refl;
    mode_intr = λ m w. o.direction_intr _ _ w;
    mode_clock = λ m w. o.direction_clock _ _ w;
    mode_reads = λ m w. o.direction_reads _ _ w;
    value_intr = λ b w. o.level_intr _ _ w;
    value_clock = λ b w. o.level_clock _ _ w;
    value_reads = λ b w. o.level_reads _ _ w;
    read_intr = λ w. o.read_intr _ w;
    read_clock = λ w. o.read_clock _ w;
    read_reads = λ w. o.read_reads _ w;
    delay_intr = o.delay_intr;
    delay_clock = o.delay_clock;
    delay_reads = o.delay_reads;
    intr_intr = λ m w. refl;
    intr_clock = λ m w. refl;
    intr_reads = λ m w. refl;
  }

  Outcome-intr :
      (w : W) (ok : Bool) (w' : W)
      → Outcome (wiring gpio) wiring-Observer w ok w'
      → o.intr w' ≡ o.intr w
  Outcome-intr w true w' h = h.0
  Outcome-intr w false w' h = elim h.0 [ inl pulled ↦ pulled.0 | inr later ↦ later ]

  -- In this firmware `reset` leaves the interrupts as they are, whatever it answers.
  wired_reset-intr : (w : W) → o.intr (reset (wiring gpio) w).1 ≡ o.intr w
  wired_reset-intr w =
      Outcome-intr w (reset (wiring gpio) w).0 (reset (wiring gpio) w).1
        (reset-Outcome (wiring gpio) wiring-Observer w)

-- A level that is always high, the clock and the number of reads.
abbrev timed : Gpio (ℕ × ℕ)
timed = record {
  config = λ m mask w. w;
  set_direction = λ pin m w. w;
  set_level = λ pin v w. w;
  get_level = λ pin w. (1, (w.0, w.1 + 1));
  ets_delay_us = λ t w. (w.0 + t, w.1);
}

timed-observed : GpioObserver timed
timed-observed = record {
  intr = λ w. intr_on;
  clock = λ w. w.0;
  reads = λ w. w.1;
  direction_intr = λ pin m w. refl;
  direction_clock = λ pin m w. refl;
  direction_reads = λ pin m w. refl;
  level_intr = λ pin v w. refl;
  level_clock = λ pin v w. refl;
  level_reads = λ pin v w. refl;
  read_intr = λ pin w. refl;
  read_clock = λ pin w. refl;
  read_reads = λ pin w. refl;
  delay_intr = λ t w. refl;
  delay_clock = λ t w. refl;
  delay_reads = λ t w. refl;
}
