-- ===== src/Main/Wiring/Simulated.antt =====
-- Pins of which one is the wire, pulled up and without devices, while the other blinks.
use esp_ac_dimmer.Prelude.{ℕ, ◌^◌, ◌==◌, ==_iff, ◌≡◌, refl, if◌then◌else◌, true, false, replicate}
use esp_ac_dimmer.Onewire.Search.{SearchState}
use esp_ac_dimmer.Main.Wiring.{
  GpioMode, gpio_mode_input, gpio_mode_output, gpio_mode_output_od, Gpio, blink,
}
use esp_ac_dimmer.Main.Wiring.Released.{GpioLaws, IsReleased, blink-IsReleased}

pub record Pins : Type 0 where
  pub mode : ℕ → GpioMode
  pub level : ℕ → ℕ

abbrev read_wire : GpioMode → ℕ → ℕ
read_wire gpio_mode_input level = 1
read_wire gpio_mode_output level = level
read_wire gpio_mode_output_od level = level

-- The mask that the program configures has one bit.
abbrev pub pins : Gpio Pins
pins = record {
  config = λ m mask w. record w { mode = λ p. if 2 ^ p == mask then m else w.mode p };
  set_direction = λ pin m w. record w { mode = λ p. if p == pin then m else w.mode p };
  set_level = λ pin v w. record w { level = λ p. if p == pin then v else w.level p };
  get_level = λ pin w. (read_wire (w.mode pin) (w.level pin), w);
  ets_delay_us = λ t w. w;
}

same : (n : ℕ) → (n == n) ≡ true
same n = (==_iff n n).1 refl

pub pins-laws : GpioLaws pins
pins-laws = record {
  mode = λ pin w. w.mode pin;
  level = λ pin w. w.level pin;
  direction-mode = λ pin m w. rw (same pin) refl;
  direction-level = λ pin m w. refl;
  level-mode = λ pin pin' v w. refl;
  level-level = λ pin v w. rw (same pin) refl;
  level-other = λ pin pin' v w other. rw other refl;
  read-mode = λ pin w. refl;
  read-level = λ pin w. refl;
  delay-mode = λ pin t w. refl;
  delay-level = λ pin t w. refl;
}

abbrev pub powered_on : Pins
powered_on = record { mode = λ p. gpio_mode_input; level = λ p. 0 }

-- A round of the task that blinks runs in each delay.
abbrev pub blinking : ℕ → Pins → Pins
blinking t w = blink pins (λ t w. w) 1 1 w

pub blinking-IsReleased :
    (t : ℕ) (w : Pins) → IsReleased pins pins-laws w → IsReleased pins pins-laws (blinking t w)
blinking-IsReleased t w h = blink-IsReleased pins pins-laws (λ t w. w) (λ t w h. h) 1 1 w h

abbrev pub unused_search : SearchState
unused_search = record {
  rom_no = replicate 8 0;
  last_discrepancy = 0;
  last_family_discrepancy = 0;
  last_device_flag = false;
}
