-- ===== src/Main/Wiring/Released.antt =====
-- The pin of the wire between the operations of `OneWire`: `app_main` never drives the wire high, and never
-- leaves it low.
use esp_ac_dimmer.Prelude.{
  ℕ, zero, suc, ◌+◌, ◌%◌, ◌==◌, ◌≡◌, ◌⊎◌, refl, ◌∙◌, inl, inr, false, List, Bool-cases, bit_and,
  some,
}
use esp_ac_dimmer.Onewire.Line.{pull_low, write_bit, read_bit, float}
use esp_ac_dimmer.Onewire.Line.Kept.{IsKept}
use esp_ac_dimmer.Onewire.Line.Idle.{IsIdle, reset-idle}
use esp_ac_dimmer.Onewire.Search.{SearchState, begin}
use esp_ac_dimmer.Onewire.Search.State.{reset_search-IsValid}
use esp_ac_dimmer.Main.{TempMsg, Pass, passes}
use esp_ac_dimmer.Main.Kept.{IsUndisturbed, passes-keeps}
use esp_ac_dimmer.Main.Wiring.{
  GpioMode, gpio_mode_input, gpio_mode_output_od, Gpio, ow_pin, led_pin, wiring, blink,
}

-- What the driver documents: a pin has a mode and an output level, which only the calls for that change.
pub record GpioLaws {W : Type 0} (gpio : Gpio W) : Type 0 where
  pub mode : ℕ → W → GpioMode
  pub level : ℕ → W → ℕ
  pub direction-mode : (pin : ℕ) (m : GpioMode) (w : W) → mode pin (gpio.set_direction pin m w) ≡ m
  pub direction-level :
      (pin : ℕ) (m : GpioMode) (w : W) → level pin (gpio.set_direction pin m w) ≡ level pin w
  pub level-mode : (pin pin' v : ℕ) (w : W) → mode pin (gpio.set_level pin' v w) ≡ mode pin w
  pub level-level : (pin v : ℕ) (w : W) → level pin (gpio.set_level pin v w) ≡ v
  pub level-other :
      (pin pin' v : ℕ) (w : W)
      → (pin == pin') ≡ false
      → level pin (gpio.set_level pin' v w) ≡ level pin w
  pub read-mode : (pin : ℕ) (w : W) → mode pin (gpio.get_level pin w).1 ≡ mode pin w
  pub read-level : (pin : ℕ) (w : W) → level pin (gpio.get_level pin w).1 ≡ level pin w
  pub delay-mode : (pin t : ℕ) (w : W) → mode pin (gpio.ets_delay_us t w) ≡ mode pin w
  pub delay-level : (pin t : ℕ) (w : W) → level pin (gpio.ets_delay_us t w) ≡ level pin w

module _ {W : Type 0} (gpio : Gpio W) (laws : GpioLaws gpio) where
  open laws use {mode, level}

  abbrev IsInput : W → Type 0
  IsInput w = mode ow_pin w ≡ gpio_mode_input

  -- The pin of the wire is an input, or an open drain that lets go of the wire.
  abbrev pub IsReleased : W → Type 0
  IsReleased w = IsInput w ⊎ ((mode ow_pin w ≡ gpio_mode_output_od) × (level ow_pin w ≡ 1))

  wiring-IsIdle : IsIdle (wiring gpio) (λ w. Unit) IsInput
  wiring-IsIdle = record {
    by_no_interrupts = λ w h. tt;
    by_pulse = λ w h. tt;
    by_input = λ w h. laws.direction-mode ow_pin gpio_mode_input w;
    by_read = λ w h. laws.read-mode ow_pin w ∙ h;
    by_delay = λ t w h. laws.delay-mode ow_pin t w ∙ h;
    by_interrupts = λ w h. h;
  }

  -- The end of both kinds of a write slot.
  slot-IsReleased :
      (t t' : ℕ) (w : W)
      → IsReleased (
          gpio.ets_delay_us t
            (gpio.set_level ow_pin 1 (gpio.ets_delay_us t' (pull_low (wiring gpio) w))))
  slot-IsReleased t t' w =
      let low = gpio.set_level ow_pin 0 w in
      let pulled = gpio.set_direction ow_pin gpio_mode_output_od low in
      let waited = gpio.ets_delay_us t' pulled in
      let high = gpio.set_level ow_pin 1 waited in
      inr (
        laws.delay-mode ow_pin t high
            ∙ (laws.level-mode ow_pin ow_pin 1 waited
                ∙ (laws.delay-mode ow_pin t' pulled
                    ∙ laws.direction-mode ow_pin gpio_mode_output_od low)),
        laws.delay-level ow_pin t high ∙ laws.level-level ow_pin 1 waited,
      )

  write_bit-IsReleased : (v : ℕ) (w : W) → IsReleased (write_bit (wiring gpio) v w)
  unfolding write_bit
  write_bit-IsReleased v w = elim (Bool-cases (bit_and v 1 == 0)) [
    | inl zero_bit ↦ rw zero_bit (slot-IsReleased 5 65 w)
    | inr one_bit ↦ rw one_bit (slot-IsReleased 55 10 w)
  ]

  read_bit-IsReleased : (w : W) → IsReleased (read_bit (wiring gpio) w).1
  unfolding read_bit
  read_bit-IsReleased w =
      let idle = wiring-IsIdle in
      inl (idle.by_delay 53 _ (idle.by_read _ (idle.by_delay 10 _ (idle.by_input _ tt))))

  float-IsReleased : (w : W) → IsReleased (float (wiring gpio) w)
  unfolding float
  float-IsReleased w =
      inl (laws.level-mode ow_pin ow_pin 0 _ ∙ laws.direction-mode ow_pin gpio_mode_input w)

  pub wiring-IsKept : IsKept (wiring gpio) IsReleased
  wiring-IsKept = record {
    by_write = λ v w h. write_bit-IsReleased v w;
    by_read = λ w h. read_bit-IsReleased w;
    by_float = λ w h. float-IsReleased w;
    by_reset = λ w h. inl (reset-idle (wiring gpio) (λ w. Unit) IsInput wiring-IsIdle w tt);
  }

  led-IsReleased : (v : ℕ) (w : W) → IsReleased w → IsReleased (gpio.set_level led_pin v w)
  led-IsReleased v w (inl h) = inl (laws.level-mode ow_pin led_pin v w ∙ h)
  led-IsReleased v w (inr (m, l)) =
      inr (laws.level-mode ow_pin led_pin v w ∙ m, laws.level-other ow_pin led_pin v w refl ∙ l)

  -- The task that blinks leaves the pin of the wire alone.
  pub blink-IsReleased :
      (task_delay : ℕ → W → W)
      → ((t : ℕ) (w : W) → IsReleased w → IsReleased (task_delay t w))
      → (rounds cnt : ℕ) (w : W) → IsReleased w
      → IsReleased (blink gpio task_delay rounds cnt w)
  unfolding blink
  blink-IsReleased task_delay by_delay zero cnt w h = h
  blink-IsReleased task_delay by_delay (suc rounds) cnt w h =
      blink-IsReleased task_delay by_delay rounds (cnt + 1) _
        (led-IsReleased (cnt % 2) _ (by_delay 1000 w h))

  -- From the constructor of `OneWire` on, every number of passes of the loop of `app_main` returns, whatever
  -- devices are on the wire and whatever they answer. After them the pin of the wire is an input, or
  -- an open drain that lets go of the wire: it is neither left low nor driven high, not even after a
  -- write that asks for power.
  -- The delays and the sending of data are taken to leave the pin alone.
  pub passes-IsReleased :
      (task_delay : ℕ → W → W) (send_data : TempMsg → W → W) (garbage : List ℕ)
      → ((t : ℕ) (w : W) → IsReleased w → IsReleased (task_delay t w))
      → ((msg : TempMsg) (w : W) → IsReleased w → IsReleased (send_data msg w))
      → (n : ℕ) (s : SearchState) (w : W)
      → (ps : List Pass) × (s' : SearchState) × (w' : W) × (passes
            (wiring gpio)
            task_delay
            send_data
            garbage
            n
            (begin (wiring gpio) s w).0
            (begin (wiring gpio) s w).1
          ≡ some (ps, s', w'))
        × IsReleased w'
  unfolding begin
  passes-IsReleased task_delay send_data garbage by_delay by_send n s w =
      let undisturbed : IsUndisturbed (wiring gpio) task_delay send_data IsReleased = record {
        line = wiring-IsKept;
        by_delay = by_delay;
        by_send = by_send;
      } in
      let (ps, s', w', runs, v', h') =
        passes-keeps (wiring gpio) task_delay send_data garbage IsReleased undisturbed n _ _
          (reset_search-IsValid s) (inl (laws.direction-mode ow_pin gpio_mode_input w)) in
      (ps, s', w', runs, h')
