-- ===== src/Main/Wiring.antt =====
-- The pins of src/main/main.cpp: the callbacks that it gives to `OneWire`, its task that blinks, and the
-- set-up in `app_main` of the pin for it. The GPIO driver is the parameter `Gpio`.
mod Observed
pub mod Released
pub mod Simulated
use esp_ac_dimmer.Prelude.{
  ℕ, zero, suc, ◌+◌, ◌%◌, ◌^◌, ◌==◌, if◌then◌else◌, Bool, true, false, not, ◌≡◌,
}
use esp_ac_dimmer.Onewire.Line.{Callbacks, PinMode, input, output, IntMode}

-- The modes of `gpio_mode_t` that the program uses.
pub data GpioMode : Type 0 where
  gpio_mode_input gpio_mode_output gpio_mode_output_od : GpioMode

-- The GPIO driver, with the delay of the system's ROM. `config` takes the mask of the pins; the rest of
-- the structure turns off interrupts and pull resistors.
pub record Gpio (W : Type 0) : Type 0 where
  pub config : GpioMode → ℕ → W → W
  pub set_direction : ℕ → GpioMode → W → W
  pub set_level : ℕ → ℕ → W → W
  pub get_level : ℕ → W → ℕ × W
  pub ets_delay_us : ℕ → W → W

-- `InitialPinMask`, which is `GPIO_Pin_5`.
abbrev pub initial_pin_mask : ℕ
initial_pin_mask = 2 ^ 5

abbrev pub led_pin : ℕ
led_pin = 5

abbrev pub ow_pin : ℕ
ow_pin = 4

-- `onewire::PinMode::OUTPUT == pinMode ? GPIO_MODE_OUTPUT_OD : GPIO_MODE_INPUT`.
abbrev pub gpio_mode : PinMode → GpioMode
gpio_mode output = gpio_mode_output_od
gpio_mode input = gpio_mode_input

module _ {W : Type 0} (gpio : Gpio W) where
  open gpio use {config, set_direction, set_level, get_level, ets_delay_us}

  abbrev pub set_pin_mode_clbk : PinMode → W → W
  set_pin_mode_clbk pin_mode w = set_direction ow_pin (gpio_mode pin_mode) w

  abbrev pub read_ow_pin_clbk : W → Bool × W
  read_ow_pin_clbk w = let (level, w') = get_level ow_pin w in (not (level == 0), w')

  abbrev pub set_pin_value_clbk : Bool → W → W
  set_pin_value_clbk pin_value w = set_level ow_pin (if pin_value then 1 else 0) w

  -- Its body is empty.
  abbrev pub set_intr_mode_clbk : IntMode → W → W
  set_intr_mode_clbk intr_mode w = w

  -- The arguments of the constructor of `ow_inst`.
  abbrev pub wiring : Callbacks W
  wiring = record {
    set_pin_mode = set_pin_mode_clbk;
    read_pin_value = read_ow_pin_clbk;
    set_pin_value = set_pin_value_clbk;
    delay = ets_delay_us;
    set_intr_mode = set_intr_mode_clbk;
  }

  abbrev pub configure_pins : W → W
  configure_pins w = config gpio_mode_output initial_pin_mask w

  -- So many rounds of `gpio_task_example`, where `cnt` is an `int` that starts at 1 and `task_delay` is
  -- `vTaskDelay` of so many milliseconds.
  unfoldable pub blink : (ℕ → W → W) → ℕ → ℕ → W → W
  blink task_delay zero cnt w = w
  blink task_delay (suc rounds) cnt w =
      blink task_delay rounds (cnt + 1) (set_level led_pin (cnt % 2) (task_delay 1000 w))
