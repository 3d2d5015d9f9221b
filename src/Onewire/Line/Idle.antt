-- ===== src/Onewire/Line/Idle.antt =====
-- A pin's mode after `OneWire::reset`: what turning the pin to an input establishes, and reading it and
-- waiting keep, holds after it.
use esp_ac_dimmer.Prelude.{arith, ℕ, zero, suc, ◌*◌, ◌/◌, Bool, true, false, Option, none, some}
use esp_ac_dimmer.Onewire.Line.{
  Callbacks, input, pull_low, interrupts, no_interrupts, reset_pulse_us, reset_time_us,
  reset_step_us, poll, reset_end, await_end, await_presence, reset_pulse, reset,
}

-- `Q` is what holds of any wire before that, or nothing.
pub record IsIdle {W : Type 0} (cb : Callbacks W) (Q P : W → Type 0) : Type 0 where
  pub by_no_interrupts : (w : W) → Q w → Q (no_interrupts cb w)
  pub by_pulse : (w : W) → P w → Q (cb.delay reset_pulse_us (interrupts cb (pull_low cb w)))
  pub by_input : (w : W) → Q w → P (cb.set_pin_mode input w)
  pub by_read : (w : W) → P w → P (cb.read_pin_value w).1
  pub by_delay : (t : ℕ) (w : W) → P w → P (cb.delay t w)
  pub by_interrupts : (w : W) → P w → P (interrupts cb w)

module _ {W : Type 0} (cb : Callbacks W) (Q P : W → Type 0) (idle : IsIdle cb Q P) where
  poll-idle : (r step : ℕ) (until : Bool) (w : W) → P w → P (poll cb r step until w).1
  unfolding poll
  poll-idle zero step until w h = h
  poll-idle (suc zero) step until w h = h
  poll-idle (suc (suc r)) step until w h =
      let w' = (cb.read_pin_value (cb.delay step w)).1 in
      let h' : P w' = idle.by_read _ (idle.by_delay step w h) in
      let again = poll-idle (suc r) step until w' h' in ground (arith, again, h')

  reset_end-idle : (p : Option ℕ × W) → P p.1 → P (reset_end cb p).1
  unfolding reset_end
  reset_end-idle (none, w) h = h
  reset_end-idle (some retries, w) h =
      idle.by_delay (reset_step_us * retries) _ (idle.by_interrupts w h)

  await_end-idle : (p : Option ℕ × W) → P p.1 → P (await_end cb p).1
  unfolding await_end
  await_end-idle (none, w) h = h
  await_end-idle (some retries, w) h =
      reset_end-idle (poll cb retries 2 true w) (poll-idle retries 2 true w h)

  await_presence-idle : (p : Option ℕ × W) → P p.1 → P (await_presence cb p).1
  unfolding await_presence
  await_presence-idle (none, w) h = h
  await_presence-idle (some retries, w) h =
      await_end-idle (poll cb retries 2 false w) (poll-idle retries 2 false w h)

  reset_pulse-idle : (p : Option ℕ × W) → P p.1 → P (reset_pulse cb p).1
  unfolding reset_pulse
  reset_pulse-idle (none, w) h = h
  reset_pulse-idle (some retries, w) h =
      let w₂ = no_interrupts cb (cb.delay reset_pulse_us (interrupts cb (pull_low cb w))) in
      let h₂ : Q w₂ = idle.by_no_interrupts _ (idle.by_pulse w h) in
      await_presence-idle (poll cb retries 2 true (cb.set_pin_mode input w₂))
        (poll-idle retries 2 true (cb.set_pin_mode input w₂) (idle.by_input w₂ h₂))

  pub reset-idle : (w : W) → Q w → P (reset cb w).1
  unfolding reset
  reset-idle w h =
      let w₁ = interrupts cb (cb.set_pin_mode input (no_interrupts cb w)) in
      let retries = reset_time_us / reset_step_us in
      let h₁ : P w₁ = idle.by_interrupts _ (idle.by_input _ (idle.by_no_interrupts w h)) in
      reset_pulse-idle (poll cb retries reset_step_us true w₁)
        (poll-idle retries reset_step_us true w₁ h₁)
