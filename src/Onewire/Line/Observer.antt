-- ===== src/Onewire/Line/Observer.antt =====
-- What can be observed of a wire through its callbacks, and what one loop of `OneWire::reset` costs.
use esp_ac_dimmer.Prelude.{
  ◌⊎◌, ℕ, zero, suc, ◌+◌, ◌*◌, ◌≤◌, ◌<◌, ◌≡◌, refl, ◌∙◌, inl, inr, arith, Bool, true, false, Option,
  none, some, Bool-cases,
}
use esp_ac_dimmer.Onewire.Line.{PinMode, IntMode, Callbacks, poll}

-- What can be seen of the callbacks' state: whether the interrupts are on, the time that was waited,
-- and how often the pin was read. Reading, waiting and setting the pin do what they are named for. `effect`
-- is what the callback for the interrupts makes of them when it is told a mode: it turns them on or
-- off, or leaves them alone as the empty callback of src/main/main.cpp does.
pub record Observer {W : Type 0} (cb : Callbacks W) : Type 0 where
  pub intr : W → IntMode
  pub clock : W → ℕ
  pub reads : W → ℕ
  pub effect : IntMode → IntMode → IntMode
  pub effect_twice : (m m' i : IntMode) → effect m (effect m' i) ≡ effect m i
  pub mode_intr : (m : PinMode) (w : W) → intr (cb.set_pin_mode m w) ≡ intr w
  pub mode_clock : (m : PinMode) (w : W) → clock (cb.set_pin_mode m w) ≡ clock w
  pub mode_reads : (m : PinMode) (w : W) → reads (cb.set_pin_mode m w) ≡ reads w
  pub value_intr : (b : Bool) (w : W) → intr (cb.set_pin_value b w) ≡ intr w
  pub value_clock : (b : Bool) (w : W) → clock (cb.set_pin_value b w) ≡ clock w
  pub value_reads : (b : Bool) (w : W) → reads (cb.set_pin_value b w) ≡ reads w
  pub read_intr : (w : W) → intr (cb.read_pin_value w).1 ≡ intr w
  pub read_clock : (w : W) → clock (cb.read_pin_value w).1 ≡ clock w
  pub read_reads : (w : W) → reads (cb.read_pin_value w).1 ≡ reads w + 1
  pub delay_intr : (t : ℕ) (w : W) → intr (cb.delay t w) ≡ intr w
  pub delay_clock : (t : ℕ) (w : W) → clock (cb.delay t w) ≡ clock w + t
  pub delay_reads : (t : ℕ) (w : W) → reads (cb.delay t w) ≡ reads w
  pub intr_intr : (m : IntMode) (w : W) → intr (cb.set_intr_mode m w) ≡ effect m (intr w)
  pub intr_clock : (m : IntMode) (w : W) → clock (cb.set_intr_mode m w) ≡ clock w
  pub intr_reads : (m : IntMode) (w : W) → reads (cb.set_intr_mode m w) ≡ reads w

module _ {W : Type 0} (cb : Callbacks W) (o : Observer cb) where
  open o use {intr, clock, reads}

  pub poll-intr : (r step : ℕ) (u : Bool) (w : W) → intr (poll cb r step u w).1 ≡ intr w
  unfolding poll
  poll-intr zero step u w = refl
  poll-intr (suc zero) step u w = refl
  poll-intr (suc (suc r)) step u w =
      let w' = cb.delay step w in
      let seen : intr (cb.read_pin_value w').1 ≡ intr w = o.read_intr w' ∙ o.delay_intr step w in
      ground (arith, seen, poll-intr (suc r) step u (cb.read_pin_value w').1)

  -- What a loop of `reset` costs, by what it leaves of its `suc r` retries.
  abbrev pub Spent : ℕ → ℕ → W → Option ℕ → W → Type 0
  Spent step r w none w' = (clock w' ≡ clock w + step * r) × (reads w' ≡ reads w + r)
  Spent step r w (some s) w' =
      (0 < s)
      × (s ≤ r)
      × (clock w' + step * s ≡ clock w + step * suc r)
      × (reads w' + s ≡ reads w + suc r)

  Spent-later :
      (step r : ℕ) (w w₁ : W) (left : Option ℕ) (w' : W)
      → clock w₁ ≡ clock w + step
      → reads w₁ ≡ reads w + 1
      → Spent step r w₁ left w'
      → Spent step (suc r) w left w'
  Spent-later step r w w₁ none w' c n h = omega arith
  Spent-later step r w w₁ (some s) w' c n h = omega arith

  pub poll-Spent :
      (r step : ℕ) (u : Bool) (w : W) → let p = poll cb (suc r) step u w in Spent step r w p.0 p.1
  unfolding poll
  poll-Spent zero step u w = omega arith
  poll-Spent (suc r) step u w =
      by_level u (poll-Spent r step u (cb.read_pin_value (cb.delay step w)).1)
        (Bool-cases (cb.read_pin_value (cb.delay step w)).0)
    where
      w₂ : W
      w₂ = (cb.read_pin_value (cb.delay step w)).1

      c : clock w₂ ≡ clock w + step
      c = o.read_clock (cb.delay step w) ∙ o.delay_clock step w

      n : reads w₂ ≡ reads w + 1
      n = omega (arith, o.read_reads (cb.delay step w), o.delay_reads step w)

      hit : Spent step (suc r) w (some (suc r)) w₂
      hit = (omega arith, omega arith, omega (arith, c), omega (arith, n))

      by_level :
          (u : Bool)
          → Spent step r w₂ (poll cb (suc r) step u w₂).0 (poll cb (suc r) step u w₂).1
          → ((cb.read_pin_value (cb.delay step w)).0 ≡ true)
            ⊎ ((cb.read_pin_value (cb.delay step w)).0 ≡ false)
          → Spent step
              (suc r)
              w
              (poll cb (suc (suc r)) step u w).0
              (poll cb (suc (suc r)) step u w).1
      by_level true rest (inl t) = rw t hit
      by_level true rest (inr t) = rw t (Spent-later step r w w₂ _ _ c n rest)
      by_level false rest (inl t) = rw t (Spent-later step r w w₂ _ _ c n rest)
      by_level false rest (inr t) = rw t hit
