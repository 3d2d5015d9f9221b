-- ===== src/Onewire/Line/Reset.antt =====
-- `OneWire::reset`: how long it waits, and the interrupts after each of its ends.
use esp_ac_dimmer.Prelude.{
  ap, sym, ◌⊎◌, ℕ, zero, suc, ◌+◌, ◌*◌, ◌≤◌, ◌<◌, ◌≡◌, refl, ◌∙◌, subst, inl, inr, arith, Bool,
  true, false, Option, none, some,
}
use esp_ac_dimmer.Onewire.Line.{
  IntMode, pull_low, reset_pulse_us, no_interrupts, input, interrupts, intr_on, intr_off, Callbacks,
  poll, reset, reset_pulse, await_presence, await_end, reset_end,
}
use esp_ac_dimmer.Onewire.Line.Observer.{Observer, Spent, poll-intr, poll-Spent}

module _ {W : Type 0} (cb : Callbacks W) (o : Observer cb) where
  open o use {intr, clock, reads, effect, effect_twice}

  -- What telling a mode twice, or with the other one between, leaves.
  effect-from :
      (m m' : IntMode) (v w : W)
      → intr v ≡ effect m' (intr w)
      → effect m (intr v) ≡ effect m (intr w)
  effect-from m m' v w e = ap (effect m) e ∙ effect_twice m m' (intr w)

  -- The states in which the loops of `reset` start.
  abbrev floated : W → W
  floated w = interrupts cb (cb.set_pin_mode input (no_interrupts cb w))

  abbrev pulsed : W → W
  pulsed w =
      cb.set_pin_mode input
        (no_interrupts cb (cb.delay reset_pulse_us (interrupts cb (pull_low cb w))))

  floated-seen :
      (w : W)
      → (intr (floated w) ≡ effect intr_on (intr w))
        × (clock (floated w) ≡ clock w)
        × (reads (floated w) ≡ reads w)
  floated-seen w =
      simp
        (
          o.mode_intr, o.mode_clock, o.mode_reads, o.intr_intr, o.intr_clock, o.intr_reads,
          effect_twice,
        )
        (refl, refl, refl)

  pulsed-seen :
      (w : W)
      → (intr (pulsed w) ≡ effect intr_off (intr w))
        × (clock (pulsed w) ≡ clock w + 500)
        × (reads (pulsed w) ≡ reads w)
  pulsed-seen w =
      simp
        (
          o.mode_intr, o.mode_clock, o.mode_reads, o.value_clock, o.value_reads, o.value_intr,
          o.delay_clock, o.delay_reads, o.delay_intr, o.intr_intr, o.intr_clock, o.intr_reads,
          effect_twice,
        )
        (refl, refl, refl)

  -- What the loops after the pulse and the end of `reset` cost, by the answer, when `k` loops are to
  -- come at `retries`.
  abbrev After : ℕ → ℕ → W → Bool → W → Type 0
  After k retries w true w' =
      (reads w + k ≤ reads w')
      × (reads w' < reads w + retries)
      × (clock w' + 8 * reads w' ≡ clock w + 10 * retries + 8 * reads w)
      × (intr w' ≡ effect intr_on (intr w))
  After k retries w false w' =
      (clock w' + 2 ≡ clock w + 2 * retries)
      × (reads w' + 1 ≡ reads w + retries)
      × (intr w' ≡ intr w)

  module _ (f : Option ℕ × W → Bool × W) (k : ℕ) (fails : (w : W) → f (none, w) ≡ (false, w))
      (goes : (s : ℕ) (w : W) → 0 < s → After k s w (f (some s, w)).0 (f (some s, w)).1) where
    After-more :
        (r s : ℕ) (w w₁ : W) (ok : Bool) (w' : W)
        → Spent cb o 2 r w (some s) w₁
        → intr w₁ ≡ intr w
        → After k s w₁ ok w'
        → After (suc k) (suc r) w ok w'
    After-more r s w w₁ true w' c i h =
        (omega arith, omega arith, omega (arith, c.2, c.3, h.2), h.3 ∙ ap (effect intr_on) i)
    After-more r s w w₁ false w' c i h = (omega (arith, c.2), omega (arith, c.3), h.2 ∙ i)

    After-poll :
        (r : ℕ) (w : W) (left : Option ℕ) (w₁ : W)
        → Spent cb o 2 r w left w₁
        → intr w₁ ≡ intr w
        → After (suc k) (suc r) w (f (left, w₁)).0 (f (left, w₁)).1
    After-poll r w none w₁ c i = rw (fails w₁) (omega arith, omega arith, i)
    After-poll r w (some s) w₁ c i = After-more r s w w₁ _ _ c i (goes s w₁ c.0)

    stage :
        (s : ℕ) (u : Bool) (w : W)
        → 0 < s
        → let x = f (poll cb s 2 u w) in After (suc k) s w x.0 x.1
    stage zero u w h = absurd (omega arith)
    stage (suc r) u w h =
        After-poll r w _ _ (poll-Spent cb o r 2 u w) (poll-intr cb o (suc r) 2 u w)

  end-After : (s : ℕ) (w : W) → 0 < s → let x = reset_end cb (some s, w) in After 0 s w x.0 x.1
  unfolding reset_end
  end-After s w h =
      simp (o.delay_clock, o.delay_reads, o.delay_intr, o.intr_clock, o.intr_reads, o.intr_intr)
        (omega arith, omega arith, omega arith, refl)

  await_end-After :
      (s : ℕ) (w : W) → 0 < s → let x = await_end cb (some s, w) in After 1 s w x.0 x.1
  unfolding await_end
  await_end-After s w h =
      stage (reset_end cb) 0 (λ w. unfold reset_end in refl) end-After s true w h

  await_presence-After :
      (s : ℕ) (w : W) → 0 < s → let x = await_presence cb (some s, w) in After 2 s w x.0 x.1
  unfolding await_presence
  await_presence-After s w h =
      stage (await_end cb) 1 (λ w. unfold await_end in refl) await_end-After s false w h

  -- What the caller of `reset` can rely on at each of its answers.
  abbrev pub Outcome : W → Bool → W → Type 0
  Outcome w true w' =
      (intr w' ≡ effect intr_on (intr w))
      × (clock w + 656 ≤ clock w')
      × (clock w' ≤ clock w + 1176)
      × (reads w' ≤ reads w + 69)
  Outcome w false w' =
      (((intr w' ≡ effect intr_on (intr w)) × (clock w' ≡ clock w + 690))
        ⊎ (intr w' ≡ effect intr_off (intr w)))
      × (clock w' ≤ clock w + 1190)
      × (reads w' ≤ reads w + 69)

  pulse-Outcome :
      (r s : ℕ) (w w₁ : W) (ok : Bool) (w' : W)
      → Spent cb o 10 69 w (some s) w₁
      → intr w₁ ≡ intr w
      → After 3 s (pulsed w₁) ok w'
      → Outcome w ok w'
  pulse-Outcome r s w w₁ true w' c i h =
      let p = pulsed-seen w₁ in
      (
        h.3 ∙ (effect-from intr_on intr_off (pulsed w₁) w₁ p.0 ∙ ap (effect intr_on) i),
        omega (arith, c.2, c.3, h.2, p.1, p.2),
        omega (arith, c.2, c.3, h.2, p.1, p.2),
        omega (arith, c.3, h.1, p.2),
      )
  pulse-Outcome r s w w₁ false w' c i h =
      let p = pulsed-seen w₁ in
      (
        inr (h.2 ∙ (p.0 ∙ ap (effect intr_off) i)),
        omega (arith, c.2, c.3, p.1, p.2),
        omega (arith, c.3, p.2),
      )

  first_poll-Outcome :
      (w : W) (left : Option ℕ) (w₁ : W)
      → Spent cb o 10 69 w left w₁
      → intr w₁ ≡ intr w
      → intr w ≡ effect intr_on (intr w)
      → let x = reset_pulse cb (left, w₁) in Outcome w x.0 x.1
  unfolding reset_pulse
  first_poll-Outcome w none w₁ c i on = (inl (i ∙ on, c.0), omega (arith, c.0), omega (arith, c.1))
  first_poll-Outcome w (some s) w₁ c i on = pulse-Outcome 69 s w w₁ _ _ c i (
      stage (await_presence cb) 2 (λ w. unfold await_presence in refl) await_presence-After s true
        (pulsed w₁) c.0)

  Outcome-from :
      (v w : W) (ok : Bool) (w' : W)
      → intr v ≡ effect intr_on (intr w)
      → clock v ≡ clock w
      → reads v ≡ reads w
      → Outcome v ok w'
      → Outcome w ok w'
  Outcome-from v w true w' i c n h =
      (h.0 ∙ effect-from intr_on intr_on v w i, omega arith, omega arith, omega arith)
  Outcome-from v w false w' i c n h = elim h.0 [
    | inl on ↦ (
      inl (on.0 ∙ effect-from intr_on intr_on v w i, omega (arith, on.1)),
      omega (arith, h.1),
      omega (arith, h.2),
    )
    | inr off ↦
        (inr (off ∙ effect-from intr_off intr_on v w i), omega (arith, h.1), omega (arith, h.2))
  ]

  -- The callbacks for reading, waiting and the pin do just what they are named for, and for what the one
  -- for the interrupts leaves only the last mode counts that it was told, as when it switches them, or
  -- when it is empty: then `reset` reads the pin at most 69 times and ends within 1190 µs of
  -- delays. When it answers `true`, the interrupts are as the callback leaves them when it is told to
  -- turn them on, and it took from 656 to 1176 µs. When it answers `false`, either they are so too and
  -- it took 690 µs, or they are as the callback leaves them when it is told to turn them off.
  pub reset-Outcome : (w : W) → let x = reset cb w in Outcome w x.0 x.1
  unfolding reset
  reset-Outcome w =
      let f = floated-seen w in
      Outcome-from (floated w) w _ _ f.0 f.1 f.2 (
        first_poll-Outcome (floated w) _ _ (poll-Spent cb o 69 10 true (floated w))
          (poll-intr cb o 70 10 true (floated w))
          (f.0 ∙ sym (effect-from intr_on intr_on (floated w) w f.0)))

  false_leaves_off :
      (s : ℕ) (w : W) (left : Option ℕ) (w₁ : W)
      → left ≡ some s
      → 0 < s
      → (reset_pulse cb (left, w₁)).0 ≡ false
      → intr (reset_pulse cb (left, w₁)).1 ≡ effect intr_off (intr w₁)
  unfolding reset_pulse
  false_leaves_off s w none w₁ e h f = cc
  false_leaves_off s w (some r) w₁ e h f =
      at_false _ _
        (stage (await_presence cb) 2 (λ w. unfold await_presence in refl) await_presence-After r
          true (pulsed w₁) (ground arith))
        f
    where
      at_false :
          (ok : Bool) (w' : W)
          → After 3 r (pulsed w₁) ok w'
          → ok ≡ false
          → intr w' ≡ effect intr_off (intr w₁)
      at_false true w' a e = cc
      at_false false w' a e = a.2 ∙ (pulsed-seen w₁).0

  -- The callbacks for reading, waiting and the pin do just what they are named for, and for what the one
  -- for the interrupts leaves only the last mode counts that it was told: then, when the pin came high at
  -- the start and `reset` still answers `false`, it returns with the interrupts as that callback leaves
  -- them when it is told to turn them off: off, if it switches them, and as they were, if it is empty.
  pub reset_leaves_intr_off :
      (s : ℕ) (w : W)
      → let start =
          cb.set_intr_mode intr_on (cb.set_pin_mode input (cb.set_intr_mode intr_off w)) in
        ((poll cb 70 10 true start).0 ≡ some s)
        → (reset cb w).0 ≡ false
        → intr (reset cb w).1 ≡ effect intr_off (intr w)
  unfolding reset
  reset_leaves_intr_off s w e f =
      false_leaves_off s w _ _ e
        (subst
          (λ (left : Option ℕ).
            Spent cb o 10 69 (floated w) left (poll cb 70 10 true (floated w)).1)
          e (poll-Spent cb o 69 10 true (floated w))).0
        f
      ∙ effect-from intr_off intr_on (poll cb 70 10 true (floated w)).1 w
          (poll-intr cb o 70 10 true (floated w) ∙ (floated-seen w).0)
