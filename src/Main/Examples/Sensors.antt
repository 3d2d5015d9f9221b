-- ===== src/Main/Examples/Sensors.antt =====
-- A wire with two sensors that answer a search.
use esp_ac_dimmer.Prelude.{
  ℕ, ◌+◌, ◌^◌, ◌==◌, ltb, if◌then◌else◌, Bool, true, false, not, ◌&&◌, ◌||◌, List, [], ◌∷◌, map,
  is_empty,
}
use esp_ac_dimmer.Onewire.Line.{Callbacks, PinMode, input, output}
use esp_ac_dimmer.Onewire.Enumeration.{branch}
use esp_ac_dimmer.Onewire.Search.RomBits.{rom_path}

abbrev pub sensors : List (List ℕ)
sensors =
    (0x28 ∷ 1 ∷ 0 ∷ 0 ∷ 0 ∷ 0 ∷ 0 ∷ 0x29 ∷ []) ∷ (0x28 ∷ 2 ∷ 0 ∷ 0 ∷ 0 ∷ 0 ∷ 0 ∷ 0x70 ∷ []) ∷ []

-- What the slot is for, in a round of a search.
pub data Slot : Type 0 where
  bit_slot complement_slot direction_slot : Slot

-- What the sensors do: nothing, take a command of which so many bits were seen, or take part in a search
-- in which these are the bits still to be sent.
pub data Activity : Type 0 where
  waiting : Activity
  command_bits : ℕ → ℕ → Activity
  searching : List (List Bool) → Slot → Activity

-- `elapsed` is the time since the wire was last pulled low or let go, `level` what the sensors let the
-- wire be, but for the presence pulse.
pub record Wire : Type 0 where
  pub mode : PinMode
  pub value : Bool
  pub elapsed : ℕ
  pub presence : Bool
  pub level : Bool
  pub activity : Activity

abbrev pub pulled_low : PinMode → Bool → Bool
pulled_low input value = false
pulled_low output value = not value

-- The level that a slot begins with.
abbrev pub sent : Activity → Bool
sent waiting = true
sent (command_bits n v) = true
sent (searching ds bit_slot) = is_empty (branch false ds)
sent (searching ds complement_slot) = is_empty (branch true ds)
sent (searching ds direction_slot) = true

-- A slot ends, with the bit 1 if it was short.
abbrev pub after_slot : Bool → Activity → Activity
after_slot b waiting = waiting
after_slot b (command_bits n v) =
    let v' = if b then v + 2 ^ n else v in
    if n == 7
    then if v' == 0xF0 then searching (map rom_path sensors) bit_slot else waiting
    else command_bits (n + 1) v'
after_slot b (searching ds bit_slot) = searching ds complement_slot
after_slot b (searching ds complement_slot) = searching ds direction_slot
after_slot b (searching ds direction_slot) = searching (branch b ds) bit_slot

abbrev pub drive : PinMode → Bool → Wire → Wire
drive mode value w =
    if pulled_low w.mode w.value
    then (if pulled_low mode value then record w { mode = mode; value = value } else record w {
      mode = mode;
      value = value;
      elapsed = 0;
      presence = ltb 479 w.elapsed;
      activity =
          if ltb 479 w.elapsed then command_bits 0 0 else after_slot (ltb w.elapsed 15) w.activity;
    })
    else (if pulled_low mode value
        then record w { mode = mode; value = value; elapsed = 0; level = sent w.activity }
        else record w { mode = mode; value = value })

-- The presence pulse is from 20 to 60 µs after the reset pulse; a slot is over after 50 µs.
abbrev pub wait : ℕ → Wire → Wire
wait t w = record w {
  elapsed = w.elapsed + t;
  presence = w.presence && ltb (w.elapsed + t) 100;
  level = ltb 49 t || w.level;
}

abbrev pub wire : Callbacks Wire
wire = record {
  set_pin_mode = λ m w. drive m w.value w;
  read_pin_value = λ w. (
    not (pulled_low w.mode w.value)
        && (not (w.presence && (ltb 19 w.elapsed && ltb w.elapsed 60)) && w.level),
    w,
  );
  set_pin_value = λ b w. drive w.mode b w;
  delay = wait;
  set_intr_mode = λ m w. w;
}

abbrev pub idle : Wire
idle = record {
  mode = input;
  value = false;
  elapsed = 0;
  presence = false;
  level = true;
  activity = waiting;
}

-- After a reset.
abbrev pub answered : Wire
answered = record {
  mode = input;
  value = false;
  elapsed = 450;
  presence = false;
  level = true;
  activity = command_bits 0 0;
}

-- No slot is under way.
pub data IsQuiet : Wire → Type 0 where
  floating :
      (value : Bool) (elapsed : ℕ) (activity : Activity)
      → IsQuiet (record {
        mode = input;
        value = value;
        elapsed = elapsed;
        presence = false;
        level = true;
        activity = activity;
      })
  driven_high :
      (elapsed : ℕ) (activity : Activity)
      → IsQuiet (record {
        mode = output;
        value = true;
        elapsed = elapsed;
        presence = false;
        level = true;
        activity = activity;
      })
