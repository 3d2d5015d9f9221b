-- ===== src/Main/Examples/Laws.antt =====
-- The wire keeps to the search protocol.
use esp_ac_dimmer.Prelude.{
  ℕ, ◌==◌, ◌≡◌, inl, inr, refl, ap, if◌then◌else◌, Bool, true, false, List, map, is_empty, bit_and,
  Bool-cases,
}
use esp_ac_dimmer.Onewire.Line.{
  pull_low, input, output, reset, write, write_bit, read_bit, float, poll,
}
use esp_ac_dimmer.Onewire.Enumeration.{branch}
use esp_ac_dimmer.Onewire.Search.RomBits.{rom_path}
use esp_ac_dimmer.Onewire.Search.Network.{Network, num}
use esp_ac_dimmer.Main.Examples.Sensors.{
  sensors, Slot, Wire, after_slot, drive, wait, wire, answered, IsQuiet, floating, driven_high,
  command_bits, searching, bit_slot, complement_slot, direction_slot,
}

pub reset-quiet : (w : Wire) → IsQuiet w → reset wire w ≡ (true, answered)
unfolding reset poll
reset-quiet w (floating value elapsed activity) = refl
reset-quiet w (driven_high elapsed activity) = refl

answered-IsQuiet : IsQuiet answered
answered-IsQuiet = floating false 450 (command_bits 0 0)

pub reset-IsQuiet : (w : Wire) → IsQuiet w → IsQuiet (reset wire w).1
reset-IsQuiet w q = rw (reset-quiet w q) answered-IsQuiet

pub read_bit-IsQuiet : (w : Wire) → IsQuiet w → IsQuiet (read_bit wire w).1
unfolding read_bit
read_bit-IsQuiet w (floating true elapsed activity) = floating false 63 (after_slot true activity)
read_bit-IsQuiet w (floating false elapsed activity) = floating false 63 (after_slot true activity)
read_bit-IsQuiet w (driven_high elapsed activity) = floating false 63 (after_slot true activity)

zero-IsQuiet :
    (w : Wire) → IsQuiet w → IsQuiet (wait 5 (drive output true (wait 65 (pull_low wire w))))
zero-IsQuiet w (floating true elapsed activity) = driven_high 5 (after_slot false activity)
zero-IsQuiet w (floating false elapsed activity) = driven_high 5 (after_slot false activity)
zero-IsQuiet w (driven_high elapsed activity) = driven_high 5 (after_slot false activity)

one-IsQuiet :
    (w : Wire) → IsQuiet w → IsQuiet (wait 55 (drive output true (wait 10 (pull_low wire w))))
one-IsQuiet w (floating true elapsed activity) = driven_high 55 (after_slot true activity)
one-IsQuiet w (floating false elapsed activity) = driven_high 55 (after_slot true activity)
one-IsQuiet w (driven_high elapsed activity) = driven_high 55 (after_slot true activity)

pub write_bit-IsQuiet : (v : ℕ) (w : Wire) → IsQuiet w → IsQuiet (write_bit wire v w)
unfolding write_bit
write_bit-IsQuiet v w (floating true elapsed activity) = elim (Bool-cases (bit_and v 1 == 0)) [
  | inl zero_bit ↦ rw zero_bit (zero-IsQuiet _ (floating true elapsed activity))
  | inr one_bit ↦ rw one_bit (one-IsQuiet _ (floating true elapsed activity))
]
write_bit-IsQuiet v w (floating false elapsed activity) = elim (Bool-cases (bit_and v 1 == 0)) [
  | inl zero_bit ↦ rw zero_bit (zero-IsQuiet _ (floating false elapsed activity))
  | inr one_bit ↦ rw one_bit (one-IsQuiet _ (floating false elapsed activity))
]
write_bit-IsQuiet v w (driven_high elapsed activity) = elim (Bool-cases (bit_and v 1 == 0)) [
  | inl zero_bit ↦ rw zero_bit (zero-IsQuiet _ (driven_high elapsed activity))
  | inr one_bit ↦ rw one_bit (one-IsQuiet _ (driven_high elapsed activity))
]

pub float-IsQuiet : (w : Wire) → IsQuiet w → IsQuiet (float wire w)
unfolding float
float-IsQuiet w (floating value elapsed activity) = floating false elapsed activity
float-IsQuiet w (driven_high elapsed activity) = floating false elapsed activity

-- A search is under way, at the start of a round.
pub data InSearch (ds : List (List Bool)) : Wire → Type 0 where
  after_command :
      (elapsed : ℕ)
      → InSearch ds (record {
        mode = input;
        value = false;
        elapsed = elapsed;
        presence = false;
        level = true;
        activity = searching ds bit_slot;
      })
  after_direction :
      (elapsed : ℕ)
      → InSearch ds (record {
        mode = output;
        value = true;
        elapsed = elapsed;
        presence = false;
        level = true;
        activity = searching ds bit_slot;
      })

pub InSearch-IsQuiet : (ds : List (List Bool)) (w : Wire) → InSearch ds w → IsQuiet w
InSearch-IsQuiet ds w (after_command elapsed) = floating false elapsed (searching ds bit_slot)
InSearch-IsQuiet ds w (after_direction elapsed) = driven_high elapsed (searching ds bit_slot)

pub write-InSearch : InSearch (map rom_path sensors) (write wire 0xF0 false answered)
unfolding write
write-InSearch = after_command 55

abbrev pub in_round : List (List Bool) → Slot → Wire
in_round ds slot = record {
  mode = input;
  value = false;
  elapsed = 63;
  presence = false;
  level = true;
  activity = searching ds slot;
}

-- The level as the number that is read.
level_num : (b : Bool) → (if b then 1 else 0) ≡ num b
level_num true = refl
level_num false = refl

pub read_first :
    (ds : List (List Bool)) (w : Wire)
    → InSearch ds w
    → read_bit wire w ≡ (num (is_empty (branch false ds)), in_round ds complement_slot)
unfolding read_bit
read_first ds w (after_command elapsed) =
    ap (λ (n : ℕ). (n, in_round ds complement_slot)) (level_num (is_empty (branch false ds)))
read_first ds w (after_direction elapsed) =
    ap (λ (n : ℕ). (n, in_round ds complement_slot)) (level_num (is_empty (branch false ds)))

pub read_second :
    (ds : List (List Bool))
    → read_bit wire (in_round ds complement_slot)
      ≡ (num (is_empty (branch true ds)), in_round ds direction_slot)
unfolding read_bit
read_second ds =
    ap (λ (n : ℕ). (n, in_round ds direction_slot)) (level_num (is_empty (branch true ds)))

pub write_direction :
    (ds : List (List Bool)) (b : Bool)
    → InSearch (branch b ds) (write_bit wire (num b) (in_round ds direction_slot))
unfolding write_bit
write_direction ds true = after_direction 55
write_direction ds false = after_direction 5

abbrev pub network : Network wire
network = record {
  devices = sensors;
  Attached = IsQuiet;
  Searching = InSearch;
  present = λ w q. ap (λ (r : Bool × Wire). r.0) (reset-quiet w q);
  ready = reset-IsQuiet;
  command = λ w q. rw (reset-quiet w q) write-InSearch;
  first_bit = λ ds w h. ap (λ (r : ℕ × Wire). r.0) (read_first ds w h);
  second_bit = λ ds w h. rw (read_first ds w h, read_second ds) refl;
  chosen = λ ds w b h. rw (read_first ds w h, read_second ds) (write_direction ds b);
  still = InSearch-IsQuiet;
}
