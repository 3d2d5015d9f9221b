-- ===== src/Main/Examples.antt =====
-- The theorems on the passes, at a wire with two sensors that answer a search.
mod Sensors
mod Laws
use esp_ac_dimmer.Prelude.{
  ℕ, ◌+◌, ◌*◌, ◌^◌, ◌==◌, ◌≡◌, ◌⊎◌, inl, inr, refl, ap, ltb, if◌then◌else◌, Bool, true, false, not,
  ◌&&◌, ◌||◌, List, [], ◌∷◌, map, is_empty, bit_and, Bool-cases, arith, All,
}
use esp_ac_dimmer.Onewire.Line.{
  Callbacks, pull_low, PinMode, input, output, reset, write, write_bit, read_bit, float, poll,
}
use esp_ac_dimmer.Onewire.Line.Kept.{IsKept}
use esp_ac_dimmer.Onewire.Enumeration.{branch}
use esp_ac_dimmer.Onewire.Search.RomBits.{path_of, rom_path}
use esp_ac_dimmer.Onewire.Search.Network.{Network, num}
use esp_ac_dimmer.Onewire.Search.Network.Present.{IsDevice}
use mathlib.Core.List.{flatten}
use esp_ac_dimmer.Prelude.{replicate, length, Option, some, suc, get_or, set}
use esp_ac_dimmer.Onewire.Enumeration.{ordered}
use esp_ac_dimmer.Onewire.Search.{SearchState, begin, reset_search, search}
use esp_ac_dimmer.Onewire.Search.State.{IsValid, reset_search-IsValid}
use mathlib.Core.List.{Mem, mem-cons_self, mem-cons_of_mem}
use esp_ac_dimmer.Onewire.Enumeration.{following}
use esp_ac_dimmer.Onewire.Search.{target_search}
use esp_ac_dimmer.Onewire.Search.Network.Target.{search-target_search}
use esp_ac_dimmer.Onewire.Search.Network.Calls.{Found, Started, Position, search-found, search-none}
use esp_ac_dimmer.Main.{TempMsg, Pass, passes}
use esp_ac_dimmer.Main.Kept.{IsUndisturbed}
use esp_ac_dimmer.Main.Rounds.{IsRound, passes-IsRound, passes-rounds}
use esp_ac_dimmer.Main.Examples.Sensors.{
  sensors, Slot, Activity, Wire, pulled_low, sent, after_slot, drive, wait, wire, idle, answered,
  IsQuiet, floating, driven_high, waiting, command_bits, searching, bit_slot, complement_slot,
  direction_slot,
}
use esp_ac_dimmer.Main.Examples.Laws.{
  reset-IsQuiet, read_bit-IsQuiet, write_bit-IsQuiet, float-IsQuiet, network,
}

abbrev no_delay : ℕ → Wire → Wire
no_delay t w = w

abbrev no_send : TempMsg → Wire → Wire
no_send msg w = w

network_undisturbed : IsUndisturbed wire no_delay no_send IsQuiet
network_undisturbed = record {
  line = record {
    by_write = write_bit-IsQuiet;
    by_read = read_bit-IsQuiet;
    by_float = float-IsQuiet;
    by_reset = reset-IsQuiet;
  };
  by_delay = λ t w q. q;
  by_send = λ msg w q. q;
}

sensors_lem : All IsDevice sensors
sensors_lem = (
  record { bytes = record { eight = refl; bytes = ground arith }; family = ground arith },
  (record { bytes = record { eight = refl; bytes = ground arith }; family = ground arith }, tt),
)

abbrev new_search : SearchState
new_search = record {
  rom_no = replicate 8 0;
  last_discrepancy = 0;
  last_family_discrepancy = 0;
  last_device_flag = false;
}

new_search-IsValid : IsValid new_search
unfolding reset_search
new_search-IsValid = reset_search-IsValid new_search

new_search-Started : Started wire network sensors_lem new_search (ordered 64 (map rom_path sensors))
new_search-Started = record { discrepancy = refl; unfinished = refl; to_come = refl }

idle-IsQuiet : IsQuiet idle
idle-IsQuiet = floating false 0 waiting

-- The sensor with the number 2 comes first: its first bit that differs is 0.
abbrev first_path : List Bool
unfolding rom_path
first_path = rom_path (0x28 ∷ 2 ∷ 0 ∷ 0 ∷ 0 ∷ 0 ∷ 0 ∷ 0x70 ∷ [])

abbrev other_paths : List (List Bool)
unfolding rom_path
other_paths = rom_path (0x28 ∷ 1 ∷ 0 ∷ 0 ∷ 0 ∷ 0 ∷ 0 ∷ 0x29 ∷ []) ∷ []

both_to_come : first_path ∷ other_paths ≡ ordered 64 (map rom_path sensors)
unfolding ordered rom_path path_of
both_to_come = refl

search-found_example :
    (rom : List ℕ) × (s' : SearchState) × (w' : Wire) × (search wire new_search true idle
      ≡ some (some rom, s', w'))
    × IsDevice rom
    × (rom_path rom ≡ first_path)
    × IsValid s'
    × Position wire network sensors_lem s' other_paths
    × IsQuiet w'
search-found_example =
    search-found wire network sensors_lem new_search idle first_path other_paths new_search-IsValid
      idle-IsQuiet (inl (record { discrepancy = refl; unfinished = refl; to_come = both_to_come }))

begin-IsQuiet : IsQuiet (begin wire new_search idle).1
unfolding begin
begin-IsQuiet = idle-IsQuiet

passes-rounds_example :
    (rounds : List (List Pass)) × (s' : SearchState) × (w' : Wire) × (length rounds ≡ 3)
    × (passes wire no_delay no_send []
          (3 * suc (length (ordered 64 (map rom_path sensors))))
          (begin wire new_search idle).0
          (begin wire new_search idle).1
        ≡ some (flatten rounds, s', w'))
    × All (IsRound sensors) rounds
passes-rounds_example =
    passes-rounds wire no_delay no_send [] network sensors_lem network_undisturbed 3 new_search idle
      begin-IsQuiet

abbrev second_sensor : List ℕ
second_sensor = 0x28 ∷ 2 ∷ 0 ∷ 0 ∷ 0 ∷ 0 ∷ 0 ∷ 0x70 ∷ []

second_sensor-mem : Mem second_sensor sensors
second_sensor-mem = mem-cons_of_mem (0x28 ∷ 1 ∷ 0 ∷ 0 ∷ 0 ∷ 0 ∷ 0 ∷ 0x29 ∷ []) mem-cons_self

search-target_search_example :
    (rom : List ℕ) × (s' : SearchState) × (w' : Wire) × (search wire
        (target_search 0x28 new_search)
        true
        idle
      ≡ some (some rom, s', w'))
    × Mem rom sensors
    × (get_or rom 0 0 ≡ 0x28)
    × IsValid s'
    × Found wire network sensors_lem s' (following (map rom_path sensors) (rom_path rom))
    × IsQuiet w'
search-target_search_example =
    search-target_search wire network sensors_lem new_search idle second_sensor idle-IsQuiet
      sensors_lem.1.0 second_sensor-mem
