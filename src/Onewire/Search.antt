-- ===== src/Onewire/Search.antt =====
-- `OneWire::search`, `reset_search` and `target_search` of src/components/onewire/src/onewire.cpp.
pub mod Termination
pub mod RomBits
pub mod State
pub mod Kept
pub mod Network
mod Examples
use esp_ac_dimmer.Prelude.{
  ℕ, zero, suc, ◌+◌, ◌-◌, ◌*◌, ◌/◌, ◌%◌, ◌^◌, ◌==◌, ltb, if◌then◌else◌, bit_and, bit_or, Bool, true,
  false, not, ◌&&◌, ◌||◌, List, [], ◌∷◌, Option, none, some, get_or, set, replicate,
}
use esp_ac_dimmer.Onewire.Line.{input, Callbacks, reset, write, read_bit, write_bit}

-- The search state of a `OneWire`: ROM_NO, LastDiscrepancy, LastFamilyDiscrepancy, LastDeviceFlag.
pub record SearchState : Type 0 where
  pub rom_no : List ℕ
  pub last_discrepancy : ℕ
  pub last_family_discrepancy : ℕ
  pub last_device_flag : Bool

-- It ignores the state that it resets.
unfoldable pub reset_search : SearchState → SearchState
reset_search s = record {
  rom_no = replicate 8 0;
  last_discrepancy = 0;
  last_family_discrepancy = 0;
  last_device_flag = false;
}

-- `begin`, which the constructor calls.
unfoldable pub begin : {W : Type 0} → Callbacks W → SearchState → W → SearchState × W
unfolding reset_search
begin cb s w = (reset_search s, cb.set_pin_mode input w)

pub target_search : ℕ → SearchState → SearchState
target_search family_code s = record {
  rom_no = family_code ∷ replicate 7 0;
  last_discrepancy = 64;
  last_family_discrepancy = 0;
  last_device_flag = false;
}

-- The counters that a failed search resets; ROM_NO stays as it is.
abbrev pub clear_counters : SearchState → SearchState
clear_counters s = record s {
  last_discrepancy = 0;
  last_family_discrepancy = 0;
  last_device_flag = false;
}

-- The variables of the loop, with the members that it changes.
pub record SearchLoop : Type 0 where
  pub id_bit_number : ℕ
  pub last_zero : ℕ
  pub rom_byte_number : ℕ
  pub rom_byte_mask : ℕ
  pub rom_no : List ℕ
  pub last_family_discrepancy : ℕ

abbrev pub loop_start : SearchState → SearchLoop
loop_start s = record {
  id_bit_number = 1;
  last_zero = 0;
  rom_byte_number = 0;
  rom_byte_mask = 1;
  rom_no = s.rom_no;
  last_family_discrepancy = s.last_family_discrepancy;
}

-- `search_direction` where the devices disagree, by LastDiscrepancy.
pub discrepancy_direction : ℕ → SearchLoop → ℕ
discrepancy_direction last_discrepancy l =
    if ltb l.id_bit_number last_discrepancy
    then (if ltb 0 (bit_and (get_or l.rom_no l.rom_byte_number 0) l.rom_byte_mask) then 1 else 0)
    else (if l.id_bit_number == last_discrepancy then 1 else 0)

-- `last_zero` and LastFamilyDiscrepancy where the direction 0 is picked at a discrepancy.
pub record_zero : SearchLoop → SearchLoop
record_zero l = record l {
  last_zero = l.id_bit_number;
  last_family_discrepancy =
      if ltb l.id_bit_number 9 then l.id_bit_number else l.last_family_discrepancy;
}

-- The bit of ROM_NO, and the step to the next bit.
pub store_bit : ℕ → SearchLoop → SearchLoop
store_bit direction l =
    let byte = get_or l.rom_no l.rom_byte_number 0 in
    let byte' =
      if direction == 1
      then bit_or byte l.rom_byte_mask
      else bit_and byte (255 - l.rom_byte_mask) in
    record l { rom_no = set l.rom_no l.rom_byte_number byte' }

pub next_bit : SearchLoop → SearchLoop
next_bit l =
    let mask = l.rom_byte_mask * 2 % 2 ^ 8 in
    if mask == 0
    then record l {
      id_bit_number = (l.id_bit_number + 1) % 2 ^ 8;
      rom_byte_number = (l.rom_byte_number + 1) % 2 ^ 8;
      rom_byte_mask = 1;
    }
    else record l { id_bit_number = (l.id_bit_number + 1) % 2 ^ 8; rom_byte_mask = mask }

-- The direction for the two bits read, and the loop's variables after the choice.
pub choose : ℕ → ℕ → ℕ → SearchLoop → ℕ × SearchLoop
unfolding discrepancy_direction record_zero
choose last_discrepancy id_bit cmp_id_bit l =
    if id_bit == cmp_id_bit
    then (let direction = discrepancy_direction last_discrepancy l in
        (direction, if direction == 0 then record_zero l else l))
    else (id_bit, l)

-- What `search` does after the loop: its result and the state.
pub loop_result : SearchState → SearchLoop → Bool × SearchState
loop_result s l =
    let s' = record s { rom_no = l.rom_no; last_family_discrepancy = l.last_family_discrepancy } in
    if ltb l.id_bit_number 65 then (false, s') else (
      true,
      record s' {
        last_discrepancy = l.last_zero;
        last_device_flag = if l.last_zero == 0 then true else s.last_device_flag;
      },
    )

-- The end of `search`: the address that it stores, or `none`, and the state.
pub search_end : Bool × SearchState → Option (List ℕ) × SearchState
search_end (found, s) =
    if not found || (get_or s.rom_no 0 0 == 0) then (none, clear_counters s) else (some s.rom_no, s)

abbrev pub search_fuel : ℕ
search_fuel = 64

module _ {W : Type 0} (cb : Callbacks W) where
  -- The `do … while` loop with at most so many rounds; `none` when they run out.
  pub search_loop : ℕ → ℕ → SearchLoop → W → Option (SearchLoop × W)
  unfolding choose store_bit next_bit
  search_loop zero last_discrepancy l w = none
  search_loop (suc fuel) last_discrepancy l w =
      let (id_bit, w₁) = read_bit cb w in
      let (cmp_id_bit, w₂) = read_bit cb w₁ in
      let (direction, l₁) = choose last_discrepancy id_bit cmp_id_bit l in
      let l₂ = next_bit (store_bit direction l₁) in
      let w₃ = write_bit cb direction w₂ in
      let rest = search_loop fuel last_discrepancy l₂ w₃ in
      if (id_bit == 1) && (cmp_id_bit == 1)
      then some (l, w₂)
      else if ltb l₂.rom_byte_number 8
      then rest
      else some (l₂, w₃)

  -- `OneWire::search`: the new address where it returns `true`, else `none`; the state; the wire. The
  -- outer option is the loop's.
  pub search : SearchState → Bool → W → Option (Option (List ℕ) × SearchState × W)
  unfolding search_loop loop_result search_end
  search s search_mode w =
      if s.last_device_flag
      then (let (addr, s') = search_end (false, s) in some (addr, s', w))
      else let (present, w₁) = reset cb w in
        if present
        then (let w₂ = write cb (if search_mode then 0xF0 else 0xEC) false w₁ in
            elim (search_loop search_fuel s.last_discrepancy (loop_start s) w₂) [
              | none ↦ none
              | some (l, w₃) ↦ let (addr, s') = search_end (loop_result s l) in some (addr, s', w₃)
            ])
        else some (none, clear_counters s, w₁)
