-- ===== src/Onewire/Search/Examples.antt =====
-- The theorems on `search` at a wire on which every bit reads 0.
use esp_ac_dimmer.Prelude.{
  ℕ, ◌+◌, ◌==◌, ◌||◌, ◌≡◌, arith, true, false, List, Option, some, replicate,
}
use esp_ac_dimmer.Onewire.Line.{Callbacks}
use esp_ac_dimmer.Onewire.Search.{SearchState, target_search, search}
use esp_ac_dimmer.Onewire.Search.State.{IsValid, Answer, target_search-IsValid, search-total}

-- The number of reads; the level at each read is that of a wire with a presence pulse, then low.
abbrev wire : Callbacks ℕ
wire = record {
  set_pin_mode = λ m n. n;
  read_pin_value = λ n. ((n == 0) || ((n == 1) || (n == 3)), n + 1);
  set_pin_value = λ b n. n;
  delay = λ t n. n;
  set_intr_mode = λ m n. n;
}

abbrev unsearched : SearchState
unsearched = record {
  rom_no = replicate 8 7;
  last_discrepancy = 0;
  last_family_discrepancy = 0;
  last_device_flag = false;
}

target_search-IsValid_example : IsValid (target_search 0x28 unsearched)
target_search-IsValid_example = target_search-IsValid 0x28 unsearched (omega arith)

search-total_example :
    (addr : Option (List ℕ)) × (s : SearchState) × (w : ℕ) × (search wire
        (target_search 0x28 unsearched)
        true
        0
      ≡ some (addr, s, w))
    × IsValid s
    × Answer addr s
search-total_example =
    search-total wire (target_search 0x28 unsearched) true 0 target_search-IsValid_example

abbrev finished : SearchState
finished = record unsearched { last_device_flag = true }
