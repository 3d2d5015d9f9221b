-- ===== src/Onewire/Search/Network.antt =====
-- The devices at the other end of the wire, as what `OneWire::search` relies on: the 1-Wire search
-- protocol of their data sheets. It is the hardware's side, a parameter of the theorems.
pub mod Steps
pub mod Loop
pub mod Present
pub mod Calls
pub mod Members
pub mod Target
use esp_ac_dimmer.Prelude.{ℕ, ◌≡◌, Bool, true, false, not, List, map, is_empty}
use esp_ac_dimmer.Onewire.Line.{Callbacks, reset, write, read_bit, write_bit}
use esp_ac_dimmer.Onewire.Search.RomBits.{rom_path}
use esp_ac_dimmer.Onewire.Enumeration.{branch}

abbrev pub num : Bool → ℕ
num true = 1
num false = 0

-- `devices` are the ROM numbers of the devices on the wire. After a reset, to which they answer if there
-- are any, and the command 0xF0 all of them take part in a search. In each round of it the wire is
-- read low if a device sends 0, first of the devices' next bits, then of their complements; and the
-- devices whose bit is not the one that is then written take part no longer.
pub record Network {W : Type 0} (cb : Callbacks W) : Type 1 where
  pub devices : List (List ℕ)
  pub Attached : W → Type 0
  pub Searching : List (List Bool) → W → Type 0
  pub present : (w : W) → Attached w → (reset cb w).0 ≡ not (is_empty devices)
  pub ready : (w : W) → Attached w → Attached (reset cb w).1
  pub command :
      (w : W) → Attached w → Searching (map rom_path devices) (write cb 0xF0 false (reset cb w).1)
  pub first_bit :
      (ds : List (List Bool)) (w : W)
      → Searching ds w
      → (read_bit cb w).0 ≡ num (is_empty (branch false ds))
  pub second_bit :
      (ds : List (List Bool)) (w : W)
      → Searching ds w
      → (read_bit cb (read_bit cb w).1).0 ≡ num (is_empty (branch true ds))
  pub chosen :
      (ds : List (List Bool)) (w : W) (b : Bool)
      → Searching ds w
      → Searching (branch b ds) (write_bit cb (num b) (read_bit cb (read_bit cb w).1).1)
  pub still : (ds : List (List Bool)) (w : W) → Searching ds w → Attached w
