-- ===== src/Onewire/Search/Network/Present.antt =====
-- A call of `search` in which some device answers, and the paths of the devices.
use esp_ac_dimmer.Prelude.{
  ℕ, ◌≡◌, ◌≢◌, refl, ap, ◌∙◌, arith, ltb, ◌==◌, if◌then◌else◌, Bool, true, false, List, [], ◌∷◌,
  map, length, get_or, All, Option, none, some,
}
use mathlib.Core.Bool.{false≢true}
use esp_ac_dimmer.Onewire.Line.{Callbacks, reset, write}
use esp_ac_dimmer.Onewire.Search.{
  SearchState, SearchLoop, clear_counters, loop_start, loop_result, search_end, search_loop, search,
}
use esp_ac_dimmer.Onewire.Search.Termination.{IsRom, At}
use esp_ac_dimmer.Onewire.Search.RomBits.{rom_path, length-rom_path}
use esp_ac_dimmer.Onewire.Enumeration.{branch}
use esp_ac_dimmer.Onewire.Enumeration.Walk.{AllOf, IsPath, branch-AllOf}

-- A ROM number as the search needs it: eight bytes, and a family code that is not 0.
pub record IsDevice (rom : List ℕ) : Type 0 where
  pub bytes : IsRom rom
  pub family : get_or rom 0 0 ≢ 0

branch-All :
    (P : List Bool → Type 0) (b : Bool) (ds : List (List Bool))
    → All P ds
    → All (λ q. P (b ∷ q)) (branch b ds)
unfolding branch
branch-All P b [] h = tt
branch-All P b ([] ∷ ds) h = branch-All P b ds h.1
branch-All P true ((true ∷ p) ∷ ds) h = (h.0, branch-All P true ds h.1)
branch-All P true ((false ∷ p) ∷ ds) h = branch-All P true ds h.1
branch-All P false ((true ∷ p) ∷ ds) h = branch-All P false ds h.1
branch-All P false ((false ∷ p) ∷ ds) h = (h.0, branch-All P false ds h.1)

-- What holds of the devices' paths holds of a path that some device goes.
pub IsPath-All :
    (P : List Bool → Type 0) (r : List Bool) (ds : List (List Bool))
    → AllOf (length r) ds
    → All P ds
    → IsPath ds r
    → P r
IsPath-All P [] [] len all p = cc
IsPath-All P [] ([] ∷ ds) len all p = all.0
IsPath-All P [] ((c ∷ q) ∷ ds) len all p = absurd (omega (arith, len.0))
IsPath-All P (b ∷ r) ds len all p =
    IsPath-All (λ q. P (b ∷ q)) r (branch b ds) (branch-AllOf (length r) b ds len)
      (branch-All P b ds all) p

-- A path that belongs to a device.
abbrev pub DevicePath : List Bool → Type 0
DevicePath q = (rom : List ℕ) × IsDevice rom × (rom_path rom ≡ q)

pub paths-DevicePath :
    (devices : List (List ℕ)) → All IsDevice devices → All DevicePath (map rom_path devices)
paths-DevicePath [] h = tt
paths-DevicePath (rom ∷ devices) h = ((rom, h.0, refl), paths-DevicePath devices h.1)

pub rom_path-length : (rom : List ℕ) → IsRom rom → length (rom_path rom) ≡ 64
rom_path-length rom r = omega (arith, length-rom_path rom, r.eight)

pub paths-AllOf : (devices : List (List ℕ)) → All IsDevice devices → AllOf 64 (map rom_path devices)
paths-AllOf [] h = tt
paths-AllOf (rom ∷ devices) h = (rom_path-length rom h.0.bytes, paths-AllOf devices h.1)

-- After all 64 bits.
pub loop_result-full :
    (s : SearchState) (l : SearchLoop)
    → At 64 64 l
    → s.last_device_flag ≡ false
    → let r = loop_result s l in
      (r.0 ≡ true)
      × (r.1.rom_no ≡ l.rom_no)
      × (r.1.last_discrepancy ≡ l.last_zero)
      × (r.1.last_device_flag ≡ (l.last_zero == 0))
      × (r.1.last_family_discrepancy ≡ l.last_family_discrepancy)
unfolding loop_result
loop_result-full s l a f =
    let all : ltb l.id_bit_number 65 ≡ false = ground (arith, a.number) in
    rw all (refl, refl, refl, ground arith, refl)

search_end-found :
    (found : Bool) (s : SearchState)
    → found ≡ true
    → get_or s.rom_no 0 0 ≢ 0
    → search_end (found, s) ≡ (some s.rom_no, s)
unfolding search_end
search_end-found true s e h =
    let family : (get_or s.rom_no 0 0 == 0) ≡ false = ground arith in rw family refl
search_end-found false s e h = absurd (false≢true e)

module _ {W : Type 0} (cb : Callbacks W) where
  -- What `search` answers after its loop.
  after_loop : SearchState → Option (SearchLoop × W) → Option (Option (List ℕ) × SearchState × W)
  after_loop s none = none
  after_loop s (some (l, w')) =
      some ((search_end (loop_result s l)).0, (search_end (loop_result s l)).1, w')

  search-unfinished :
      (s : SearchState) (w : W)
      → s.last_device_flag ≡ false
      → search cb s true w ≡ (
          if (reset cb w).0
          then after_loop s (
              search_loop cb 64 s.last_discrepancy
                (loop_start s)
                (write cb 0xF0 false (reset cb w).1))
          else some (none, clear_counters s, (reset cb w).1))
  unfolding search after_loop
  search-unfinished s w f =
      ap
        (λ (flag : Bool).
          if flag
          then some ((search_end (false, s)).0, (search_end (false, s)).1, w)
          else if (reset cb w).0
          then after_loop s (
              search_loop cb 64 s.last_discrepancy (loop_start s)
                (write cb 0xF0 false (reset cb w).1))
          else some (none, clear_counters s, (reset cb w).1))
        f

  pub search_through :
      (s : SearchState) (w : W) (l : SearchLoop) (w' : W)
      → s.last_device_flag ≡ false
      → (reset cb w).0 ≡ true
      → search_loop cb 64 s.last_discrepancy (loop_start s) (write cb 0xF0 false (reset cb w).1)
        ≡ some (l, w')
      → get_or (loop_result s l).1.rom_no 0 0 ≢ 0
      → (loop_result s l).0 ≡ true
      → search cb s true w ≡ some (some (loop_result s l).1.rom_no, (loop_result s l).1, w')
  unfolding after_loop
  search_through s w l w' f present runs family found =
      search-unfinished s w f
      ∙ rw (present, runs, search_end-found (loop_result s l).0 (loop_result s l).1 found family)
          refl

  pub search_absent :
      (s : SearchState) (w : W)
      → s.last_device_flag ≡ false
      → (reset cb w).0 ≡ false
      → search cb s true w ≡ some (none, clear_counters s, (reset cb w).1)
  search_absent s w f absent = search-unfinished s w f ∙ rw absent refl
