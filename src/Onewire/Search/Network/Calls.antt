-- ===== src/Onewire/Search/Network/Calls.antt =====
-- Each call of `search` finds the next device, until there is none.
use esp_ac_dimmer.Prelude.{
  subst, ℕ, ◌≡◌, ◌⊎◌, refl, sym, ap, ◌∙◌, inl, inr, arith, ◌==◌, ==_iff, Bool, true, false, not,
  List, [], ◌∷◌, map, is_empty, All, none, some, Bool-cases,
}
use esp_ac_dimmer.Onewire.Line.{Callbacks, reset, write}
use esp_ac_dimmer.Onewire.Search.{SearchState, clear_counters, loop_start, loop_result, search}
use esp_ac_dimmer.Onewire.Search.Termination.{IsRom}
use esp_ac_dimmer.Onewire.Search.RomBits.{rom_path, rom_path-injective}
use esp_ac_dimmer.Onewire.Search.State.{IsValid, loop_start-At, search_after_last}
use esp_ac_dimmer.Onewire.Enumeration.{ordered, following, last_zero_of, walk}
use esp_ac_dimmer.Onewire.Enumeration.Walk.{
  AllOf, IsPath, walk-IsPath, IsPath-nonempty, ordered-empty,
}
use esp_ac_dimmer.Onewire.Enumeration.Next.{walk_first, walk_next, following_none}
use esp_ac_dimmer.Onewire.Search.Network.{Network}
use esp_ac_dimmer.Onewire.Search.Network.Loop.{search_loop-Walked}
use esp_ac_dimmer.Onewire.Search.Network.Present.{
  IsDevice, DevicePath, IsPath-All, paths-DevicePath, paths-AllOf, rom_path-length,
  loop_result-full, search_through, search_absent,
}

is_empty-map {ℓ κ} :
    {A : Type ℓ} {B : Type κ} (f : A → B) (xs : List A) → is_empty (map f xs) ≡ is_empty xs
is_empty-map f [] = refl
is_empty-map f (x ∷ xs) = refl

cons_parts {ℓ} : {A : Type ℓ} (a b : A) (xs ys : List A) → a ∷ xs ≡ b ∷ ys → (a ≡ b) × (xs ≡ ys)
cons_parts a b xs ys e = (cc, cc)

module _ {W : Type 0} (cb : Callbacks W) (net : Network cb)
    (devices_lem : All IsDevice net.devices) where
  open net use {devices, Attached, Searching, present, ready, command}

  abbrev pub paths : List (List Bool)
  paths = map rom_path devices

  -- At the start: no discrepancy is known and all the paths are to come.
  pub record Started (s : SearchState) (rest : List (List Bool)) : Type 0 where
    pub discrepancy : s.last_discrepancy ≡ 0
    pub unfinished : s.last_device_flag ≡ false
    pub to_come : rest ≡ ordered 64 paths

  -- After a device was found: those behind its path are to come.
  pub record Found (s : SearchState) (rest : List (List Bool)) : Type 0 where
    pub on_path : IsPath paths (rom_path s.rom_no)
    pub discrepancy : s.last_discrepancy ≡ last_zero_of 1 paths (rom_path s.rom_no) 0
    pub finished : s.last_device_flag ≡ (s.last_discrepancy == 0)
    pub to_come : rest ≡ following paths (rom_path s.rom_no)

  abbrev pub Position : SearchState → List (List Bool) → Type 0
  Position s rest = Started s rest ⊎ Found s rest

  all_paths : AllOf 64 paths
  all_paths = paths-AllOf devices devices_lem

  nonempty :
      (p : List Bool) (rest : List (List Bool))
      → p ∷ rest ≡ ordered 64 paths
      → is_empty paths ≡ false
  nonempty p rest e = elim (Bool-cases (is_empty paths)) [
    | inr some_left ↦ some_left
    | inl z ↦ let none_left = ordered-empty 64 paths z in cc
  ]

  -- The path that the search takes is the first one to come.
  next_path :
      (s : SearchState) (p : List Bool) (rest : List (List Bool))
      → IsValid s
      → Position s (p ∷ rest)
      → let path = walk s.last_discrepancy 1 (rom_path s.rom_no) paths in
        (s.last_device_flag ≡ false)
        × (is_empty paths ≡ false)
        × (p ∷ rest ≡ path ∷ following paths path)
  next_path s p rest v (inl at) =
      let some_left = nonempty p rest at.to_come in
      let len = rom_path-length s.rom_no v.rom in
      let first =
        walk_first s.last_discrepancy 1 (rom_path s.rom_no) paths (rw len all_paths) some_left
          (omega (arith, at.discrepancy)) in
      (at.unfinished, some_left, at.to_come ∙ rw len at first)
  next_path s p rest v (inr at) = elim (Bool-cases (s.last_discrepancy == 0)) [
    | inl z ↦
        let none_left =
          following_none 1 (rom_path s.rom_no) paths 0 (omega arith)
            (sym at.discrepancy ∙ (==_iff s.last_discrepancy 0).0 z) in
        let nothing : p ∷ rest ≡ [] = at.to_come ∙ none_left in cc
    | inr z ↦
        let len = rom_path-length s.rom_no v.rom in
        let next =
          walk_next s.last_discrepancy 1 (rom_path s.rom_no) paths 0 (rw len all_paths) at.on_path
            (omega arith) (ground arith) (sym at.discrepancy) in
        (at.finished ∙ z, IsPath-nonempty paths (rom_path s.rom_no) at.on_path, at.to_come ∙ next)
  ]

  someone : (w : W) → Attached w → is_empty paths ≡ false → (reset cb w).0 ≡ true
  someone w here some_left =
      present w here ∙ ap not (sym (is_empty-map rom_path devices) ∙ some_left)

  -- A device's path is the device's only.
  found_device : (rom : List ℕ) → IsRom rom → IsPath paths (rom_path rom) → IsDevice rom
  found_device rom r p =
      let (device, d, same) =
        IsPath-All DevicePath (rom_path rom) paths (rw (rom_path-length rom r) all_paths)
          (paths-DevicePath devices devices_lem) p in
      subst IsDevice (rom_path-injective device rom d.bytes.bytes r.bytes same) d

  -- From a valid state, with devices on the wire, a call of `search` that is not past the last device finds the
  -- device at the end of its walk, and is at the position behind it.
  pub search-walks :
      (s : SearchState) (w : W)
      → IsValid s
      → Attached w
      → s.last_device_flag ≡ false
      → is_empty paths ≡ false
      → let path = walk s.last_discrepancy 1 (rom_path s.rom_no) paths in
        (rom : List ℕ) × (s' : SearchState) × (w' : W) × (search cb s true w
          ≡ some (some rom, s', w'))
        × IsDevice rom
        × (rom_path rom ≡ path)
        × IsPath paths (rom_path rom)
        × IsValid s'
        × Found s' (following paths path)
        × Attached w'
  search-walks s w v here unfinished some_left =
      let len = rom_path-length s.rom_no v.rom in
      let last = s.last_discrepancy in
      let path = walk last 1 (rom_path s.rom_no) paths in
      let (l, w', runs, walked) =
        search_loop-Walked cb net 64 last 0 (loop_start s) (write cb 0xF0 false (reset cb w).1)
          paths [] (rom_path s.rom_no) (omega arith) (omega arith) (loop_start-At s v) refl len refl
          all_paths some_left (command w here) in
      let s' = (loop_result s l).1 in
      let (found, kept, discrepancy, flag, family) = loop_result-full s l walked.at unfinished in
      let rom_is : rom_path s'.rom_no ≡ path = ap rom_path kept ∙ walked.path in
      let bytes : IsRom s'.rom_no = subst IsRom (sym kept) walked.at.rom in
      let on_path : IsPath paths (rom_path s'.rom_no) =
        subst (IsPath paths) (sym rom_is)
          (walk-IsPath last 1 (rom_path s.rom_no) paths (rw len all_paths) some_left) in
      let device = found_device s'.rom_no bytes on_path in
      (
        s'.rom_no,
        s',
        w',
        search_through cb s w l w' unfinished (someone w here some_left) runs device.family found,
        device,
        rom_is,
        on_path,
        record {
          rom = bytes;
          discrepancy = omega (arith, discrepancy, walked.at.zeros);
          family = omega (arith, family, walked.at.family);
        },
        record {
          on_path = on_path;
          discrepancy =
              discrepancy
              ∙ (walked.zero_at ∙ ap (λ (r : List Bool). last_zero_of 1 paths r 0) (sym rom_is));
          finished = flag ∙ ap (λ (n : ℕ). n == 0) (sym discrepancy);
          to_come = ap (following paths) (sym rom_is);
        },
        walked.attached,
      )

  -- The devices keep to the search protocol, and have eight bytes and a family code. Then, at a position
  -- of an enumeration with some path to come, a call of `search` answers the address of the first of
  -- them, and is at the position where the others are to come.
  pub search-found :
      (s : SearchState) (w : W) (p : List Bool) (rest : List (List Bool))
      → IsValid s
      → Attached w
      → Position s (p ∷ rest)
      → (rom : List ℕ) × (s' : SearchState) × (w' : W) × (search cb s true w
          ≡ some (some rom, s', w'))
        × IsDevice rom
        × (rom_path rom ≡ p)
        × IsValid s'
        × Position s' rest
        × Attached w'
  search-found s w p rest v here at =
      let (unfinished, some_left, next) = next_path s p rest v at in
      let path = walk s.last_discrepancy 1 (rom_path s.rom_no) paths in
      let (rom, s', w', answers, device, rom_is, on_path, valid, found, attached) =
        search-walks s w v here unfinished some_left in
      let head_tail = cons_parts p path rest (following paths path) next in
      let position : Position s' rest = inr (subst (Found s') (sym head_tail.1) found) in
      (rom, s', w', answers, device, rom_is ∙ sym head_tail.0, valid, position, attached)

  -- When no path is to come, a call of `search` answers that there is no device, and the next call
  -- starts from the first path again.
  pub search-none :
      (s : SearchState) (w : W)
      → IsValid s
      → Attached w
      → Position s []
      → (w' : W) × (search cb s true w ≡ some (none, clear_counters s, w'))
        × Attached w'
        × Started (clear_counters s) (ordered 64 paths)
  search-none s w v here (inl at) = elim (Bool-cases (is_empty paths)) [
    | inl nobody ↦
        let absent : (reset cb w).0 ≡ false =
          present w here ∙ ap not (sym (is_empty-map rom_path devices) ∙ nobody) in
        (
          (reset cb w).1,
          search_absent cb s w at.unfinished absent,
          ready w here,
          record { discrepancy = refl; unfinished = refl; to_come = refl },
        )
    | inr some_left ↦
        let len = rom_path-length s.rom_no v.rom in
        let first =
          walk_first s.last_discrepancy 1 (rom_path s.rom_no) paths (rw len all_paths) some_left
            (omega (arith, at.discrepancy)) in
        let nothing : ordered 64 paths ≡ [] = sym at.to_come in
        let something = rw len at first in cc
  ]
  search-none s w v here (inr at) = elim (Bool-cases (s.last_discrepancy == 0)) [
    | inl z ↦ (
      w,
      search_after_last cb s true w (at.finished ∙ z),
      here,
      record { discrepancy = refl; unfinished = refl; to_come = refl },
    )
    | inr z ↦
        let len = rom_path-length s.rom_no v.rom in
        let next =
          walk_next s.last_discrepancy 1 (rom_path s.rom_no) paths 0 (rw len all_paths) at.on_path
            (omega arith) (ground arith) (sym at.discrepancy) in
        let nothing : following paths (rom_path s.rom_no) ≡ [] = sym at.to_come in cc
  ]
