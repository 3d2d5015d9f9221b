-- ===== src/Onewire/Search/Network/Target.antt =====
-- `target_search`: the next call of `search` finds a device of the family, if there is one.
use esp_ac_dimmer.Prelude.{
  ℕ, ◌<◌, ◌≡◌, refl, sym, subst, ◌∙◌, arith, Bool, true, false, List, [], ◌∷◌, ◌++◌, map, get_or,
  All, replicate, some,
}
use mathlib.Core.List.{Mem, mem-map_of_mem}
use esp_ac_dimmer.Onewire.Line.{Callbacks}
use esp_ac_dimmer.Onewire.Search.{SearchState, target_search, search}
use esp_ac_dimmer.Onewire.Search.RomBits.{
  rom_path, path_of, length-path_of, rom_path-family, rom_path-split,
}
use esp_ac_dimmer.Onewire.Search.State.{IsValid, target_search-IsValid}
use esp_ac_dimmer.Onewire.Enumeration.{following}
use esp_ac_dimmer.Onewire.Enumeration.Walk.{IsPath, IsPath-nonempty}
use esp_ac_dimmer.Onewire.Enumeration.Members.{mem-IsPath}
use esp_ac_dimmer.Onewire.Enumeration.Prefix.{IsPath-prefix, walk_follows}
use esp_ac_dimmer.Onewire.Search.Network.{Network}
use esp_ac_dimmer.Onewire.Search.Network.Present.{IsDevice}
use esp_ac_dimmer.Onewire.Search.Network.Members.{mem-of_IsPath}
use esp_ac_dimmer.Onewire.Search.Network.Calls.{Found, search-walks}

family-IsByte : (rom : List ℕ) → All (λ b. b < 256) rom → get_or rom 0 0 < 256
family-IsByte [] bytes = omega arith
family-IsByte (b ∷ rom) bytes = bytes.0

target_path :
    (family : ℕ) (s : SearchState)
    → rom_path (target_search family s).rom_no ≡ path_of 8 family ++ rom_path (replicate 7 0)
unfolding target_search rom_path
target_path family s = refl

target_flags :
    (family : ℕ) (s : SearchState)
    → ((target_search family s).last_device_flag ≡ false)
      × ((target_search family s).last_discrepancy ≡ 64)
unfolding target_search
target_flags family s = (refl, refl)

module _ {W : Type 0} (cb : Callbacks W) (net : Network cb)
    (devices_lem : All IsDevice net.devices) where
  open net use {devices, Attached}

  abbrev paths : List (List Bool)
  paths = map rom_path devices

  -- The bits of the family code are the beginning of some device's path.
  family-IsPath :
      (device : List ℕ)
      → IsDevice device
      → Mem device devices
      → IsPath paths (path_of 8 (get_or device 0 0))
  family-IsPath device d m =
      let (tail, e) = rom_path-split device (omega (arith, d.bytes.eight)) in
      IsPath-prefix (path_of 8 (get_or device 0 0)) tail paths
        (subst (IsPath paths) e (mem-IsPath (rom_path device) paths (mem-map_of_mem rom_path m)))

  -- The devices keep to the search protocol, and have eight bytes and a family code. If one of them has a family code,
  -- the call of `search` after `target_search` with that code, in whatever state it was, answers a
  -- device of that family. The calls after it find the devices behind that one.
  pub search-target_search :
      (s : SearchState) (w : W) (device : List ℕ)
      → Attached w
      → IsDevice device
      → Mem device devices
      → (rom : List ℕ) × (s' : SearchState) × (w' : W) × (search cb
            (target_search (get_or device 0 0) s)
            true
            w
          ≡ some (some rom, s', w'))
        × Mem rom devices
        × (get_or rom 0 0 ≡ get_or device 0 0)
        × IsValid s'
        × Found cb net devices_lem s' (following paths (rom_path rom))
        × Attached w'
  search-target_search s w device here d m =
      let family = get_or device 0 0 in
      let small = family-IsByte device d.bytes.bytes in
      let s₀ = target_search family s in
      let v : IsValid s₀ = target_search-IsValid family s small in
      let prefix = path_of 8 family in
      let on_path = family-IsPath device d m in
      let some_left = IsPath-nonempty paths prefix on_path in
      let (rom, s', w', answers, found_device, rom_is, found_path, valid, found, attached) =
        search-walks cb net devices_lem s₀ w v here (target_flags family s).0 some_left in
      let (tail, follows) =
        walk_follows 64 1 prefix (rom_path (replicate 7 0)) paths
          (omega (arith, length-path_of 8 family)) on_path in
      let begins : rom_path rom ≡ prefix ++ tail =
        rom_is ∙ rw ((target_flags family s).1, target_path family s) follows in
      (
        rom,
        s',
        w',
        answers,
        mem-of_IsPath devices devices_lem rom found_device found_path,
        rom_path-family rom family tail found_device.bytes.bytes
            (omega (arith, found_device.bytes.eight)) small begins,
        valid,
        subst (λ path. Found cb net devices_lem s' (following paths path)) (sym rom_is) found,
        attached,
      )
