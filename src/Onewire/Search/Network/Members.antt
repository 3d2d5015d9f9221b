-- ===== src/Onewire/Search/Network/Members.antt =====
-- The devices whose paths `ordered` has are the devices on the wire.
use esp_ac_dimmer.Prelude.{ℕ, ◌≡◌, ◌↔◌, refl, sym, Bool, List, [], ◌∷◌, map, All}
use mathlib.Core.Logic.Or
use mathlib.Core.List.{
  Mem, Mem-prop, mem-cons, mem-cons_self, mem-cons_of_mem, not-mem-nil, mem-map_of_mem,
}
use esp_ac_dimmer.Prelude.{subst}
use esp_ac_dimmer.Onewire.Search.RomBits.{rom_path, rom_path-injective}
use esp_ac_dimmer.Onewire.Enumeration.{ordered}
use esp_ac_dimmer.Onewire.Enumeration.Walk.{IsPath}
use esp_ac_dimmer.Onewire.Enumeration.Members.{ordered-IsPath, IsPath-mem-ordered, mem-IsPath}
use esp_ac_dimmer.Onewire.Search.Network.Present.{
  IsDevice, IsPath-All, paths-AllOf, rom_path-length,
}

-- What holds of all the elements may be used of one of them.
All-mem {ℓ κ μ} :
    {A : Type ℓ} (P : A → Type κ) {Q : Type μ}
    → IsProp Q
    → (a : A) (as' : List A) → All P as'
    → Mem a as'
    → (P a → Q)
    → Q
All-mem P prop a [] all m use_it = absurd (not-mem-nil m)
All-mem P prop a (b ∷ as') all m use_it =
    Or.elim prop (mem-cons.0 m) (λ e. use_it (subst P (sym e) all.0))
      (λ m'. All-mem P prop a as' all.1 m' use_it)

same_device :
    (rom rom' : List ℕ) → IsDevice rom → IsDevice rom' → rom_path rom ≡ rom_path rom' → rom ≡ rom'
same_device rom rom' d d' e = rom_path-injective rom rom' d.bytes.bytes d'.bytes.bytes e

mem-of_path :
    (rom : List ℕ) (roms : List (List ℕ))
    → IsDevice rom
    → All IsDevice roms
    → Mem (rom_path rom) (map rom_path roms)
    → Mem rom roms
mem-of_path rom [] d all m = absurd (not-mem-nil m)
mem-of_path rom (r ∷ roms) d all m =
    Or.elim Mem-prop (mem-cons.0 m) (λ e. rw (same_device rom r d all.0 e) mem-cons_self)
      (λ m'. mem-cons_of_mem r (mem-of_path rom roms d all.1 m'))

module _ (devices : List (List ℕ)) (devices_lem : All IsDevice devices) where
  -- A path that belongs to a device on the wire.
  MemberPath : List Bool → Type 0
  MemberPath q = (rom : List ℕ) × IsDevice rom × Mem rom devices × (rom_path rom ≡ q)

  MemberPath-map :
      (ds : List (List ℕ))
      → All IsDevice ds
      → ((rom : List ℕ) → Mem rom ds → Mem rom devices)
      → All MemberPath (map rom_path ds)
  unfolding MemberPath
  MemberPath-map [] all part = tt
  MemberPath-map (d ∷ ds) all part = (
    (d, all.0, part d mem-cons_self, refl),
    MemberPath-map ds all.1 (λ rom m. part rom (mem-cons_of_mem d m)),
  )

  pub mem-of_IsPath :
      (rom : List ℕ) → IsDevice rom → IsPath (map rom_path devices) (rom_path rom) → Mem rom devices
  unfolding MemberPath
  mem-of_IsPath rom d p =
      let (rom', d', m, e) =
        IsPath-All MemberPath (rom_path rom) (map rom_path devices)
          (rw (rom_path-length rom d.bytes) (paths-AllOf devices devices_lem))
          (MemberPath-map devices devices_lem (λ r m. m)) p in
      subst (λ r. Mem r devices) (same_device rom' rom d' d e) m

  mem-of_found :
      (rom : List ℕ) (roms : List (List ℕ))
      → All IsDevice roms
      → All (IsPath (map rom_path devices)) (map rom_path roms)
      → Mem rom roms
      → Mem rom devices
  mem-of_found rom [] all on_path m = absurd (not-mem-nil m)
  mem-of_found rom (r ∷ roms) all on_path m =
      Or.elim Mem-prop (mem-cons.0 m) (λ e. rw e (mem-of_IsPath r all.0 on_path.0))
        (λ m'. mem-of_found rom roms all.1 on_path.1 m')

  -- Addresses with all the paths of the devices are the addresses of the devices.
  pub mem-of_ordered :
      (roms : List (List ℕ))
      → All IsDevice roms
      → map rom_path roms ≡ ordered 64 (map rom_path devices)
      → (rom : List ℕ) → Mem rom roms ↔ Mem rom devices
  mem-of_ordered roms all e rom = (
    mem-of_found rom roms all (
        subst (All (IsPath (map rom_path devices))) (sym e)
          (ordered-IsPath 64 (map rom_path devices))),
    λ m. All-mem IsDevice Mem-prop rom devices devices_lem m (λ d.
        let on_path =
          mem-IsPath (rom_path rom) (map rom_path devices) (mem-map_of_mem rom_path m) in
        let there = IsPath-mem-ordered (rom_path rom) (map rom_path devices) on_path in
        mem-of_path rom roms d all (
          subst (λ ps. Mem (rom_path rom) ps) (sym e) (rw (rom_path-length rom d.bytes) at there))),
  )
