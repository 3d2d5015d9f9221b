-- ===== src/Onewire/Enumeration/Prefix.antt =====
-- Where the last discrepancy is far, the search follows the last path as long as some device does.
use esp_ac_dimmer.Prelude.{
  ℕ, ◌+◌, ◌≤◌, ◌<◌, ◌≡◌, refl, ap, arith, lt→ltb, Bool, true, false, List, [], ◌∷◌, ◌++◌, length,
  is_empty, Bool-cases, inl, inr,
}
use esp_ac_dimmer.Onewire.Enumeration.{branch, way, walk}
use esp_ac_dimmer.Onewire.Enumeration.Walk.{IsPath, IsPath-nonempty}

pub IsPath-prefix :
    (front rest : List Bool) (ds : List (List Bool)) → IsPath ds (front ++ rest) → IsPath ds front
IsPath-prefix [] rest ds h = IsPath-nonempty ds rest h
IsPath-prefix (b ∷ front) rest ds h = IsPath-prefix front rest (branch b ds) h

way_follows :
    (last pos : ℕ) (b : Bool) (ds : List (List Bool))
    → pos < last
    → is_empty (branch b ds) ≡ false
    → way last pos b ds ≡ b
unfolding way
way_follows last pos true ds h some_left = elim (Bool-cases (is_empty (branch false ds))) [
  | inl nobody ↦ rw nobody refl
  | inr somebody ↦ rw (somebody, some_left, lt→ltb pos last h) refl
]
way_follows last pos false ds h some_left = elim (Bool-cases (is_empty (branch true ds))) [
  | inl nobody ↦ rw (some_left, nobody) refl
  | inr somebody ↦ rw (some_left, somebody, lt→ltb pos last h) refl
]

pub walk_follows :
    (last pos : ℕ) (front rest : List Bool) (ds : List (List Bool))
    → pos + length front ≤ last
    → IsPath ds front
    → (tail : List Bool) × (walk last pos (front ++ rest) ds ≡ front ++ tail)
unfolding walk
walk_follows last pos [] rest ds h on_path = (walk last pos rest ds, refl)
walk_follows last pos (b ∷ front) rest ds h on_path =
    let follows =
      way_follows last pos b ds (omega (arith, h)) (IsPath-nonempty (branch b ds) front on_path) in
    let (tail, e) =
      walk_follows last (pos + 1) front rest (branch b ds) (omega (arith, h)) on_path in
    (tail, rw follows (ap (◌∷◌ b) e))
