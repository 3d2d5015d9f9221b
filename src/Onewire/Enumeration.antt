-- ===== src/Onewire/Enumeration.antt =====
-- The devices of a 1-Wire bus as the set of paths of a binary tree, and what the search of
-- src/components/onewire/src/onewire.cpp does on it: the specification of `OneWire::search`.
pub mod Walk
pub mod Next
pub mod Members
pub mod Prefix
use esp_ac_dimmer.Prelude.{
  ℕ, zero, suc, ◌+◌, ◌<◌, ◌≡◌, refl, ap, arith, ltb, ◌==◌, if◌then◌else◌, Bool, true, false, not,
  ◌&&◌, List, [], ◌∷◌, ◌++◌, map, length, is_empty, All,
}

-- What the devices that go on with bit `b` have still to send.
unfoldable pub branch : Bool → List (List Bool) → List (List Bool)
branch b [] = []
branch b ([] ∷ ds) = branch b ds
branch true ((true ∷ p) ∷ ds) = p ∷ branch true ds
branch true ((false ∷ p) ∷ ds) = branch true ds
branch false ((true ∷ p) ∷ ds) = branch false ds
branch false ((false ∷ p) ∷ ds) = p ∷ branch false ds

-- All the devices' paths of `n` bits, each once, in the order in which a bit 0 comes before a bit 1.
unfoldable pub ordered : ℕ → List (List Bool) → List (List Bool)
unfolding branch
ordered zero ds = if is_empty ds then [] else [] ∷ []
ordered (suc n) ds =
    let zeros = ordered n (branch false ds) in
    let ones = ordered n (branch true ds) in
    let both = map (◌∷◌ false) zeros ++ map (◌∷◌ true) ones in if is_empty ds then [] else both

-- Those that come after the path `r`.
pub following : List (List Bool) → List Bool → List (List Bool)
unfolding ordered
following ds [] = []
following ds (false ∷ r) =
    map (◌∷◌ false) (following (branch false ds) r)
    ++ map (◌∷◌ true) (ordered (length r) (branch true ds))
following ds (true ∷ r) = map (◌∷◌ true) (following (branch true ds) r)

-- The last position, counted from `pos`, at which the path goes to 0 and some device goes to 1.
unfoldable pub last_zero_of : ℕ → List (List Bool) → List Bool → ℕ → ℕ
unfolding branch
last_zero_of pos ds [] acc = acc
last_zero_of pos ds (false ∷ r) acc =
    last_zero_of (pos + 1) (branch false ds) r (if is_empty (branch true ds) then acc else pos)
last_zero_of pos ds (true ∷ r) acc = last_zero_of (pos + 1) (branch true ds) r acc

-- The way that the search goes on at a position, after the bit `b` on the last path.
unfoldable pub way : ℕ → ℕ → Bool → List (List Bool) → Bool
unfolding branch
way last pos b ds =
    if is_empty (branch false ds)
    then true
    else if is_empty (branch true ds)
    then false
    else if ltb pos last
    then b
    else pos == last

-- The path of the search after the path `r`, where `last` is the last discrepancy.
unfoldable pub walk : ℕ → ℕ → List Bool → List (List Bool) → List Bool
unfolding way
walk last pos [] ds = []
walk last pos (b ∷ r) ds = let d = way last pos b ds in d ∷ walk last (pos + 1) r (branch d ds)
