-- ===== src/Onewire/Enumeration/Walk.antt =====
-- The search goes from each path to the next one.
use esp_ac_dimmer.Prelude.{
  ℕ, zero, suc, ◌+◌, ◌≤◌, ◌≡◌, ◌⊎◌, inl, inr, refl, ap, arith, ltb, ◌==◌, if◌then◌else◌, Bool, true,
  false, List, [], ◌∷◌, ◌++◌, map, length, is_empty, All, Bool-cases,
}
use mathlib.Core.Bool.{false≢true}
use esp_ac_dimmer.Onewire.Enumeration.{branch, ordered, last_zero_of, way, walk}

-- Some device goes along the whole path.
abbrev pub IsPath : List (List Bool) → List Bool → Type 0
IsPath ds [] = is_empty ds ≡ false
IsPath ds (b ∷ r) = IsPath (branch b ds) r

-- Every device sends `n` bits.
abbrev pub AllOf : ℕ → List (List Bool) → Type 0
AllOf n ds = All (λ d. length d ≡ n) ds

branch-nil : (b : Bool) → branch b [] ≡ []
unfolding branch
branch-nil b = refl

pub branch-AllOf :
    (n : ℕ) (b : Bool) (ds : List (List Bool)) → AllOf (suc n) ds → AllOf n (branch b ds)
unfolding branch
branch-AllOf n b [] h = tt
branch-AllOf n b ([] ∷ ds) h = absurd (omega (arith, h.0))
branch-AllOf n true ((true ∷ p) ∷ ds) h = (omega (arith, h.0), branch-AllOf n true ds h.1)
branch-AllOf n true ((false ∷ p) ∷ ds) h = branch-AllOf n true ds h.1
branch-AllOf n false ((true ∷ p) ∷ ds) h = branch-AllOf n false ds h.1
branch-AllOf n false ((false ∷ p) ∷ ds) h = (omega (arith, h.0), branch-AllOf n false ds h.1)

-- Someone goes on.
pub some_branch :
    (n : ℕ) (ds : List (List Bool))
    → AllOf (suc n) ds
    → is_empty ds ≡ false
    → is_empty (branch false ds) ≡ true
    → is_empty (branch true ds) ≡ false
unfolding branch
some_branch n [] h e z = e
some_branch n ([] ∷ ds) h e z = absurd (omega (arith, h.0))
some_branch n ((true ∷ p) ∷ ds) h e z = refl
some_branch n ((false ∷ p) ∷ ds) h e z = absurd (false≢true z)

pub IsPath-nonempty : (ds : List (List Bool)) (r : List Bool) → IsPath ds r → is_empty ds ≡ false
IsPath-nonempty ds [] h = h
IsPath-nonempty [] (b ∷ r) h = IsPath-nonempty [] r (rw (branch-nil b) at h)
IsPath-nonempty (d ∷ ds) (b ∷ r) h = refl

ordered-nil : (n : ℕ) → ordered n [] ≡ []
unfolding ordered
ordered-nil zero = refl
ordered-nil (suc n) = refl

pub ordered-empty : (n : ℕ) (ds : List (List Bool)) → is_empty ds ≡ true → ordered n ds ≡ []
ordered-empty n [] h = ordered-nil n
ordered-empty n (d ∷ ds) h = absurd (false≢true h)

pub ordered-suc :
    (n : ℕ) (ds : List (List Bool))
    → is_empty ds ≡ false
    → ordered (suc n) ds
      ≡ map (◌∷◌ false) (ordered n (branch false ds)) ++ map (◌∷◌ true) (ordered n (branch true ds))
unfolding ordered
ordered-suc n ds h = rw h refl

-- The last zero is the one given, or not before the position.
pub last_zero_cases :
    (pos : ℕ) (ds : List (List Bool)) (r : List Bool) (acc : ℕ)
    → (last_zero_of pos ds r acc ≡ acc) ⊎ (pos ≤ last_zero_of pos ds r acc)
unfolding last_zero_of
last_zero_cases pos ds [] acc = inl refl
last_zero_cases pos ds (true ∷ r) acc = elim (last_zero_cases (pos + 1) (branch true ds) r acc) [
  | inl e ↦ inl e
  | inr h ↦ inr (omega arith)
]
last_zero_cases pos ds (false ∷ r) acc = elim (Bool-cases (is_empty (branch true ds))) [
  | inl z ↦ rw z (elim (last_zero_cases (pos + 1) (branch false ds) r acc) [
    | inl e ↦ inl e
    | inr h ↦ inr (omega arith)
  ])
  | inr z ↦ rw z (elim (last_zero_cases (pos + 1) (branch false ds) r pos) [
    | inl e ↦ inr (omega arith)
    | inr h ↦ inr (omega arith)
  ])
]

pub length-walk :
    (last pos : ℕ) (r : List Bool) (ds : List (List Bool)) → length (walk last pos r ds) ≡ length r
unfolding walk
length-walk last pos [] ds = refl
length-walk last pos (b ∷ r) ds =
    ap suc (length-walk last (pos + 1) r (branch (way last pos b ds) ds))

-- The way taken is the way of some device.
pub way-nonempty :
    (n last pos : ℕ) (b : Bool) (ds : List (List Bool))
    → AllOf (suc n) ds
    → is_empty ds ≡ false
    → is_empty (branch (way last pos b ds) ds) ≡ false
unfolding way
way-nonempty n last pos b ds h e = elim (Bool-cases (is_empty (branch false ds))) [
  | inl z ↦ rw z (some_branch n ds h e z)
  | inr z ↦ elim (Bool-cases (is_empty (branch true ds))) [
    | inl o ↦ rw (z, o) z
    | inr o ↦
        rw (z, o)
          (elim (if ltb pos last then b else pos == last) as (λ d. is_empty (branch d ds) ≡ false) [
            | true ↦ o
            | false ↦ z
          ])
  ]
]

pub walk-IsPath :
    (last pos : ℕ) (r : List Bool) (ds : List (List Bool))
    → AllOf (length r) ds
    → is_empty ds ≡ false
    → IsPath ds (walk last pos r ds)
unfolding walk
walk-IsPath last pos [] ds h e = e
walk-IsPath last pos (b ∷ r) ds h e =
    let d = way last pos b ds in
    walk-IsPath last (pos + 1) r (branch d ds) (branch-AllOf (length r) d ds h)
      (way-nonempty (length r) last pos b ds h e)
