-- ===== src/Onewire/Enumeration/Next.antt =====
-- The path of the search is the next one in the order of `ordered`, and where there is none the last
-- discrepancy is 0.
use esp_ac_dimmer.Prelude.{
  ℕ, ◌+◌, ◌≤◌, ◌<◌, ◌≡◌, inl, inr, refl, sym, ◌∙◌, arith, lt→ltb, Bool, true, false, List, [], ◌∷◌,
  length, is_empty, Bool-cases,
}
use esp_ac_dimmer.Onewire.Enumeration.{branch, ordered, following, last_zero_of, way, walk}
use esp_ac_dimmer.Onewire.Enumeration.Walk.{
  IsPath, AllOf, branch-AllOf, some_branch, IsPath-nonempty, ordered-empty, ordered-suc,
  last_zero_cases, length-walk,
}

module _ (last pos : ℕ) (b : Bool) (ds : List (List Bool)) where
  way_ones : is_empty (branch false ds) ≡ true → way last pos b ds ≡ true
  unfolding way
  way_ones z = rw z refl

  way_zeros :
      is_empty (branch false ds) ≡ false
      → is_empty (branch true ds) ≡ true
      → way last pos b ds ≡ false
  unfolding way
  way_zeros z o = rw (z, o) refl

  module _ (z : is_empty (branch false ds) ≡ false) (o : is_empty (branch true ds) ≡ false) where
    way_before : pos < last → way last pos b ds ≡ b
    unfolding way
    way_before h = rw (z, o, lt→ltb pos last h) refl

    way_at : pos ≡ last → way last pos b ds ≡ true
    unfolding way
    way_at h = rw (z, o) (ground arith)

    way_after : last < pos → way last pos b ds ≡ false
    unfolding way
    way_after h = rw (z, o) (ground arith)

walk-cons :
    (last pos : ℕ) (b : Bool) (r : List Bool) (ds : List (List Bool)) (d : Bool)
    → way last pos b ds ≡ d
    → walk last pos (b ∷ r) ds ≡ d ∷ walk last (pos + 1) r (branch d ds)
unfolding walk
walk-cons last pos b r ds d e = rw e refl

-- Behind the last discrepancy the search takes the first path.
pub walk_first :
    (last pos : ℕ) (r : List Bool) (ds : List (List Bool))
    → AllOf (length r) ds
    → is_empty ds ≡ false
    → last < pos
    → ordered (length r) ds ≡ walk last pos r ds ∷ following ds (walk last pos r ds)
walk_first last pos [] ds h e lt = unfold ordered walk following in rw e refl
walk_first last pos (b ∷ r) ds h e lt = elim (Bool-cases (is_empty (branch false ds))) [
  | inl z ↦
      let o = some_branch (length r) ds h e z in
      let ih =
        walk_first last (pos + 1) r (branch true ds) (branch-AllOf (length r) true ds h) o
          (omega arith) in
      rw
        (
          walk-cons last pos b r ds true (way_ones last pos b ds z),
          ordered-suc (length r) ds e,
          ordered-empty (length r) (branch false ds) z,
          ih,
        )
        (unfold following in refl)
  | inr z ↦
      let ih =
        walk_first last (pos + 1) r (branch false ds) (branch-AllOf (length r) false ds h) z
          (omega arith) in
      let q = walk last (pos + 1) r (branch false ds) in
      let d : way last pos b ds ≡ false = elim (Bool-cases (is_empty (branch true ds))) [
        | inl o ↦ way_zeros last pos b ds z o
        | inr o ↦ way_after last pos b ds z o lt
      ] in
      let len : length q ≡ length r = length-walk last (pos + 1) r (branch false ds) in
      rw (walk-cons last pos b r ds false d, ordered-suc (length r) ds e, ih)
        (unfold following in rw len refl)
]

-- With no zero left on its way, a path is the last one.
pub following_none :
    (pos : ℕ) (r : List Bool) (ds : List (List Bool)) (acc : ℕ)
    → acc < pos
    → last_zero_of pos ds r acc ≡ acc
    → following ds r ≡ []
unfolding following last_zero_of
following_none pos [] ds acc lt e = refl
following_none pos (true ∷ r) ds acc lt e =
    rw (following_none (pos + 1) r (branch true ds) acc (omega arith) e) refl
following_none pos (false ∷ r) ds acc lt e = elim (Bool-cases (is_empty (branch true ds))) [
  | inl o ↦
      rw
        (
          following_none (pos + 1) r (branch false ds) acc (omega arith) (rw o at e),
          ordered-empty (length r) (branch true ds) o,
        )
        refl
  | inr o ↦ elim (last_zero_cases (pos + 1) (branch false ds) r pos) [
    | inl at_pos ↦ absurd (omega (arith, at_pos, rw o at e))
    | inr later ↦ absurd (omega (arith, later, rw o at e))
  ]
]

module _ (ds : List (List Bool)) (r q : List Bool) where
  step_zeros :
      length q ≡ length r
      → following (branch false ds) r ≡ q ∷ following (branch false ds) q
      → following ds (false ∷ r) ≡ (false ∷ q) ∷ following ds (false ∷ q)
  unfolding following
  step_zeros len next = rw (next, len) refl

  step_ones :
      following (branch true ds) r ≡ q ∷ following (branch true ds) q
      → following ds (true ∷ r) ≡ (true ∷ q) ∷ following ds (true ∷ q)
  unfolding following
  step_ones next = rw next refl

  step_over :
      following (branch false ds) r ≡ []
      → ordered (length r) (branch true ds) ≡ q ∷ following (branch true ds) q
      → following ds (false ∷ r) ≡ (true ∷ q) ∷ following ds (true ∷ q)
  unfolding following
  step_over none_left first = rw (none_left, first) refl

-- With the last zero of a path as the last discrepancy the search takes the path after it.
pub walk_next :
    (last pos : ℕ) (r : List Bool) (ds : List (List Bool)) (acc : ℕ)
    → AllOf (length r) ds
    → IsPath ds r
    → acc < pos
    → pos ≤ last
    → last_zero_of pos ds r acc ≡ last
    → following ds r ≡ walk last pos r ds ∷ following ds (walk last pos r ds)
unfolding last_zero_of
walk_next last pos [] ds acc h p lt le e = absurd (omega arith)
walk_next last pos (true ∷ r) ds acc h p lt le e =
    let e' : last_zero_of (pos + 1) (branch true ds) r acc ≡ last = e in
    let o = IsPath-nonempty (branch true ds) r p in
    let later : pos + 1 ≤ last = ground (arith, last_zero_cases (pos + 1) (branch true ds) r acc) in
    let d : way last pos true ds ≡ true = elim (Bool-cases (is_empty (branch false ds))) [
      | inl z ↦ way_ones last pos true ds z
      | inr z ↦ way_before last pos true ds z o (omega arith)
    ] in
    let ih =
      walk_next last (pos + 1) r (branch true ds) acc (branch-AllOf (length r) true ds h) p
        (omega arith) later e' in
    rw (walk-cons last pos true r ds true d) (step_ones ds r _ ih)
walk_next last pos (false ∷ r) ds acc h p lt le e = elim (Bool-cases (is_empty (branch true ds))) [
  | inl o ↦
      let e' = rw o at e in
      let later : pos + 1 ≤ last =
        ground (arith, last_zero_cases (pos + 1) (branch false ds) r acc) in
      let ih = walk_next last (pos + 1) r (branch false ds) acc zeros p (omega arith) later e' in
      rw (walk-cons last pos false r ds false (way_zeros last pos false ds z o))
        (step_zeros ds r _ (length-walk last (pos + 1) r (branch false ds)) ih)
  | inr o ↦
      let e' = rw o at e in
      elim (last_zero_cases (pos + 1) (branch false ds) r pos) [
        | inl at_pos ↦
            let here : pos ≡ last = sym at_pos ∙ e' in
            let none_left = following_none (pos + 1) r (branch false ds) pos (omega arith) at_pos in
            let first =
              walk_first last (pos + 1) r (branch true ds) (branch-AllOf (length r) true ds h) o
                (omega arith) in
            rw (walk-cons last pos false r ds true (way_at last pos false ds z o here))
              (step_over ds r _ none_left first)
        | inr later ↦
            let ih =
              walk_next last (pos + 1) r (branch false ds) pos zeros p (omega arith) (omega arith)
                e' in
            rw
              (walk-cons last pos false r ds false (way_before last pos false ds z o (omega arith)))
              (step_zeros ds r _ (length-walk last (pos + 1) r (branch false ds)) ih)
      ]
]
  where
    z : is_empty (branch false ds) ≡ false
    z = IsPath-nonempty (branch false ds) r p

    zeros : AllOf (length r) (branch false ds)
    zeros = branch-AllOf (length r) false ds h
