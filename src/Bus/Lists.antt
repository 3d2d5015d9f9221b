-- ===== src/Bus/Lists.antt =====
-- Laws of the list algorithms that the bus uses.
use esp_ac_dimmer.Prelude.{
  drop-length, append-nil, ℕ, zero, suc, ◌-◌, ◌≤◌, ◌≡◌, inl, inr, refl, ap, ◌∙◌, arith, Bool, true,
  false, List, [], ◌∷◌, ◌++◌, none, some, length, drop, All, Bool-cases, length-append, All-append,
  append_assoc,
}
use mathlib.Core.List.{Mem, mem-cons_self, mem-cons_of_mem}
use esp_ac_dimmer.Bus.{find_if, reject, remove_if, update_if}

module _ {ℓ} {A : Type ℓ} where
  pub find_if-passes : (p : A → Bool) (xs : List A) (x : A) → find_if p xs ≡ some x → p x ≡ true
  unfolding find_if
  find_if-passes p [] x e = cc
  find_if-passes p (y ∷ ys) x e = ground (arith, find_if-passes p ys x)

  pub find_if-All {κ} :
      (P : A → Type κ) (p : A → Bool) (xs : List A) (x : A) → All P xs → find_if p xs ≡ some x → P x
  unfolding find_if
  find_if-All P p [] x h e = cc
  find_if-All P p (y ∷ ys) x h e = elim (Bool-cases (p y)) [
    | inl t ↦ let same : y ≡ x = ground arith in rw (← same) h.0
    | inr t ↦ find_if-All P p ys x h.1 (ground arith)
  ]

  -- What is found is there, and so is whatever passes.
  pub find_if-mem : (p : A → Bool) (xs : List A) (x : A) → find_if p xs ≡ some x → Mem x xs
  unfolding find_if
  find_if-mem p [] x e = cc
  find_if-mem p (y ∷ ys) x e = elim (Bool-cases (p y)) [
    | inl t ↦ let same : y ≡ x = ground arith in rw same mem-cons_self
    | inr t ↦ mem-cons_of_mem y (find_if-mem p ys x (ground arith))
  ]

  pub find_if-append :
      (p : A → Bool) (xs ys : List A)
      → find_if p (xs ++ ys) ≡ elim (find_if p xs) [ some x ↦ some x | none ↦ find_if p ys ]
  unfolding find_if
  find_if-append p [] ys = refl
  find_if-append p (x ∷ xs) ys = ground (arith, find_if-append p xs ys)

  find_if-drop :
      (p : A → Bool) (n : ℕ) (xs : List A) → find_if p xs ≡ none → find_if p (drop n xs) ≡ none
  unfolding find_if
  find_if-drop p zero xs e = e
  find_if-drop p (suc n) [] e = refl
  find_if-drop p (suc n) (x ∷ xs) e = ground (arith, find_if-drop p n xs)

  length-reject-le : (p : A → Bool) (xs : List A) → length (reject p xs) ≤ length xs
  unfolding reject
  length-reject-le p [] = omega arith
  length-reject-le p (x ∷ xs) = ground (arith, length-reject-le p xs)

  length-drop : (n : ℕ) (xs : List A) → length (drop n xs) ≡ length xs - n
  length-drop zero xs = omega arith
  length-drop (suc n) [] = omega arith
  length-drop (suc n) (x ∷ xs) = omega (arith, length-drop n xs)

  -- `std::remove_if` alone never shortens a list.
  pub length-remove_if : (p : A → Bool) (xs : List A) → length (remove_if p xs) ≡ length xs
  unfolding remove_if
  length-remove_if p xs = omega (
    arith,
    length-append (reject p xs) (drop (length (reject p xs)) xs),
    length-drop (length (reject p xs)) xs,
    length-reject-le p xs,
  )

  find_if-reject :
      (r p : A → Bool) (xs : List A)
      → All (λ x. r x ≡ true → p x ≡ false) xs
      → find_if r (reject p xs) ≡ find_if r xs
  unfolding find_if reject
  find_if-reject r p [] h = refl
  find_if-reject r p (x ∷ xs) h = ground (arith, find_if-reject r p xs h.1, h.0)

  -- What does not pass is found as before.
  pub find_if-remove_if :
      (r p : A → Bool) (xs : List A)
      → All (λ x. r x ≡ true → p x ≡ false) xs
      → find_if r (remove_if p xs) ≡ find_if r xs
  unfolding remove_if
  find_if-remove_if r p xs h = ground (
    arith,
    find_if-append r (reject p xs) (drop (length (reject p xs)) xs),
    find_if-reject r p xs h,
    find_if-drop r (length (reject p xs)) xs,
  )

  All-reject {κ} : (P : A → Type κ) (p : A → Bool) (xs : List A) → All P xs → All P (reject p xs)
  unfolding reject
  All-reject P p [] h = h
  All-reject P p (x ∷ xs) h = elim (Bool-cases (p x)) [
    | inl t ↦ rw t (All-reject P p xs h.1)
    | inr t ↦ rw t (h.0, All-reject P p xs h.1)
  ]

  All-drop {κ} : (P : A → Type κ) (n : ℕ) (xs : List A) → All P xs → All P (drop n xs)
  All-drop P zero xs h = h
  All-drop P (suc n) [] h = h
  All-drop P (suc n) (x ∷ xs) h = All-drop P n xs h.1

  pub All-remove_if {κ} :
      (P : A → Type κ) (p : A → Bool) (xs : List A) → All P xs → All P (remove_if p xs)
  unfolding remove_if
  All-remove_if P p xs h =
      All-append P (reject p xs) (drop (length (reject p xs)) xs) (All-reject P p xs h)
        (All-drop P (length (reject p xs)) xs h)

  pub All-update_if {κ} :
      (P : A → Type κ) (p : A → Bool) (f : A → A) (xs : List A)
      → ((x : A) → P x → P (f x))
      → All P xs
      → All P (update_if p f xs)
  unfolding update_if
  All-update_if P p f [] k h = h
  All-update_if P p f (x ∷ xs) k h = elim (Bool-cases (p x)) [
    | inl t ↦ rw t (k x h.0, h.1)
    | inr t ↦ rw t (h.0, All-update_if P p f xs k h.1)
  ]

  pub All-map {κ μ} :
      (P : A → Type κ) (Q : A → Type μ) (xs : List A) → ((x : A) → P x → Q x) → All P xs → All Q xs
  All-map P Q [] k h = tt
  All-map P Q (x ∷ xs) k h = (k x h.0, All-map P Q xs k h.1)

  reject-none :
      (p : A → Bool) (xs ys : List A)
      → find_if p xs ≡ none
      → reject p (xs ++ ys) ≡ xs ++ reject p ys
  unfolding find_if reject
  reject-none p [] ys e = refl
  reject-none p (x ∷ xs) ys e = ground (arith, reject-none p xs ys)

  reject-all_kept : (p : A → Bool) (xs : List A) → find_if p xs ≡ none → reject p xs ≡ xs
  unfolding find_if reject
  reject-all_kept p [] e = refl
  reject-all_kept p (x ∷ xs) e = ground (arith, reject-all_kept p xs)

  -- An element that passes at the end of a list stays there.
  pub remove_if-at_end :
      (p : A → Bool) (xs : List A) (x : A)
      → find_if p xs ≡ none
      → p x ≡ true
      → remove_if p (xs ++ (x ∷ [])) ≡ xs ++ (x ∷ [])
  unfolding remove_if reject
  remove_if-at_end p xs x e t =
      let kept : reject p (xs ++ (x ∷ [])) ≡ xs =
        rw (reject-none p xs (x ∷ []) e, t) (append-nil xs) in
      rw kept (ap (◌++◌ xs) (drop-length xs (x ∷ [])))

  drop-append : (xs ys zs : List A) → drop (length (xs ++ ys)) (xs ++ zs) ≡ drop (length ys) zs
  drop-append [] ys zs = refl
  drop-append (x ∷ xs) ys zs = drop-append xs ys zs

  drop_to_last :
      (x : A) (ys : List A) (z : A) → drop (length (ys ++ (z ∷ []))) (x ∷ (ys ++ (z ∷ []))) ≡ z ∷ []
  drop_to_last x [] z = refl
  drop_to_last x (y ∷ ys) z = drop_to_last y ys z

  -- An element that passes before the end of a list is gone, and the last element stands there twice.
  pub remove_if-before_end :
      (p : A → Bool) (xs ys : List A) (x z : A)
      → find_if p xs ≡ none
      → find_if p (ys ++ (z ∷ [])) ≡ none
      → p x ≡ true
      → remove_if p (xs ++ (x ∷ ys ++ (z ∷ []))) ≡ xs ++ (ys ++ (z ∷ z ∷ []))
  unfolding remove_if reject
  remove_if-before_end p xs ys x z e f t =
      let w = ys ++ (z ∷ []) in
      let kept : reject p (xs ++ (x ∷ w)) ≡ xs ++ w =
        reject-none p xs (x ∷ w) e ∙ rw t (ap (◌++◌ xs) (reject-all_kept p w f)) in
      rw (kept, drop-append xs w (x ∷ w), drop_to_last x ys z)
        (append_assoc xs w (z ∷ []) ∙ ap (◌++◌ xs) (append_assoc ys (z ∷ []) (z ∷ [])))

  pub find_if-none : (p : A → Bool) (xs : List A) → find_if p xs ≡ none → All (λ x. p x ≡ false) xs
  unfolding find_if
  find_if-none p [] e = tt
  find_if-none p (x ∷ xs) e = elim (Bool-cases (p x)) [
    | inl t ↦ absurd (ground arith)
    | inr t ↦ (t, find_if-none p xs (ground arith))
  ]

  pub All-zip {κ μ ν} :
      (P : A → Type κ) (Q : A → Type μ) (R : A → Type ν) (xs : List A)
      → ((x : A) → P x → Q x → R x)
      → All P xs
      → All Q xs
      → All R xs
  All-zip P Q R [] k h g = tt
  All-zip P Q R (x ∷ xs) k h g = (k x h.0 g.0, All-zip P Q R xs k h.1 g.1)

  -- A symmetric relation between all the elements, when one more comes to the front.
  pub pairs-cons {κ} :
      (R : A → A → Type κ) (x : A) (xs : List A)
      → ((a b : A) → R a b → R b a)
      → R x x
      → All (R x) xs
      → All (λ a. All (R a) xs) xs
      → All (λ a. All (R a) (x ∷ xs)) (x ∷ xs)
  pairs-cons R x xs swap here new old =
      ((here, new), All-zip _ _ _ xs (λ a h g. (swap x a h, g)) new old)

  pub pairs-update_if {κ} :
      (R : A → A → Type κ) (p : A → Bool) (f : A → A) (xs : List A)
      → ((a b : A) → R a b → R (f a) b)
      → ((a b : A) → R a b → R a (f b))
      → All (λ a. All (R a) xs) xs
      → All (λ a. All (R a) (update_if p f xs)) (update_if p f xs)
  pairs-update_if R p f xs left right h =
      All-update_if _ p f xs (λ a g. All-map _ _ (update_if p f xs) (λ b r. left a b r) g)
        (All-map _ _ xs (λ a g. All-update_if (R a) p f xs (λ b r. right a b r) g) h)

  -- A change of the first element that passes `p`, seen by a test that passes for the same elements.
  pub find_if-update_if :
      (r p : A → Bool) (f : A → A) (xs : List A) (x : A)
      → All (λ y. p y ≡ r y) xs
      → r (f x) ≡ true
      → find_if r xs ≡ some x
      → find_if r (update_if p f xs) ≡ some (f x)
  unfolding find_if update_if
  find_if-update_if r p f [] x h t e = cc
  find_if-update_if r p f (y ∷ ys) x h t e = elim (Bool-cases (r y)) [
    | inl hit ↦
        let same : y ≡ x = ground arith in
        let passes : p y ≡ true = h.0 ∙ hit in rw (passes, same, t)
    | inr miss ↦
        let passes : p y ≡ false = h.0 ∙ miss in
        rw (passes, miss) (find_if-update_if r p f ys x h.1 t (ground arith))
  ]

  pub find_if-congr :
      (p r : A → Bool) (xs : List A) → All (λ y. p y ≡ r y) xs → find_if p xs ≡ find_if r xs
  unfolding find_if
  find_if-congr p r [] h = refl
  find_if-congr p r (x ∷ xs) h = rw (h.0, find_if-congr p r xs h.1)
