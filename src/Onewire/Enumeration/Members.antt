-- ===== src/Onewire/Enumeration/Members.antt =====
-- `ordered` has the devices' paths, each once, in ascending order.
use esp_ac_dimmer.Prelude.{
  ℕ, zero, suc, ◌≡◌, refl, sym, Bool, true, false, List, [], ◌∷◌, ◌++◌, map, length, All,
  All-append, ◌≢◌,
}
use mathlib.Core.Logic.Or
use mathlib.Core.Bool.{false≢true}
use mathlib.Core.List.{
  Mem, Mem-prop, mem-cons, mem-cons_self, mem-cons_of_mem, not-mem-nil, mem-map_of_mem,
  mem-append_left, mem-append_right,
}
use esp_ac_dimmer.Onewire.Enumeration.{branch, ordered}
use esp_ac_dimmer.Onewire.Enumeration.Walk.{IsPath, IsPath-nonempty, ordered-suc}

-- The first of two paths has a 0 where they first differ.
abbrev pub Before : List Bool → List Bool → Type 0
Before [] q = ⊥
Before (b ∷ p) [] = ⊥
Before (false ∷ p) (true ∷ q) = Unit
Before (true ∷ p) (false ∷ q) = ⊥
Before (false ∷ p) (false ∷ q) = Before p q
Before (true ∷ p) (true ∷ q) = Before p q

abbrev pub Ascends : List (List Bool) → Type 0
Ascends [] = Unit
Ascends (p ∷ ps) = All (Before p) ps × Ascends ps

All-cons_map :
    (P : List Bool → Type 0) (b : Bool) (ps : List (List Bool))
    → All (λ p. P (b ∷ p)) ps
    → All P (map (◌∷◌ b) ps)
All-cons_map P b [] h = tt
All-cons_map P b (p ∷ ps) h = (h.0, All-cons_map P b ps h.1)

pub ordered-IsPath : (n : ℕ) (ds : List (List Bool)) → All (IsPath ds) (ordered n ds)
unfolding ordered
ordered-IsPath n [] = ordered_nil n
  where
    ordered_nil : (n : ℕ) → All (IsPath []) (ordered n [])
    ordered_nil zero = tt
    ordered_nil (suc n) = tt
ordered-IsPath zero (d ∷ ds) = (refl, tt)
ordered-IsPath (suc n) (d ∷ ds) =
    All-append (IsPath (d ∷ ds)) (map (◌∷◌ false) (ordered n (branch false (d ∷ ds))))
      (map (◌∷◌ true) (ordered n (branch true (d ∷ ds))))
      (All-cons_map (IsPath (d ∷ ds)) false _ (ordered-IsPath n (branch false (d ∷ ds))))
      (All-cons_map (IsPath (d ∷ ds)) true _ (ordered-IsPath n (branch true (d ∷ ds))))

pub IsPath-mem-ordered :
    (r : List Bool) (ds : List (List Bool)) → IsPath ds r → Mem r (ordered (length r) ds)
IsPath-mem-ordered [] ds p = unfold ordered in rw p mem-cons_self
IsPath-mem-ordered (false ∷ r) ds p =
    rw (ordered-suc (length r) ds (IsPath-nonempty ds (false ∷ r) p))
      (mem-append_left _ (mem-map_of_mem (◌∷◌ false) (IsPath-mem-ordered r (branch false ds) p)))
IsPath-mem-ordered (true ∷ r) ds p =
    rw (ordered-suc (length r) ds (IsPath-nonempty ds (true ∷ r) p))
      (mem-append_right _ (mem-map_of_mem (◌∷◌ true) (IsPath-mem-ordered r (branch true ds) p)))

cons≢nil : (b : Bool) (r : List Bool) → b ∷ r ≢ []
cons≢nil b r e = cc

branch-mem :
    (b : Bool) (r : List Bool) (ds : List (List Bool)) → Mem (b ∷ r) ds → Mem r (branch b ds)
unfolding branch
branch-mem b r [] m = absurd (not-mem-nil m)
branch-mem b r ([] ∷ ds) m =
    Or.elim Mem-prop (mem-cons.0 m) (λ e. absurd (cons≢nil b r e)) (λ m'. branch-mem b r ds m')
branch-mem true r ((true ∷ p) ∷ ds) m =
    Or.elim Mem-prop (mem-cons.0 m) (λ e. let same : r ≡ p = cc in rw same mem-cons_self)
      (λ m'. mem-cons_of_mem _ (branch-mem true r ds m'))
branch-mem true r ((false ∷ p) ∷ ds) m =
    Or.elim Mem-prop (mem-cons.0 m)
      (λ e. let clash : true ≡ false = cc in absurd (false≢true (sym clash)))
      (λ m'. branch-mem true r ds m')
branch-mem false r ((true ∷ p) ∷ ds) m =
    Or.elim Mem-prop (mem-cons.0 m)
      (λ e. let clash : false ≡ true = cc in absurd (false≢true clash))
      (λ m'. branch-mem false r ds m')
branch-mem false r ((false ∷ p) ∷ ds) m =
    Or.elim Mem-prop (mem-cons.0 m) (λ e. let same : r ≡ p = cc in rw same mem-cons_self)
      (λ m'. mem-cons_of_mem _ (branch-mem false r ds m'))

pub mem-IsPath : (r : List Bool) (ds : List (List Bool)) → Mem r ds → IsPath ds r
mem-IsPath [] [] m = absurd (not-mem-nil m)
mem-IsPath [] (d ∷ ds) m = refl
mem-IsPath (b ∷ r) ds m = mem-IsPath r (branch b ds) (branch-mem b r ds m)

-- A path with a 0 before all those with a 1.
Before-over :
    (ps qs : List (List Bool)) → All (λ p. All (Before p) (map (◌∷◌ true) qs)) (map (◌∷◌ false) ps)
Before-over [] qs = tt
Before-over (p ∷ ps) qs = (Before-ones p qs, Before-over ps qs)
  where
    Before-ones :
        (p : List Bool) (qs : List (List Bool)) → All (Before (false ∷ p)) (map (◌∷◌ true) qs)
    Before-ones p [] = tt
    Before-ones p (q ∷ qs) = (tt, Before-ones p qs)

Ascends-map : (b : Bool) (ps : List (List Bool)) → Ascends ps → Ascends (map (◌∷◌ b) ps)
Ascends-map b [] h = tt
Ascends-map true (p ∷ ps) h =
    (All-cons_map (Before (true ∷ p)) true ps h.0, Ascends-map true ps h.1)
Ascends-map false (p ∷ ps) h =
    (All-cons_map (Before (false ∷ p)) false ps h.0, Ascends-map false ps h.1)

Ascends-append :
    (ps qs : List (List Bool))
    → Ascends ps
    → Ascends qs
    → All (λ p. All (Before p) qs) ps
    → Ascends (ps ++ qs)
Ascends-append [] qs hp hq h = hq
Ascends-append (p ∷ ps) qs hp hq h =
    (All-append (Before p) ps qs hp.0 h.0, Ascends-append ps qs hp.1 hq h.1)

pub ordered-Ascends : (n : ℕ) (ds : List (List Bool)) → Ascends (ordered n ds)
unfolding ordered
ordered-Ascends zero [] = tt
ordered-Ascends (suc n) [] = tt
ordered-Ascends zero (d ∷ ds) = (tt, tt)
ordered-Ascends (suc n) (d ∷ ds) =
    let zeros = ordered n (branch false (d ∷ ds)) in
    let ones = ordered n (branch true (d ∷ ds)) in
    Ascends-append (map (◌∷◌ false) zeros) (map (◌∷◌ true) ones)
      (Ascends-map false zeros (ordered-Ascends n (branch false (d ∷ ds))))
      (Ascends-map true ones (ordered-Ascends n (branch true (d ∷ ds)))) (Before-over zeros ones)
