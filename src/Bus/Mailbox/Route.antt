-- ===== src/Bus/Mailbox/Route.antt =====
-- Where `sendToNextClient` sends a message.
use esp_ac_dimmer.Prelude.{
  is_empty, ℕ, suc, ◌≡◌, refl, ap, ◌∙◌, arith, false, if◌then◌else◌, List, [], ◌∷◌, ◌++◌, Option,
  none, some, length, length-append,
}
use esp_ac_dimmer.Bus.{BusAddr, Bus, resolve}
use esp_ac_dimmer.Bus.Queues.{Queues}
use esp_ac_dimmer.Bus.Mailbox.{BusMsg, pop_back, next_dest, pass_on, send_to_next}

pop_back-snoc {ℓ} : {A : Type ℓ} (xs : List A) (a : A) → pop_back (xs ++ (a ∷ [])) ≡ some (a, xs)
unfolding pop_back
pop_back-snoc [] a = refl
pop_back-snoc (x ∷ []) a = refl
pop_back-snoc (x ∷ y ∷ ys) a = rw (pop_back-snoc (y ∷ ys) a)

next_dest-suc :
    (n : ℕ) (bus : Bus) (ds : List BusAddr) (a : BusAddr)
    → next_dest (suc n) bus (ds ++ (a ∷ [])) ≡ elim (resolve bus a) [
      | some q ↦ (some q, ds)
      | none ↦ if is_empty ds then (none, ds) else next_dest n bus ds
    ]
unfolding next_dest
next_dest-suc n bus ds a = rw (next_dest, pop_back-snoc ds a) refl

is_empty-snoc {ℓ} : {A : Type ℓ} (xs : List A) (a : A) → is_empty (xs ++ (a ∷ [])) ≡ false
is_empty-snoc [] a = refl
is_empty-snoc (x ∷ xs) a = refl

next_dest-snoc :
    (bus : Bus) (ds : List BusAddr) (a : BusAddr)
    → next_dest (length (ds ++ (a ∷ []))) bus (ds ++ (a ∷ [])) ≡ elim (resolve bus a) [
      | some q ↦ (some q, ds)
      | none ↦ if is_empty ds then (none, ds) else next_dest (length ds) bus ds
    ]
next_dest-snoc bus ds a =
    let n : length (ds ++ (a ∷ [])) ≡ suc (length ds) = omega (arith, length-append ds (a ∷ [])) in
    rw n (next_dest-suc (length ds) bus ds a)

module _ {K : Type 0} {C : Type 0} (rtos : Queues K (BusMsg C)) (bus : Bus) (k : K) where
  pub send_to_next-nil : (m : BusMsg C) → m.destination ≡ [] → send_to_next rtos bus m k ≡ k
  unfolding send_to_next
  send_to_next-nil m e = rw (e, is_empty)

  -- Only the payload of a message matters where it is passed on.
  pass_on-same :
      (m : BusMsg C) (ds : List BusAddr) (r : Option ℕ × List BusAddr)
      → pass_on rtos m r k ≡ pass_on rtos (record m { destination = ds }) r k
  unfolding pass_on
  pass_on-same m ds (none, rest) = refl
  pass_on-same m ds (some q, rest) = refl

  send_to_next-snoc :
      (m : BusMsg C) (ds : List BusAddr) (a : BusAddr) (r : Option ℕ × List BusAddr)
      → m.destination ≡ ds ++ (a ∷ [])
      → next_dest (length (ds ++ (a ∷ []))) bus (ds ++ (a ∷ [])) ≡ r
      → send_to_next rtos bus m k ≡ pass_on rtos m r k
  unfolding send_to_next
  send_to_next-snoc m ds a r e f =
      let full : is_empty m.destination ≡ false = rw e (is_empty-snoc ds a) in
      let goes : next_dest (length m.destination) bus m.destination ≡ r =
        ap (λ (D : List BusAddr). next_dest (length D) bus D) e ∙ f in
      rw full (ap (λ (x : Option ℕ × List BusAddr). pass_on rtos m x k) goes)

  -- An address that resolves to no queue is passed over.
  pub send_to_next-skip :
      (m : BusMsg C) (ds : List BusAddr) (a : BusAddr)
      → m.destination ≡ ds ++ (a ∷ [])
      → resolve bus a ≡ none
      → send_to_next rtos bus m k ≡ send_to_next rtos bus (record m { destination = ds }) k
  unfolding send_to_next
  send_to_next-skip m [] a e r =
      send_to_next-snoc m [] a (none, []) e (next_dest-snoc bus [] a ∙ rw r refl)
  send_to_next-skip m (d ∷ ds) a e r =
      send_to_next-snoc m (d ∷ ds) a (next_dest (length (d ∷ ds)) bus (d ∷ ds)) e
        (next_dest-snoc bus (d ∷ ds) a ∙ rw r refl)
      ∙ pass_on-same m (d ∷ ds) (next_dest (length (d ∷ ds)) bus (d ∷ ds))

  -- The last address that resolves gets the message, with the addresses before it.
  pub send_to_next-hop :
      (m : BusMsg C) (ds : List BusAddr) (a : BusAddr) (q : ℕ)
      → m.destination ≡ ds ++ (a ∷ [])
      → resolve bus a ≡ some q
      → send_to_next rtos bus m k ≡ (rtos.send_item q (record m { destination = ds }) k).1
  unfolding send_to_next
  send_to_next-hop m ds a q e r =
      send_to_next-snoc m ds a (some q, ds) e (next_dest-snoc bus ds a ∙ rw r refl)
