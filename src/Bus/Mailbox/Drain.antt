-- ===== src/Bus/Mailbox/Drain.antt =====
-- The destructor of a client empties its queue before it deletes it.
use esp_ac_dimmer.Prelude.{
  ltb, ℕ, zero, suc, ◌+◌, ◌≤◌, ◌<◌, ◌≡◌, ◌⊎◌, refl, sym, ap, ◌∙◌, inl, inr, arith, ◌==◌, ==_iff,
  List, [], ◌∷◌, ◌++◌, Option, some, length, length-append, Bool-cases, Option-cases,
}
use mathlib.Core.List.{reverse, reverse-cons, reverse-reverse}
use esp_ac_dimmer.Bus.{BusAddr, Bus, BusClient, resolve, disconnect}
use esp_ac_dimmer.Bus.Queues.{Queues, QueueLaws, message_queue_length}
use esp_ac_dimmer.Bus.Mailbox.{BusMsg, send_to_next, drain, destroy_queue, destroy}
use esp_ac_dimmer.Bus.Mailbox.Route.{send_to_next-nil, send_to_next-skip, send_to_next-hop}

-- What the loop of the destructor has still to do for the messages of a queue: a round for each, and
-- one more for each address that is left of it.
abbrev pub weight : {C : Type 0} → List (BusMsg C) → ℕ
weight [] = 0
weight (m ∷ ms) = 1 + length m.destination + weight ms

weight-snoc :
    {C : Type 0} (ms : List (BusMsg C)) (m : BusMsg C)
    → weight (ms ++ (m ∷ [])) ≡ weight ms + 1 + length m.destination
weight-snoc [] m = omega arith
weight-snoc (n ∷ ms) m = omega (arith, weight-snoc ms m)

length-reverse {ℓ} : {A : Type ℓ} (xs : List A) → length (reverse xs) ≡ length xs
length-reverse [] = refl
length-reverse (x ∷ xs) =
    omega
      (arith, ap length (reverse-cons x xs), length-append (reverse xs) (x ∷ []), length-reverse xs)

List-cases {ℓ} :
    {A : Type ℓ} (xs : List A) → (xs ≡ []) ⊎ ((x : A) × (rest : List A) × (xs ≡ x ∷ rest))
List-cases [] = inl refl
List-cases (x ∷ xs) = inr (x, xs, refl)

module _ {K : Type 0} {C : Type 0} (rtos : Queues K (BusMsg C)) (laws : QueueLaws rtos) where
  open laws use {
    contents, send_room, send_full, send_other, receive_some, receive_none, receive_other,
  }

  send-weight :
      (q r : ℕ) (m : BusMsg C) (k : K)
      → weight (contents (rtos.send_item r m k).1 q)
        ≤ weight (contents k q) + 1 + length m.destination
  send-weight q r m k = elim (Bool-cases (q == r)) [
    | inr t ↦ rw (send_other r q m k (ground arith)) (omega arith)
    | inl t ↦
        let same : q ≡ r = (==_iff q r).0 t in
        rw same (elim (Bool-cases (ltb (length (contents k r)) message_queue_length)) [
          | inl room ↦
              rw ((send_room r m k (ground arith)).1) (omega (arith, weight-snoc (contents k r) m))
          | inr full ↦ rw ((send_full r m k (ground arith)).1) (omega arith)
        ])
  ]

  -- Passing a message on costs less than the message did.
  pass-weight :
      (bus : Bus) (q : ℕ) (ds : List BusAddr) (m : BusMsg C) (k : K)
      → m.destination ≡ reverse ds
      → weight (contents (send_to_next rtos bus m k) q) ≤ weight (contents k q) + length ds
  pass-weight bus q [] m k e = rw (send_to_next-nil rtos bus k m e) (omega arith)
  pass-weight bus q (a ∷ ds) m k e = elim (Option-cases (resolve bus a)) [
    | inl r ↦
        rw (send_to_next-skip rtos bus k m (reverse ds) a (e ∙ reverse-cons a ds) r)
          (omega (arith, pass-weight bus q ds (record m { destination = reverse ds }) k refl))
    | inr (p, r) ↦ rw (send_to_next-hop rtos bus k m (reverse ds) a p (e ∙ reverse-cons a ds) r) (
        omega (arith, send-weight q p (record m { destination = reverse ds }) k, length-reverse ds))
  ]

  round-weight :
      (bus : Bus) (q : ℕ) (m : BusMsg C) (ms : List (BusMsg C)) (k : K) (fuel : ℕ)
      → contents k q ≡ m ∷ ms
      → weight (contents k q) < suc fuel
      → weight (contents (send_to_next rtos bus m (rtos.receive_item q k).1) q) < fuel
  round-weight bus q m ms k fuel e h =
      let k₁ = (rtos.receive_item q k).1 in
      let rest : weight (contents k₁ q) ≡ weight ms = ap weight ((receive_some q m ms k e).1) in
      let whole : weight (contents k q) ≡ 1 + length m.destination + weight ms = ap weight e in
      omega (
        arith,
        rest,
        whole,
        pass-weight bus q (reverse m.destination) m k₁ (sym (reverse-reverse m.destination)),
        length-reverse m.destination,
      )

  drain-empties :
      (bus : Bus) (q fuel : ℕ) (k : K)
      → weight (contents k q) < fuel
      → (k' : K) × (drain rtos fuel bus q k ≡ some k') × (contents k' q ≡ [])
  unfolding drain
  drain-empties bus q zero k h = absurd (omega arith)
  drain-empties bus q (suc fuel) k h = elim (List-cases (contents k q)) [
    | inl e ↦
        let got = receive_none q k e in ((rtos.receive_item q k).1, rw (drain, got.0) refl, got.1)
    | inr (m, ms, e) ↦
        let got = receive_some q m ms k e in
        let k₁ = (rtos.receive_item q k).1 in
        let less : weight (contents (send_to_next rtos bus m k₁) q) < fuel =
          round-weight bus q m ms k fuel e h in
        let (k', runs, empty) = drain-empties bus q fuel (send_to_next rtos bus m k₁) less in
        (k', rw (drain, got.0) runs, empty)
  ]

  -- With fuel above the messages and the addresses left in the client's queue the destructor's loop
  -- ends, the queue that is then deleted is empty, and the bus is as after `disconnect`.
  pub destroy-empties :
      (bus : Bus) (client : BusClient) (q fuel : ℕ) (k : K)
      → client.queue ≡ some q
      → weight (contents k q) < fuel
      → (k' : K) × (destroy rtos fuel bus client k
          ≡ some ((disconnect bus client).1, rtos.delete_queue q k'))
        × (contents k' q ≡ [])
  unfolding destroy
  destroy-empties bus client q fuel k e h =
      let (k', runs, empty) = drain-empties (disconnect bus client).1 q fuel k h in
      (
        k',
        ap (λ (o : Option ℕ). destroy_queue rtos fuel (disconnect bus client).1 o k) e
            ∙ rw (destroy_queue, runs) refl,
        empty,
      )
