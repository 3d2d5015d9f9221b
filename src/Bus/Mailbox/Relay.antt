-- ===== src/Bus/Mailbox/Relay.antt =====
-- A message to several clients goes from one to the next: each hands it on when it has received it.
use esp_ac_dimmer.Prelude.{
  ℕ, ◌≡◌, ◌≢◌, refl, sym, ap, ◌∙◌, inl, inr, arith, ◌==◌, ==_iff, false, List, [], ◌∷◌, map, Option,
  none, some, Bool-cases, Option-cases,
}
use esp_ac_dimmer.Prelude.Int.{eq_ℤ_iff}
use mathlib.Core.Option
use mathlib.Core.List.{reverse, reverse-cons, reverse-reverse}
use esp_ac_dimmer.Bus.{eq_ℤ, destination, invalid, pos, BusAddr, Bus, BusClient, resolve}
use esp_ac_dimmer.Bus.Queues.{Queues, QueueLaws}
use esp_ac_dimmer.Bus.Mailbox.{send, BusMsg, send_to_next, try_receive}
use esp_ac_dimmer.Bus.Mailbox.Route.{send_to_next-nil, send_to_next-skip, send_to_next-hop}

-- The queues of those addresses that have one, in order.
unfoldable pub route : Bus → List BusAddr → List ℕ
route bus [] = []
route bus (a ∷ rest) = elim (resolve bus a) [ some q ↦ q ∷ route bus rest | none ↦ route bus rest ]

route-none :
    (bus : Bus) (a : BusAddr) (ds : List BusAddr)
    → resolve bus a ≡ none
    → route bus (a ∷ ds) ≡ route bus ds
unfolding route
route-none bus a ds r = rw (r, route)

route-some :
    (bus : Bus) (a : BusAddr) (ds : List BusAddr) (q : ℕ)
    → resolve bus a ≡ some q
    → route bus (a ∷ ds) ≡ q ∷ route bus ds
unfolding route
route-some bus a ds q r = rw (r, route)

-- What a client's `receive` is shown of a message.
pub record Delivery (C : Type 0) : Type 0 where
  pub from : BusAddr
  pub to : BusAddr
  pub msg : C

abbrev pub delivery : {C : Type 0} → BusMsg C → Delivery C
delivery m = record { from = m.from; to = m.to; msg = m.msg }

module _ {K : Type 0} {C : Type 0} (rtos : Queues K (BusMsg C)) where
  -- One call of `tryReceive` by the owner of each queue, in the given order, with what came.
  -- The clients' `receive` does not use the bus.
  pub receive_all : Bus → List ℕ → K → List (Option (BusMsg C)) × K
  receive_all bus [] k = ([], k)
  receive_all bus (q ∷ qs) k =
      let owner : BusClient = record { addr = pos 0; queue = some q } in
      let (item, (bus', k')) = try_receive rtos (λ m s. s) owner (bus, k) in
      let (items, k'') = receive_all bus' qs k' in (item ∷ items, k'')

  module _ (laws : QueueLaws rtos) where
    open laws use {contents, send_room, send_other, receive_some, receive_other}

    abbrev pub IsIdle : K → Type 0
    IsIdle k = (q : ℕ) → contents k q ≡ []

    try_receive-hop :
        (bus : Bus) (q : ℕ) (m : BusMsg C) (k : K)
        → IsIdle k
        → (k' : K) × IsIdle k'
          × (try_receive rtos
                (λ m s. s)
                (record { addr = pos 0; queue = some q })
                (bus, (rtos.send_item q m k).1)
              ≡ (some m, (bus, send_to_next rtos bus m k')))
    unfolding try_receive
    try_receive-hop bus q m k idle =
        let k₁ = (rtos.send_item q m k).1 in
        let k₂ = (rtos.receive_item q k₁).1 in
        let empty : contents k q ≡ [] = idle q in
        let sent = send_room q m k (rw empty (omega arith)) in
        let holds : contents k₁ q ≡ m ∷ [] = sent.1 ∙ rw empty refl in
        let got = receive_some q m [] k₁ holds in
        let still : (r : ℕ) → contents k₂ r ≡ [] = λ r. elim (Bool-cases (r == q)) [
          | inl t ↦ let same : r ≡ q = (==_iff r q).0 t in rw same got.1
          | inr t ↦
              let other : r ≢ q = ground arith in
              receive_other q r k₁ other ∙ (send_other q r m k other ∙ idle r)
        ] in
        (k₂, still, rw (try_receive, got.0) refl)

    relay :
        (bus : Bus) (ds : List BusAddr) (m : BusMsg C) (k : K)
        → m.destination ≡ reverse ds
        → IsIdle k
        → let r = receive_all bus (route bus ds) (send_to_next rtos bus m k) in
          (map (Option.map delivery) r.0 ≡ map (λ q. some (delivery m)) (route bus ds)) × IsIdle r.1
    unfolding receive_all route
    relay bus [] m k e idle = rw (send_to_next-nil rtos bus k m e) (refl, idle)
    relay bus (a ∷ ds) m k e idle = elim (Option-cases (resolve bus a)) [
      | inl r ↦
          rw
            (
              route-none bus a ds r,
              send_to_next-skip rtos bus k m (reverse ds) a (e ∙ reverse-cons a ds) r,
            )
            (relay bus ds (record m { destination = reverse ds }) k refl idle)
      | inr (q, r) ↦
          let m' = record m { destination = reverse ds } in
          let (k', idle', got) = try_receive-hop bus q m' k idle in
          let rest = relay bus ds m' k' refl idle' in
          rw
            (
              route-some bus a ds q r,
              send_to_next-hop rtos bus k m (reverse ds) a q (e ∙ reverse-cons a ds) r,
              receive_all,
              got,
            )
            (ap (◌∷◌ (some (delivery m))) rest.0, rest.1)
    ]

    -- While the bus does not change, the queues are empty and no client sends from its `receive`: what
    -- a client sends reaches each client that the destination resolves to, once for each time that
    -- it stands there, from the last address to the first, if each of them calls `tryReceive` in
    -- that order; `receive` is shown the sender, the address sent to and the command, and afterwards
    -- all queues are empty again.
    pub relay-send :
        (bus : Bus) (client : BusClient) (to : BusAddr) (msg : C) (k : K)
        → to ≢ invalid
        → IsIdle k
        → let qs = route bus (reverse (destination bus to)) in
          let r = receive_all bus qs (send rtos bus client to (some msg) k) in
          (map (Option.map delivery) r.0
            ≡ map (λ q. some (record { from = client.addr; to = to; msg = msg })) qs)
          × IsIdle r.1
    unfolding send
    relay-send bus client to msg k real idle =
        let m : BusMsg C = record {
          from = client.addr;
          to = to;
          destination = destination bus to;
          msg = msg;
        } in
        let goes : eq_ℤ to invalid ≡ false = ground (arith, eq_ℤ_iff to invalid) in
        rw goes (
          relay bus (reverse (destination bus to)) m k (sym (reverse-reverse (destination bus to)))
            idle)
