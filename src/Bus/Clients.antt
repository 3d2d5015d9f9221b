-- ===== src/Bus/Clients.antt =====
-- `Bus::connect` and `Bus::disconnect`: they keep the invariant; what they do to the addresses.
use esp_ac_dimmer.Prelude.{
  ℕ, zero, suc, ◌+◌, ◌^◌, ◌<◌, ◌≡◌, refl, sym, ap, inl, inr, arith, true, false, Option-cases,
}
use esp_ac_dimmer.Prelude.Int.{pos, negsuc, pos_part, neg_part, is_neg, decrement}
use esp_ac_dimmer.Bus.{
  BusAddr, Client, Bus, BusClient, new_bus, find_if, has_queue, connect, disconnect,
}
use esp_ac_dimmer.Bus.Lists.{find_if-none, All-zip, pairs-cons, All-remove_if, All-map}
use esp_ac_dimmer.Bus.Valid.{IsGiven, Agree, IsValid, HasRoom}

pub new_bus-IsValid : IsValid new_bus
new_bus-IsValid = omega arith

-- Disconnecting any client keeps the bus valid.
pub disconnect-IsValid :
    (bus : Bus) (client : BusClient) → IsValid bus → IsValid (disconnect bus client).1
unfolding disconnect
disconnect-IsValid bus client v = elim (Option-cases client.queue) [
  | inl e ↦ rw (e, disconnect) v
  | inr (q, e) ↦
      rw (e, disconnect)
        (record {
          last_client = v.last_client;
          last_group = v.last_group;
          given = All-remove_if _ (has_queue q) bus.clients v.given;
          agree = All-remove_if _ (has_queue q) bus.clients (
              All-map _ _ bus.clients (λ c h. All-remove_if _ (has_queue q) bus.clients h) v.agree);
          numbered = v.numbered;
          agree_names = v.agree_names;
        })
]

pub decrement_lem :
    (a : BusAddr)
    → pos_part a ≡ 0
    → neg_part a < 2 ^ 31
    → (is_neg (decrement a) ≡ true)
      × (neg_part (decrement a) ≡ neg_part a + 1)
      × (pos_part (decrement a) ≡ 0)
decrement_lem (pos zero) h k = (refl, omega arith, refl)
decrement_lem (pos (suc n)) h k = absurd (omega arith)
decrement_lem (negsuc n) h k = ground arith

-- The entry that `connect` adds agrees with all the others.
fresh_client :
    (last a : BusAddr) (q : ℕ) (c : Client)
    → neg_part a ≡ neg_part last + 1
    → has_queue q c ≡ false
    → IsGiven last c
    → Agree (record { addr = a; queue = q }) c
fresh_client last a q c new other given = (
  (λ e. absurd (let e' : neg_part a ≡ neg_part c.addr = ap neg_part e in omega (arith, given.1))),
  (λ e. absurd (ground arith)),
)

-- Connecting a client keeps the bus valid while addresses are left, whether the client is new,
-- known or without a queue.
pub connect-IsValid :
    (bus : Bus) (client : BusClient) → HasRoom bus → IsValid bus → IsValid (connect bus client).2
unfolding connect
connect-IsValid bus client room v = elim (Option-cases client.queue) [
  | inl e ↦ rw (e, connect) v
  | inr (q, e) ↦ elim (Option-cases (find_if (has_queue q) bus.clients)) [
    | inr (i, found) ↦ rw (e, connect, found) v
    | inl fresh ↦
        let last = bus.addr_last in
        let a = decrement last in
        let lem = decrement_lem last v.last_client room.0 in
        rw (e, connect, fresh)
          (record {
            last_client = lem.2;
            last_group = v.last_group;
            given = (
              (lem.0, omega arith),
              All-map _ _ bus.clients (λ c g. (g.0, omega (arith, g.1, lem.1))) v.given,
            );
            agree =
                pairs-cons Agree _ bus.clients
                  (λ c d g. (λ h. sym (g.0 (sym h)), λ h. sym (g.1 (sym h)))) (λ h. refl, λ h. refl)
                  (All-zip _ _ _ bus.clients (λ c o g. fresh_client last a q c lem.1 o g)
                    (find_if-none (has_queue q) bus.clients fresh) v.given)
                  v.agree;
            numbered = v.numbered;
            agree_names = v.agree_names;
          })
  ]
]
