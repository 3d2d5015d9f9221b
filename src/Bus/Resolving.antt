-- ===== src/Bus/Resolving.antt =====
-- What connecting and disconnecting a client do to the lookup of addresses.
use esp_ac_dimmer.Prelude.{
  ==_iff, ℕ, ◌≡◌, ◌≢◌, refl, sym, ap, ◌∙◌, inl, inr, arith, true, false, List, [], ◌∷◌, ◌++◌, none,
  some, All, Option-cases,
}
use esp_ac_dimmer.Prelude.Int.{is_neg, decrement, eq_ℤ_iff, eq_ℤ_refl}
use esp_ac_dimmer.Bus.{
  BusAddr, Client, Bus, BusClient, find_if, remove_if, has_queue, has_client_addr, connect,
  disconnect, resolve,
}
use esp_ac_dimmer.Bus.Lists.{
  find_if-passes, find_if-All, find_if-remove_if, find_if-none, find_if-append, remove_if-at_end,
  All-map,
}
use esp_ac_dimmer.Bus.Valid.{Agree, IsValid, HasRoom}
use esp_ac_dimmer.Bus.Clients.{decrement_lem}

-- `resolve` answers `q` for an address exactly when an entry of the address is found.
resolve-found :
    (bus : Bus) (a : BusAddr) (c : Client)
    → is_neg a ≡ true
    → find_if (has_client_addr a) bus.clients ≡ some c
    → resolve bus a ≡ some c.queue
unfolding resolve
resolve-found bus a c n e = rw (n, e)

-- An entry that is found by its queue is found by its address, with that queue.
queue-found :
    (q : ℕ) (cs : List Client) (c : Client)
    → All (λ c. All (Agree c) cs) cs
    → find_if (has_queue q) cs ≡ some c
    → (d : Client) × (find_if (has_client_addr c.addr) cs ≡ some d) × (d.queue ≡ q)
queue-found q cs c agree e =
    let row = find_if-All _ (has_queue q) cs c agree e in
    let own : c.queue ≡ q = let t = find_if-passes (has_queue q) cs c e in ground arith in
    elim (Option-cases (find_if (has_client_addr c.addr) cs)) [
      | inr (d, found) ↦
          let same : c.addr ≡ d.addr =
            (eq_ℤ_iff c.addr d.addr).0 (find_if-passes (has_client_addr c.addr) cs d found) in
          let agrees = find_if-All (Agree c) (has_client_addr c.addr) cs d row found in
          (d, found, sym (agrees.0 same) ∙ own)
      | inl missing ↦ absurd (
          let misses = find_if-none (has_client_addr c.addr) cs missing in
          let miss = find_if-All _ (has_queue q) cs c misses e in
          ground (arith, miss, eq_ℤ_refl c.addr))
    ]

connect-known :
    (bus : Bus) (client : BusClient) (q : ℕ) (i : Client)
    → client.queue ≡ some q
    → find_if (has_queue q) bus.clients ≡ some i
    → connect bus client ≡ (true, record client { addr = i.addr }, bus)
unfolding connect
connect-known bus client q i e found = rw (e, connect, found) (rw e refl)

connect-new :
    (bus : Bus) (client : BusClient) (q : ℕ)
    → client.queue ≡ some q
    → find_if (has_queue q) bus.clients ≡ none
    → let a = decrement bus.addr_last in
      connect bus client ≡ (
        true,
        record client { addr = a },
        record bus { addr_last = a; clients = record { addr = a; queue = q } ∷ bus.clients },
      )
unfolding connect
connect-new bus client q e fresh = rw (e, connect, fresh) (rw e refl)

-- Connecting a client whose queue exists succeeds, and from then on its address, which is negative,
-- resolves to its queue. A client that is connected again gets the address that it had.
pub resolve-connect :
    (bus : Bus) (client : BusClient) (q : ℕ)
    → IsValid bus
    → HasRoom bus
    → client.queue ≡ some q
    → let (ok, client', bus') = connect bus client in
      (ok ≡ true)
      × (is_neg client'.addr ≡ true)
      × (client'.queue ≡ some q)
      × (resolve bus' client'.addr ≡ some q)
      × (connect bus' client' ≡ (true, client', bus'))
resolve-connect bus client q v room e = elim (Option-cases (find_if (has_queue q) bus.clients)) [
  | inr (i, found) ↦
      let g = find_if-All _ (has_queue q) bus.clients i v.given found in
      let (d, at, qd) = queue-found q bus.clients i v.agree found in
      rw (connect-known bus client q i e found) (
        refl,
        g.0,
        e,
        resolve-found bus i.addr d g.0 at ∙ ap some qd,
        connect-known bus (record client { addr = i.addr }) q i e found,
      )
  | inl fresh ↦
      let a = decrement bus.addr_last in
      let lem = decrement_lem bus.addr_last v.last_client room.0 in
      let new : Client = record { addr = a; queue = q } in
      let at : find_if (has_client_addr a) (new ∷ bus.clients) ≡ some new =
        unfold find_if in rw (eq_ℤ_refl a) refl in
      let again : find_if (has_queue q) (new ∷ bus.clients) ≡ some new =
        unfold find_if in rw ((==_iff q q).1 refl) refl in
      let bus' = record bus { addr_last = a; clients = new ∷ bus.clients } in
      rw (connect-new bus client q e fresh) (
        refl,
        lem.0,
        e,
        resolve-found bus' a new lem.0 at,
        connect-known bus' (record client { addr = a }) q new e again,
      )
]

other_queue :
    (a : BusAddr) (q r : ℕ) (c x : Client)
    → a ≡ c.addr
    → c.queue ≡ r
    → r ≢ q
    → Agree c x
    → has_client_addr a x ≡ true
    → has_queue q x ≡ false
other_queue a q r c x same own ne g t =
    let at : c.addr ≡ x.addr = sym same ∙ (eq_ℤ_iff a x.addr).0 t in
    let same_queue : c.queue ≡ x.queue = g.0 at in ground arith

resolve-inv :
    (bus : Bus) (a : BusAddr) (r : ℕ)
    → resolve bus a ≡ some r
    → (c : Client) × (is_neg a ≡ true)
      × (find_if (has_client_addr a) bus.clients ≡ some c)
      × (c.queue ≡ r)
unfolding resolve
resolve-inv bus a r h = elim (Option-cases (find_if (has_client_addr a) bus.clients)) [
  | inl e ↦ absurd (ground arith)
  | inr (c, e) ↦ (c, ground arith, e, ground arith)
]

-- Disconnecting a client changes no lookup that gave another queue: an address that resolved to a
-- queue other than the client's still resolves to that queue.
pub resolve-disconnect_other :
    (bus : Bus) (client : BusClient) (a : BusAddr) (q r : ℕ)
    → IsValid bus
    → client.queue ≡ some q
    → resolve bus a ≡ some r
    → r ≢ q
    → resolve (disconnect bus client).1 a ≡ some r
unfolding disconnect
resolve-disconnect_other bus client a q r v e h ne =
    let (c, n, found, own) = resolve-inv bus a r h in
    let same : a ≡ c.addr =
      (eq_ℤ_iff a c.addr).0 (find_if-passes (has_client_addr a) bus.clients c found) in
    let row = find_if-All _ (has_client_addr a) bus.clients c v.agree found in
    let others : All (λ x. has_client_addr a x ≡ true → has_queue q x ≡ false) bus.clients =
      All-map (Agree c) _ bus.clients (λ x g t. other_queue a q r c x same own ne g t) row in
    rw (e, disconnect)
      (resolve-found _ a c n
          (find_if-remove_if (has_client_addr a) (has_queue q) bus.clients others ∙ found)
        ∙ ap some own)

-- `std::remove_if` does not erase: in a valid bus, when the client whose entry stands last, as that of the
-- client that connected first does, disconnects, and its queue has no other entry, then the bus stays
-- as it is, and the address of the entry still resolves to the client's queue.
pub resolve-disconnect_first :
    (bus : Bus) (client : BusClient) (cs : List Client) (c : Client)
    → IsValid bus
    → bus.clients ≡ cs ++ (c ∷ [])
    → client.queue ≡ some c.queue
    → find_if (has_queue c.queue) cs ≡ none
    → ((disconnect bus client).1 ≡ bus) × (resolve (disconnect bus client).1 c.addr ≡ some c.queue)
unfolding disconnect
resolve-disconnect_first bus client cs c v e q fresh =
    let own : has_queue c.queue c ≡ true = (==_iff c.queue c.queue).1 refl in
    let kept : remove_if (has_queue c.queue) bus.clients ≡ bus.clients =
      rw e (remove_if-at_end (has_queue c.queue) cs c fresh own) in
    let same : (disconnect bus client).1 ≡ bus =
      rw (q, disconnect) (ap (λ (cs : List Client). record bus { clients = cs }) kept) in
    let found : find_if (has_queue c.queue) bus.clients ≡ some c =
      rw e (
        find_if-append (has_queue c.queue) cs (c ∷ [])
        ∙ rw fresh (unfold find_if in rw own refl)) in
    let (d, at, qd) = queue-found c.queue bus.clients c v.agree found in
    let n = (find_if-All _ (has_queue c.queue) bus.clients c v.given found).0 in
    (same, rw same (resolve-found bus c.addr d n at ∙ ap some qd))
