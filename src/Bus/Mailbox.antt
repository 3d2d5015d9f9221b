-- ===== src/Bus/Mailbox.antt =====
-- `IBusClient` and `BusMsg` of src/components/bus: sending, receiving and passing messages on.
pub mod Route
pub mod Relay
pub mod Drain
mod Examples
use esp_ac_dimmer.Prelude.{
  is_empty, ℕ, zero, suc, ◌≡◌, if◌then◌else◌, Bool, true, false, not, ◌||◌, ◌&&◌, List, [], ◌∷◌,
  Option, none, some, length,
}
use Prim.Native.String.{String}
use esp_ac_dimmer.Prelude.Int.{eq_ℤ}
use esp_ac_dimmer.Bus.{
  BusAddr, invalid, Bus, BusClient, connect, disconnect, destination, resolve, resolve_name,
}
use esp_ac_dimmer.Bus.Queues.{Queues}

-- `BusMsg`; `C` is the type of commands.
pub record BusMsg (C : Type 0) : Type 0 where
  pub from : BusAddr
  pub to : BusAddr
  pub destination : List BusAddr
  pub msg : C

-- `list.back()` and `list.pop_back()`.
unfoldable pub pop_back {ℓ} : {A : Type ℓ} → List A → Option (A × List A)
pop_back [] = none
pop_back (x ∷ []) = some (x, [])
pop_back (x ∷ y ∷ ys) = elim (pop_back (y ∷ ys)) [
  | none ↦ none
  | some (last, rest) ↦ some (last, x ∷ rest)
]

-- The `do … while` of `sendToNextClient`: the queue of the last address that has one, and the
-- addresses before it. The first argument bounds the rounds; the list's length is enough.
pub next_dest : ℕ → Bus → List BusAddr → Option ℕ × List BusAddr
unfolding pop_back
next_dest zero bus ds = (none, ds)
next_dest (suc fuel) bus ds = elim (pop_back ds) [
  | none ↦ (none, ds)
  | some (addr, rest) ↦ elim (resolve bus addr) [
    | some q ↦ (some q, rest)
    | none ↦ if is_empty rest then (none, rest) else next_dest fuel bus rest
  ]
]

module _ {K : Type 0} {C : Type 0} (rtos : Queues K (BusMsg C)) where
  -- The end of `sendToNextClient`, at the queue and the remaining addresses that its loop found. A
  -- message that found no client, or a full queue, is destroyed.
  pub pass_on : BusMsg C → Option ℕ × List BusAddr → K → K
  pass_on m (none, rest) k = k
  pass_on m (some q, rest) k = (rtos.send_item q (record m { destination = rest }) k).1

  -- `IBusClient::sendToNextClient`.
  pub send_to_next : Bus → BusMsg C → K → K
  unfolding next_dest pass_on
  send_to_next bus m k =
      if is_empty m.destination
      then k
      else pass_on m (next_dest (length m.destination) bus m.destination) k

  -- `IBusClient::send(BusAddr, …)`; the command may be null.
  pub send : Bus → BusClient → BusAddr → Option C → K → K
  unfolding send_to_next
  send bus client to none k = k
  send bus client to (some msg) k =
      if eq_ℤ to invalid
      then k
      else send_to_next bus
          (record { from = client.addr; to = to; destination = destination bus to; msg = msg }) k

  -- `IBusClient::send(const char*, …)`.
  pub send_by_name : Bus → BusClient → Option String → Option C → K → K
  unfolding send
  send_by_name bus client none msg k = k
  send_by_name bus client (some name) none k = k
  send_by_name bus client (some name) (some msg) k =
      send bus client (resolve_name bus (some name)) (some msg) k

  -- `IBusClient::initialize`: whether the client is connected, the client, the bus and the kernel.
  pub initialize : Bus → BusClient → K → Bool × BusClient × Bus × K
  initialize bus client k = elim client.queue [
    | some q ↦ (not (eq_ℤ invalid client.addr), client, bus, k)
    | none ↦
        let (handle, k') = rtos.create k in
        elim handle [
          | none ↦ (false, client, bus, k')
          | some q ↦
              let (ok, client', bus') = connect bus (record client { queue = some q }) in
              (not (eq_ℤ invalid client'.addr), client', bus', k')
        ]
  ]

  -- The loop of `IBusClient::~IBusClient`, with at most so many rounds; `none` when they run out.
  pub drain : ℕ → Bus → ℕ → K → Option K
  drain zero bus q k = none
  drain (suc fuel) bus q k =
      let (item, k') = rtos.receive_item q k in
      elim item [ none ↦ some k' | some m ↦ drain fuel bus q (send_to_next bus m k') ]

  -- The destructor after its call of `disconnect`.
  pub destroy_queue : ℕ → Bus → Option ℕ → K → Option (Bus × K)
  destroy_queue fuel bus none k = some (bus, k)
  destroy_queue fuel bus (some q) k = elim (drain fuel bus q k) [
    | none ↦ none
    | some k' ↦ some (bus, rtos.delete_queue q k')
  ]

  -- `IBusClient::~IBusClient`.
  pub destroy : ℕ → Bus → BusClient → K → Option (Bus × K)
  unfolding destroy_queue
  destroy fuel bus client k = destroy_queue fuel (disconnect bus client).1 client.queue k

  -- `IBusClient::tryReceive`: the message that the client's `receive` is given, if one came in the
  -- time, and the state after it was passed on. `receive` is virtual: what it does is a parameter.
  pub try_receive :
      (BusMsg C → Bus × K → Bus × K) → BusClient → Bus × K → Option (BusMsg C) × (Bus × K)
  try_receive on_receive client (bus, k) = elim client.queue [
    | none ↦ (none, (bus, k))
    | some q ↦
        let (item, k') = rtos.receive_item q k in
        elim item [
          | none ↦ (none, (bus, k'))
          | some m ↦
              let (bus', k'') = on_receive m (bus, k') in (some m, (bus', send_to_next bus' m k''))
        ]
  ]
