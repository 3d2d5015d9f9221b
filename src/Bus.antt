-- ===== src/Bus.antt =====
-- The message bus: src/components/bus/include/Bus.h, BusAddr.h, BusCommand.h and src/Bus.cpp.
-- This file has the registry of clients and groups; Bus/Mailbox.antt the mailboxes and the relaying of
-- messages. A method that a lock guards is one step.
pub mod Lists
pub mod Valid
pub mod Clients
pub mod Groups
pub mod Joining
pub mod Resolving
pub mod Leaving
pub mod Tasks
pub mod Mutex
pub mod Queues
pub mod Mailbox
pub mod Commands
mod Examples
use esp_ac_dimmer.Prelude.{
  ℕ, zero, suc, ◌≡◌, ◌==◌, if◌then◌else◌, Bool, true, false, not, ◌||◌, List, [], ◌∷◌, ◌++◌, Option,
  none, some, length, drop,
}
use esp_ac_dimmer.Prelude.Int.{ℤ, pos, negsuc, eq_ℤ, is_neg, is_pos, decrement, increment}
use Prim.Native.String.{String}
use text.Mathlib.Text.{◌==◌ as str_eq}

-- `BusAddr`: 0 is no address, a client's is negative, a group's positive.
abbrev pub BusAddr : Type 0
BusAddr = ℤ

abbrev pub invalid : BusAddr
invalid = pos 0

-- `Bus::Client`; a queue's handle is a number, and `nullptr` the `none` of an option.
pub record Client : Type 0 where
  pub addr : BusAddr
  pub queue : ℕ

-- `Bus::Group`.
pub record Group : Type 0 where
  pub addr : BusAddr
  pub addr_name : String
  pub destination : List BusAddr

pub record Bus : Type 0 where
  pub addr_last : BusAddr
  pub group_last : BusAddr
  pub clients : List Client
  pub groups : List Group

-- The fields of `IBusClient` that the bus reads and writes.
pub record BusClient : Type 0 where
  pub addr : BusAddr
  pub queue : Option ℕ

abbrev pub new_bus : Bus
new_bus = record { addr_last = invalid; group_last = invalid; clients = []; groups = [] }

module _ {ℓ} {A : Type ℓ} where
  -- `std::find_if`: the first element that passes.
  unfoldable pub find_if : (A → Bool) → List A → Option A
  find_if p [] = none
  find_if p (x ∷ xs) = if p x then some x else find_if p xs

  unfoldable pub reject : (A → Bool) → List A → List A
  reject p [] = []
  reject p (x ∷ xs) = if p x then reject p xs else x ∷ reject p xs

  -- `std::remove_if` without `erase`: what passes is overwritten by what follows it and is kept,
  -- and the list keeps its size, so the places at its end keep what they held.
  unfoldable pub remove_if : (A → Bool) → List A → List A
  unfolding reject
  remove_if p xs = reject p xs ++ drop (length (reject p xs)) xs

  -- A change through the iterator that `std::find_if` returns.
  unfoldable pub update_if : (A → Bool) → (A → A) → List A → List A
  update_if p f [] = []
  update_if p f (x ∷ xs) = if p x then f x ∷ xs else x ∷ update_if p f xs

abbrev pub has_queue : ℕ → Client → Bool
has_queue q c = c.queue == q

abbrev pub has_client_addr : BusAddr → Client → Bool
has_client_addr a c = eq_ℤ a c.addr

abbrev pub has_addr : BusAddr → Group → Bool
has_addr a g = eq_ℤ a g.addr

abbrev pub has_name : String → Group → Bool
has_name n g = str_eq g.addr_name n

-- `Bus::connect`: whether it succeeds, the client and the bus after it.
pub connect : Bus → BusClient → Bool × BusClient × Bus
unfolding find_if
connect bus client = elim client.queue [
  | none ↦ (false, client, bus)
  | some q ↦ elim (find_if (has_queue q) bus.clients) [
    | some i ↦ (true, record client { addr = i.addr }, bus)
    | none ↦
        let a = decrement bus.addr_last in
        (
          true,
          record client { addr = a },
          record bus { addr_last = a; clients = record { addr = a; queue = q } ∷ bus.clients },
        )
  ]
]

-- `Bus::disconnect`.
pub disconnect : Bus → BusClient → BusClient × Bus
unfolding remove_if
disconnect bus client = elim client.queue [
  | none ↦ (client, bus)
  | some q ↦ (
    record client { addr = invalid },
    record bus { clients = remove_if (has_queue q) bus.clients },
  )
]

abbrev pub add_member : BusAddr → Group → Group
add_member a g = elim (find_if (eq_ℤ a) g.destination) [
  | some b ↦ g
  | none ↦ record g { destination = a ∷ g.destination }
]

-- `Bus::join(BusAddr, IBusClient&)`. It makes a missing group with `addrName(nullptr)`, which is
-- undefined: `none`.
pub join_addr : Bus → BusAddr → BusClient → Option (Bool × Bus)
unfolding find_if update_if
join_addr bus addr client =
    if not (is_pos addr) || not (is_neg client.addr)
    then some (false, bus)
    else elim (find_if (has_addr addr) bus.groups) [
      | none ↦ none
      | some g ↦ some (
        true,
        record bus { groups = update_if (has_addr addr) (add_member client.addr) bus.groups },
      )
    ]

-- The first locked part of `Bus::join(const char*, IBusClient&)`: the group's address, and a new
-- group if there is none of that name.
pub name_addr : Bus → String → BusAddr × Bus
unfolding find_if
name_addr bus name = elim (find_if (has_name name) bus.groups) [
  | some g ↦ (g.addr, bus)
  | none ↦
      let a = increment bus.group_last in
      (
        a,
        record bus {
          group_last = a;
          groups = record { addr = a; addr_name = name; destination = [] } ∷ bus.groups;
        },
      )
]

-- `Bus::join(const char*, IBusClient&)`.
pub join : Bus → Option String → BusClient → Option (Bool × Bus)
unfolding name_addr join_addr
join bus none client = some (false, bus)
join bus (some name) client = let (a, bus') = name_addr bus name in join_addr bus' a client

abbrev pub remove_member : BusAddr → Group → Group
remove_member a g = record g { destination = remove_if (eq_ℤ a) g.destination }

-- `Bus::leave(BusAddr, IBusClient&)`.
pub leave_addr : Bus → BusAddr → BusClient → Bus
unfolding find_if update_if remove_if
leave_addr bus addr client =
    if not (is_pos addr) || not (is_neg client.addr)
    then bus
    else elim (find_if (has_addr addr) bus.groups) [
      | none ↦ bus
      | some g ↦ record bus {
        groups = update_if (has_addr addr) (remove_member client.addr) bus.groups;
      }
    ]

-- `Bus::leave(const char*, IBusClient&)`.
pub leave : Bus → Option String → BusClient → Bus
unfolding find_if leave_addr
leave bus none client = bus
leave bus (some name) client = elim (find_if (has_name name) bus.groups) [
  | none ↦ bus
  | some g ↦ leave_addr bus g.addr client
]

-- `Bus::destination`.
pub destination : Bus → BusAddr → List BusAddr
unfolding find_if
destination bus addr =
    if is_neg addr
    then addr ∷ []
    else if is_pos addr
    then elim (find_if (has_addr addr) bus.groups) [ some g ↦ g.destination | none ↦ [] ]
    else []

-- `Bus::resolve(BusAddr)`.
pub resolve : Bus → BusAddr → Option ℕ
unfolding find_if
resolve bus addr =
    if is_neg addr
    then elim (find_if (has_client_addr addr) bus.clients) [ some c ↦ some c.queue | none ↦ none ]
    else none

-- `Bus::resolve(const char*)`.
pub resolve_name : Bus → Option String → BusAddr
unfolding find_if
resolve_name bus none = invalid
resolve_name bus (some name) = elim (find_if (has_name name) bus.groups) [
  | some g ↦ g.addr
  | none ↦ invalid
]
