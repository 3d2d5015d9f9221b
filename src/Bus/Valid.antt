-- ===== src/Bus/Valid.antt =====
-- The invariant of the registry of clients and groups.
use esp_ac_dimmer.Prelude.{◌+◌, ◌^◌, ◌≤◌, ◌<◌, ◌≡◌, ◌↔◌, true, All}
use esp_ac_dimmer.Prelude.Int.{pos_part, neg_part, is_neg, is_pos}
use esp_ac_dimmer.Bus.{BusAddr, Client, Group, Bus}

-- A client's address was given out: it is negative and not below the last one.
abbrev pub IsGiven : BusAddr → Client → Type 0
IsGiven last c = (is_neg c.addr ≡ true) × (neg_part c.addr ≤ neg_part last)

-- Two entries have the same address exactly when they have the same queue.
abbrev pub Agree : Client → Client → Type 0
Agree c d = (c.addr ≡ d.addr) ↔ (c.queue ≡ d.queue)

abbrev pub IsNumbered : BusAddr → Group → Type 0
IsNumbered last g =
    (is_pos g.addr ≡ true)
    × (pos_part g.addr ≤ pos_part last)
    × All (λ a. is_neg a ≡ true) g.destination

abbrev pub AgreeNames : Group → Group → Type 0
AgreeNames g h = (g.addr ≡ h.addr) ↔ (g.addr_name ≡ h.addr_name)

pub record IsValid (bus : Bus) : Type 0 where
  pub last_client : pos_part bus.addr_last ≡ 0
  pub last_group : neg_part bus.group_last ≡ 0
  pub given : All (IsGiven bus.addr_last) bus.clients
  pub agree : All (λ c. All (Agree c) bus.clients) bus.clients
  pub numbered : All (IsNumbered bus.group_last) bus.groups
  pub agree_names : All (λ g. All (AgreeNames g) bus.groups) bus.groups

-- The addresses have not run out.
abbrev pub HasRoom : Bus → Type 0
HasRoom bus = (neg_part bus.addr_last < 2 ^ 31) × (pos_part bus.group_last + 1 < 2 ^ 31)
