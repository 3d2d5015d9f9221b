-- ===== src/Bus/Tasks.antt =====
-- Tasks that use one `Bus` at the same time, in any order: src/components/bus/src/Bus.cpp. A step is a
-- region under the bus's mutex with what its task does around it alone; `join` and `leave` by name
-- have two such regions, and other tasks' steps may come between them.
pub mod Stable
pub mod Reached
mod Examples
use esp_ac_dimmer.Prelude.{
  ℕ, zero, suc, ◌≡◌, ◌==◌, if◌then◌else◌, Bool, true, false, not, Option, none, some,
}
use Prim.Native.String.{String}
use esp_ac_dimmer.Bus.{
  BusAddr, Group, Bus, BusClient, new_bus, invalid, find_if, has_name, connect, disconnect,
  name_addr, join_addr, leave_addr,
}

-- Where a task stands: outside of the bus's methods, or between the two regions of `join` or `leave`, with
-- `addrName` and `addr`.
pub data Pc : Type 0 where
  idle : Pc
  joining : String → BusAddr → Pc
  leaving : String → BusAddr → Pc

-- The bus, and for each task its client and where it stands.
pub record System : Type 0 where
  pub bus : Bus
  pub client : ℕ → BusClient
  pub pc : ℕ → Pc

abbrev pub update : {A : Type 0} → (ℕ → A) → ℕ → A → ℕ → A
update f i a j = if j == i then a else f j

-- A step of task `i`. A group that is missing in the second region of `join` would be undefined: there
-- would be no step. A task that leaves a group of an unknown name does not get to a second region.
pub data Step (s : System) : System → Type 0 where
  connects :
      (i : ℕ)
      → s.pc i ≡ idle
      → Step s (record s {
        bus = (connect s.bus (s.client i)).2;
        client = update s.client i (connect s.bus (s.client i)).1;
      })
  disconnects :
      (i : ℕ)
      → s.pc i ≡ idle
      → Step s (record s {
        bus = (disconnect s.bus (s.client i)).1;
        client = update s.client i (disconnect s.bus (s.client i)).0;
      })
  begins_join :
      (i : ℕ) (name : String)
      → s.pc i ≡ idle
      → Step s (record s {
        bus = (name_addr s.bus name).1;
        pc = update s.pc i (joining name (name_addr s.bus name).0);
      })
  ends_join :
      (i : ℕ) (name : String) (a : BusAddr) (answer : Bool) (bus : Bus)
      → s.pc i ≡ joining name a
      → join_addr s.bus a (s.client i) ≡ some (answer, bus)
      → Step s (record s { bus = bus; pc = update s.pc i idle })
  begins_leave :
      (i : ℕ) (name : String) (g : Group)
      → s.pc i ≡ idle
      → find_if (has_name name) s.bus.groups ≡ some g
      → Step s (record s { pc = update s.pc i (leaving name g.addr) })
  ends_leave :
      (i : ℕ) (name : String) (a : BusAddr)
      → s.pc i ≡ leaving name a
      → Step s (record s { bus = leave_addr s.bus a (s.client i); pc = update s.pc i idle })

-- At the start no client is connected.
pub record IsStart (s : System) : Type 0 where
  pub new : s.bus ≡ new_bus
  pub apart : (i : ℕ) → (s.client i).addr ≡ invalid
  pub outside : (i : ℕ) → s.pc i ≡ idle

-- What so many steps of any tasks reach.
pub data Reach : ℕ → System → Type 0 where
  start : {s : System} → IsStart s → Reach zero s
  later : {n : ℕ} {s t : System} → Reach n s → Step s t → Reach (suc n) t
