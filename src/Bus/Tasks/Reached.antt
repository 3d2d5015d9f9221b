-- ===== src/Bus/Tasks/Reached.antt =====
-- What holds of the bus whatever the tasks do on it at the same time.
use esp_ac_dimmer.Prelude.{
  ℕ, ◌+◌, ◌^◌, ◌≤◌, ◌<◌, ◌≡◌, ◌≢◌, refl, sym, ◌∙◌, subst, inl, inr, arith, true, ◌==◌, none, some,
  Bool-cases, Option-cases,
}
use mathlib.Core.List.{Mem}
use esp_ac_dimmer.Prelude.Int.{pos_part, neg_part, is_pos, is_neg}
use Prim.Native.String.{String}
use esp_ac_dimmer.Bus.{
  BusAddr, Group, Bus, BusClient, invalid, add_member, find_if, has_name, has_addr, name_addr,
  join_addr, destination, resolve_name,
}
use esp_ac_dimmer.Bus.Lists.{find_if-All}
use esp_ac_dimmer.Bus.Valid.{IsValid, HasRoom}
use esp_ac_dimmer.Bus.Clients.{new_bus-IsValid, connect-IsValid, disconnect-IsValid}
use esp_ac_dimmer.Bus.Groups.{
  add_member-keys, joined, joined-IsValid, name_addr-IsValid, leave_addr-IsValid,
}
use esp_ac_dimmer.Bus.Joining.{
  name_addr-found, find_by_addr, joined-find, joined-mem, resolve_name-found,
}
use esp_ac_dimmer.Bus.Tasks.{
  Pc, idle, joining, leaving, System, update, Step, connects, disconnects, begins_join, ends_join,
  begins_leave, ends_leave, Reach, start, later,
}
use esp_ac_dimmer.Bus.Tasks.Stable.{
  Advances, same-Advances, connect-Advances, disconnect-Advances, name_addr-Advances,
  join_addr_cases, join_addr-Advances, leave_addr-Advances,
}

-- A step of a valid bus with room keeps it valid and goes on from it.
record Moves (s t : System) : Type 0 where
  valid : IsValid t.bus
  advances : Advances s.bus t.bus

Step-Moves : {s t : System} → Step s t → IsValid s.bus → HasRoom s.bus → Moves s t
Step-Moves {s} (connects i at) v room = record {
  valid = connect-IsValid s.bus (s.client i) room v;
  advances = connect-Advances s.bus (s.client i) v room;
}
Step-Moves {s} (disconnects i at) v room = record {
  valid = disconnect-IsValid s.bus (s.client i) v;
  advances = disconnect-Advances s.bus (s.client i);
}
Step-Moves {s} (begins_join i name at) v room = record {
  valid = name_addr-IsValid s.bus name room v;
  advances = name_addr-Advances s.bus name v room;
}
Step-Moves {s} (ends_join i name a answer bus at e) v room = record {
  valid = elim (join_addr_cases s.bus bus a (s.client i) answer e) [
    | inl same ↦ subst IsValid same v
    | inr (connected, joins) ↦ subst IsValid joins (joined-IsValid s.bus a (s.client i) connected v)
  ];
  advances = join_addr-Advances s.bus bus a (s.client i) answer e;
}
Step-Moves {s} (begins_leave i name g at found) v room = record {
  valid = v;
  advances = same-Advances s.bus;
}
Step-Moves {s} (ends_leave i name a at) v room = record {
  valid = leave_addr-IsValid s.bus a (s.client i) v;
  advances = leave_addr-Advances s.bus a (s.client i);
}

-- A task between the two regions of `join` has the address of the group of its name.
abbrev HasGroup : Bus → Pc → Type 0
HasGroup bus idle = Unit
HasGroup bus (leaving name a) = Unit
HasGroup bus (joining name a) =
    (g : Group) × (find_if (has_name name) bus.groups ≡ some g) × (g.addr ≡ a)

HasGroup-Advances : (bus bus' : Bus) (p : Pc) → Advances bus bus' → HasGroup bus p → HasGroup bus' p
HasGroup-Advances bus bus' idle adv h = tt
HasGroup-Advances bus bus' (leaving name a) adv h = tt
HasGroup-Advances bus bus' (joining name a) adv (g, e, at) =
    let (g', e', same) = adv.named name g e in (g', e', same ∙ at)

HasGroup-update :
    (bus bus' : Bus) (pc : ℕ → Pc) (i : ℕ) (p : Pc)
    → Advances bus bus'
    → ((j : ℕ) → HasGroup bus (pc j))
    → HasGroup bus' p
    → (j : ℕ) → HasGroup bus' (update pc i p j)
HasGroup-update bus bus' pc i p adv old new j = elim (Bool-cases (j == i)) [
  | inl same ↦ rw same new
  | inr other ↦ rw other (HasGroup-Advances bus bus' (pc j) adv (old j))
]

Step-HasGroup :
    {s t : System}
    → Step s t
    → Advances s.bus t.bus
    → ((j : ℕ) → HasGroup s.bus (s.pc j))
    → (j : ℕ) → HasGroup t.bus (t.pc j)
Step-HasGroup {s} (connects i at) adv old j = HasGroup-Advances s.bus _ (s.pc j) adv (old j)
Step-HasGroup {s} (disconnects i at) adv old j = HasGroup-Advances s.bus _ (s.pc j) adv (old j)
Step-HasGroup {s} (begins_join i name at) adv old j =
    HasGroup-update s.bus _ s.pc i (joining name (name_addr s.bus name).0) adv old
      (name_addr-found s.bus name) j
Step-HasGroup {s} (ends_join i name a answer bus at e) adv old j =
    HasGroup-update s.bus bus s.pc i idle adv old tt j
Step-HasGroup {s} (begins_leave i name g at found) adv old j =
    HasGroup-update s.bus s.bus s.pc i (leaving name g.addr) adv old tt j
Step-HasGroup {s} (ends_leave i name a at) adv old j =
    HasGroup-update s.bus _ s.pc i idle adv old tt j

record IsSound (n : ℕ) (s : System) : Type 0 where
  valid : IsValid s.bus
  clients : neg_part s.bus.addr_last ≤ n
  groups : pos_part s.bus.group_last ≤ n
  joins : (j : ℕ) → HasGroup s.bus (s.pc j)

Reach-IsSound : {n : ℕ} {s : System} → n + 1 < 2 ^ 31 → Reach n s → IsSound n s
Reach-IsSound few (start {s} at) = record {
  valid = rw at.new new_bus-IsValid;
  clients = rw at.new (omega arith);
  groups = rw at.new (omega arith);
  joins = λ j. rw (at.outside j) tt;
}
Reach-IsSound few (later {n} {s} {t} before step) =
    let h : IsSound n s = Reach-IsSound (omega arith) before in
    let room : HasRoom s.bus = (omega (arith, h.clients), omega (arith, h.groups)) in
    let m = Step-Moves step h.valid room in
    record {
      valid = m.valid;
      clients = omega (arith, m.advances.next_client, h.clients);
      groups = omega (arith, m.advances.next_group, h.groups);
      joins = Step-HasGroup step m.advances h.joins;
    }

-- Whatever tasks connect, disconnect, join and leave in whatever order, after less than 2 ^ 31 - 1 steps
-- the bus is valid.
pub Reach-IsValid : {n : ℕ} {s : System} → n + 1 < 2 ^ 31 → Reach n s → IsValid s.bus
Reach-IsValid few r = (Reach-IsSound few r).valid

resolve_name-missing :
    (bus : Bus) (name : String)
    → find_if (has_name name) bus.groups ≡ none
    → resolve_name bus (some name) ≡ invalid
unfolding resolve_name
resolve_name-missing bus name e = rw (e, resolve_name) refl

join_addr-joined :
    (bus : Bus) (a : BusAddr) (client : BusClient) (g : Group)
    → is_pos a ≡ true
    → is_neg client.addr ≡ true
    → find_if (has_addr a) bus.groups ≡ some g
    → join_addr bus a client ≡ some (true, joined bus a client)
unfolding join_addr
join_addr-joined bus a client g p n e = rw (p, n, e) refl

-- The second region of `join` by name, on a valid bus that has the group.
join_addr-mem :
    (bus : Bus) (name : String) (a : BusAddr) (g : Group) (client : BusClient)
    → IsValid bus
    → find_if (has_name name) bus.groups ≡ some g
    → g.addr ≡ a
    → is_neg client.addr ≡ true
    → let bus' = joined bus a client in
      (join_addr bus a client ≡ some (true, bus'))
      × (resolve_name bus' (some name) ≡ a)
      × Mem client.addr (destination bus' a)
join_addr-mem bus name a g client v e same connected =
    let p = (find_if-All _ (has_name name) bus.groups g v.numbered e).0 in
    let bus' = joined bus g.addr client in
    let resolves : resolve_name bus' (some name) ≡ g.addr =
      resolve_name-found bus' name (add_member client.addr g) (joined-find bus name g client v e).0
      ∙ (add_member-keys client.addr g).0 in
    rw (← same) (
      join_addr-joined bus g.addr client g p connected (find_by_addr bus name g v e),
      resolves,
      subst (λ b. Mem client.addr (destination bus' b)) resolves (joined-mem bus name g client v e),
    )

-- However other tasks' steps come between the two regions of a connected client's `join` by name, within
-- 2 ^ 31 - 2 steps from the start: the second region does not make a group of a null name, which
-- would be undefined, but answers `true`. The name then resolves to the address found in the first
-- region, and the client is a member there.
pub Reach-join :
    {n : ℕ} {s : System} (i : ℕ) (name : String) (a : BusAddr)
    → n + 1 < 2 ^ 31
    → Reach n s
    → s.pc i ≡ joining name a
    → is_neg (s.client i).addr ≡ true
    → (bus : Bus) × (join_addr s.bus a (s.client i) ≡ some (true, bus))
      × (resolve_name bus (some name) ≡ a)
      × Mem (s.client i).addr (destination bus a)
Reach-join {n} {s} i name a few r at connected =
    let h : IsSound n s = Reach-IsSound few r in
    let (g, e, same) : HasGroup s.bus (joining name a) = subst (HasGroup s.bus) at (h.joins i) in
    let m = join_addr-mem s.bus name a g (s.client i) h.valid e same connected in
    (joined s.bus a (s.client i), m.0, m.1, m.2)

-- In a system reached in at most 2 ^ 31 - 2 steps of the tasks, no step of any task changes the address
-- that a name resolves to, once it does.
pub Step-resolve_name :
    {n : ℕ} {s t : System} (name : String)
    → n + 1 < 2 ^ 31
    → Reach n s
    → Step s t
    → resolve_name s.bus (some name) ≢ invalid
    → resolve_name t.bus (some name) ≡ resolve_name s.bus (some name)
Step-resolve_name {n} {s} {t} name few r step known =
    let h : IsSound n s = Reach-IsSound few r in
    let room : HasRoom s.bus = (omega (arith, h.clients), omega (arith, h.groups)) in
    let m = Step-Moves step h.valid room in
    elim (Option-cases (find_if (has_name name) s.bus.groups)) [
      | inl missing ↦ absurd (known (resolve_name-missing s.bus name missing))
      | inr (g, e) ↦
          let (g', e', same) = m.advances.named name g e in
          resolve_name-found t.bus name g' e' ∙ (same ∙ sym (resolve_name-found s.bus name g e))
    ]
