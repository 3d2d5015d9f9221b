-- ===== src/Bus/Joining.antt =====
-- Joining a group by name: it is always defined, and the client is then in the group's destination.
use esp_ac_dimmer.Bus.Groups.{add_member-keys, joined, joined-IsValid, name_addr-IsValid}
use mathlib.Core.List.{Mem, mem-cons_self}
use text.Mathlib.TextPositions.{eq_refl}
use esp_ac_dimmer.Prelude.{
  ◌≡◌, refl, sym, ap, ◌∙◌, subst, inl, inr, arith, Bool, true, false, if◌then◌else◌, ◌&&◌, List, [],
  ◌∷◌, Option, none, some, All, Bool-cases, Option-cases,
}
use esp_ac_dimmer.Prelude.Int.{is_pos-not_neg, eq_ℤ_refl, eq_ℤ, is_neg, is_pos, increment, eq_ℤ_iff}
use Prim.Native.String.{String}
use text.Mathlib.TextEquality.{eq_iff}
use esp_ac_dimmer.Bus.{
  add_member, BusAddr, Group, Bus, BusClient, find_if, has_addr, has_name, join_addr, name_addr,
  join, resolve_name, destination,
}
use esp_ac_dimmer.Bus.Lists.{
  find_if-update_if, find_if-congr, find_if-passes, find_if-All, find_if-mem, All-map,
}
use esp_ac_dimmer.Bus.Valid.{AgreeNames, IsValid, HasRoom}

-- `join` by name always gets past the construction of a group from a null name, since the group that
-- it looks up by address is there.
found_by_addr :
    (name : String) (gs : List Group) (g : Group)
    → find_if (has_name name) gs ≡ some g
    → (h : Group) × (find_if (has_addr g.addr) gs ≡ some h)
unfolding find_if
found_by_addr name [] g e = cc
found_by_addr name (x ∷ gs) g e = elim (Bool-cases (has_addr g.addr x)) [
  | inl t ↦ (x, rw t refl)
  | inr t ↦ elim (Bool-cases (has_name name x)) [
    | inl n ↦
        let same : x ≡ g = ground arith in
        absurd
          (let t' : eq_ℤ g.addr g.addr ≡ false = rw same at t in ground (arith, eq_ℤ_refl g.addr))
    | inr n ↦ let rest = found_by_addr name gs g (ground arith) in (rest.0, rw t rest.1)
  ]
]

-- After the first locked part the group of the name is there, and has the address.
pub name_addr-found :
    (bus : Bus) (name : String)
    → let r = name_addr bus name in
      (g : Group) × (find_if (has_name name) r.1.groups ≡ some g) × (g.addr ≡ r.0)
unfolding name_addr
name_addr-found bus name = elim (Option-cases (find_if (has_name name) bus.groups)) [
  | inr (g, e) ↦ rw (e, name_addr) (g, e, refl)
  | inl e ↦
      rw (e, name_addr)
        (
          record { addr = increment bus.group_last; addr_name = name; destination = [] },
          unfold find_if in rw (eq_refl name) refl,
          refl,
        )
]

-- `join` by name, with the branch that is never taken left out.
pub join-eq :
    (bus : Bus) (name : String) (client : BusClient)
    → join bus (some name) client ≡ (
        let (a, bus') = name_addr bus name in
        if is_pos a && is_neg client.addr
        then some (true, joined bus' a client)
        else some (false, bus'))
unfolding join join_addr
join-eq bus name client =
    let r = name_addr bus name in
    let (g, named, at) = name_addr-found bus name in
    let found : (h : Group) × (find_if (has_addr r.0) r.1.groups ≡ some h) =
      rw (← at) (found_by_addr name r.1.groups g named) in
    elim (Bool-cases (is_pos r.0)) [
      | inl p ↦ elim (Bool-cases (is_neg client.addr)) [
        | inl n ↦ rw (p, n, found.1)
        | inr n ↦ rw (p, n)
      ]
      | inr p ↦ rw p
    ]

-- Joining is defined for every state of the bus: the group made from a null name, which would be
-- undefined, is never reached.
pub join-total :
    (bus : Bus) (name : Option String) (client : BusClient)
    → (r : Bool × Bus) × (join bus name client ≡ some r)
join-total bus none client = ((false, bus), unfold join in refl)
join-total bus (some name) client =
    let a = (name_addr bus name).0 in
    let b = (name_addr bus name).1 in
    (
      if is_pos a && is_neg client.addr then (true, joined b a client) else (false, b),
      join-eq bus name client ∙ ground arith,
    )

same_tests :
    (name : String) (g : Group) (gs : List Group)
    → g.addr_name ≡ name
    → All (AgreeNames g) gs
    → All (λ x. has_addr g.addr x ≡ has_name name x) gs
same_tests name g gs e h =
    All-map _ _ gs (λ x r. ground (arith, r, e, eq_ℤ_iff g.addr x.addr, eq_iff x.addr_name name)) h

-- The group found by a name is the one found by its address.
pub find_by_addr :
    (bus : Bus) (name : String) (g : Group)
    → IsValid bus
    → find_if (has_name name) bus.groups ≡ some g
    → find_if (has_addr g.addr) bus.groups ≡ some g
find_by_addr bus name g v e =
    let names = find_if-All _ (has_name name) bus.groups g v.agree_names e in
    let own : g.addr_name ≡ name =
      (eq_iff g.addr_name name).0 (find_if-passes (has_name name) bus.groups g e) in
    find_if-congr (has_addr g.addr) (has_name name) bus.groups
      (same_tests name g bus.groups own names)
    ∙ e

pub joined-find :
    (bus : Bus) (name : String) (g : Group) (client : BusClient)
    → IsValid bus
    → find_if (has_name name) bus.groups ≡ some g
    → let gs = (joined bus g.addr client).groups in
      (find_if (has_name name) gs ≡ some (add_member client.addr g))
      × (find_if (has_addr g.addr) gs ≡ some (add_member client.addr g))
joined-find bus name g client v e =
    let names = find_if-All _ (has_name name) bus.groups g v.agree_names e in
    let own : g.addr_name ≡ name =
      (eq_iff g.addr_name name).0 (find_if-passes (has_name name) bus.groups g e) in
    let tests = same_tests name g bus.groups own names in
    let change = add_member-keys client.addr g in
    let by_addr = find_by_addr bus name g v e in
    (
      find_if-update_if (has_name name) (has_addr g.addr) (add_member client.addr) bus.groups g
          tests (rw change.1 (rw own (eq_refl name))) e,
      find_if-update_if (has_addr g.addr) (has_addr g.addr) (add_member client.addr) bus.groups g
          (All-map _ _ bus.groups (λ x h. refl) tests) (rw change.0 (eq_ℤ_refl g.addr)) by_addr,
    )

add_member-mem : (a : BusAddr) (g : Group) → Mem a (add_member a g).destination
add_member-mem a g = elim (Option-cases (find_if (eq_ℤ a) g.destination)) [
  | inl e ↦ rw (e, add_member) mem-cons_self
  | inr (b, e) ↦
      let same : a ≡ b = (eq_ℤ_iff a b).0 (find_if-passes (eq_ℤ a) g.destination b e) in
      rw (e, add_member, same) (find_if-mem (eq_ℤ a) g.destination b e)
]

pub resolve_name-found :
    (bus : Bus) (name : String) (g : Group)
    → find_if (has_name name) bus.groups ≡ some g
    → resolve_name bus (some name) ≡ g.addr
unfolding resolve_name
resolve_name-found bus name g e = rw (e, resolve_name)

pub destination-found :
    (bus : Bus) (a : BusAddr) (g : Group)
    → is_pos a ≡ true
    → find_if (has_addr a) bus.groups ≡ some g
    → destination bus a ≡ g.destination
unfolding destination
destination-found bus a g p e = rw (is_pos-not_neg a p, p, e)

pub joined-mem :
    (bus : Bus) (name : String) (g : Group) (client : BusClient)
    → IsValid bus
    → find_if (has_name name) bus.groups ≡ some g
    → let bus' = joined bus g.addr client in
      Mem client.addr (destination bus' (resolve_name bus' (some name)))
joined-mem bus name g client v e =
    let finds = joined-find bus name g client v e in
    let bus' = joined bus g.addr client in
    let g' = add_member client.addr g in
    let p = (find_if-All _ (has_name name) bus.groups g v.numbered e).0 in
    let there : destination bus' (resolve_name bus' (some name)) ≡ g'.destination =
      ap (destination bus')
        (resolve_name-found bus' name g' finds.0 ∙ (add_member-keys client.addr g).0)
      ∙ destination-found bus' g.addr g' p finds.1 in
    subst (Mem client.addr) (sym there) (add_member-mem client.addr g)

name_addr-clients : (bus : Bus) (name : String) → (name_addr bus name).1.clients ≡ bus.clients
unfolding name_addr
name_addr-clients bus name = ground arith

-- A connected client that joins a group by name is answered `true`; the name then resolves to an
-- address whose destination has the client, the registry of clients is as before, and the bus stays
-- valid.
pub join-mem :
    (bus : Bus) (name : String) (client : BusClient)
    → IsValid bus
    → HasRoom bus
    → is_neg client.addr ≡ true
    → (bus' : Bus) × (join bus (some name) client ≡ some (true, bus'))
      × IsValid bus'
      × Mem client.addr (destination bus' (resolve_name bus' (some name)))
      × (bus'.clients ≡ bus.clients)
join-mem bus name client v room n =
    let r = name_addr bus name in
    let (g, named, at) = name_addr-found bus name in
    let v' = name_addr-IsValid bus name room v in
    let p : is_pos r.0 ≡ true =
      rw (← at) ((find_if-All _ (has_name name) r.1.groups g v'.numbered named).0) in
    let joins : join bus (some name) client ≡ some (true, joined r.1 r.0 client) =
      join-eq bus name client ∙ rw (p, n) refl in
    (
      joined r.1 r.0 client,
      joins,
      joined-IsValid r.1 r.0 client n v',
      subst
          (λ a.
            let bus' = joined r.1 a client in
            Mem client.addr (destination bus' (resolve_name bus' (some name))))
          at (joined-mem r.1 name g client v' named),
      name_addr-clients bus name,
    )
