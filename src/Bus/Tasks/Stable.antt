-- ===== src/Bus/Tasks/Stable.antt =====
-- What a region under the mutex leaves of the groups' names and of the numbers given out.
use esp_ac_dimmer.Prelude.{
  ◌+◌, ◌≤◌, ◌≡◌, ◌⊎◌, subst, refl, sym, ap, ◌∙◌, inl, inr, arith, Bool, true, false, not, ◌||◌,
  List, [], ◌∷◌, none, some, Bool-cases, Option-cases,
}
use esp_ac_dimmer.Prelude.Int.{pos_part, neg_part, is_pos, is_neg}
use Prim.Native.String.{String}
use text.Mathlib.TextEquality.{eq_iff}
use esp_ac_dimmer.Bus.{
  BusAddr, Group, Bus, BusClient, find_if, update_if, has_name, has_addr, has_queue, add_member,
  remove_member, connect, disconnect, name_addr, join_addr, leave_addr,
}
use esp_ac_dimmer.Bus.Valid.{IsValid, HasRoom}
use esp_ac_dimmer.Bus.Clients.{decrement_lem}
use esp_ac_dimmer.Bus.Groups.{joined, add_member-keys, increment_lem}

-- Each name that had an address still has it, and at most one number of each kind was given out.
pub record Advances (bus bus' : Bus) : Type 0 where
  pub named :
      (name : String) (g : Group)
      → find_if (has_name name) bus.groups ≡ some g
      → (g' : Group) × (find_if (has_name name) bus'.groups ≡ some g') × (g'.addr ≡ g.addr)
  pub next_client : neg_part bus'.addr_last ≤ neg_part bus.addr_last + 1
  pub next_group : pos_part bus'.group_last ≤ pos_part bus.group_last + 1

pub same-Advances : (bus : Bus) → Advances bus bus
same-Advances bus = record {
  named = λ name g e. (g, e, refl);
  next_client = omega arith;
  next_group = omega arith;
}

named-update_if :
    (name : String) (q : Group → Bool) (f : Group → Group)
    → ((g : Group) → ((f g).addr ≡ g.addr) × ((f g).addr_name ≡ g.addr_name))
    → (gs : List Group) (g : Group) → find_if (has_name name) gs ≡ some g
    → (g' : Group) × (find_if (has_name name) (update_if q f gs) ≡ some g') × (g'.addr ≡ g.addr)
unfolding find_if update_if
named-update_if name q f keys [] g e = cc
named-update_if name q f keys (x ∷ gs) g e = elim (Bool-cases (q x)) [
  | inl hit ↦ elim (Bool-cases (has_name name x)) [
    | inl here ↦
        let same : x ≡ g = ground arith in
        let here' : has_name name (f x) ≡ true = rw (keys x).1 here in
        (f x, rw (hit, here') refl, (keys x).0 ∙ ap (λ (y : Group). y.addr) same)
    | inr other ↦
        let other' : has_name name (f x) ≡ false = rw (keys x).1 other in
        (g, rw (hit, other') (rw other at e), refl)
  ]
  | inr miss ↦ elim (Bool-cases (has_name name x)) [
    | inl here ↦
        let same : x ≡ g = ground arith in
        (x, rw (miss, here) refl, ap (λ (y : Group). y.addr) same)
    | inr other ↦
        let rest = named-update_if name q f keys gs g (rw other at e) in
        (rest.0, rw (miss, other) rest.1, rest.2)
  ]
]

change-Advances :
    (bus : Bus) (q : Group → Bool) (f : Group → Group)
    → ((g : Group) → ((f g).addr ≡ g.addr) × ((f g).addr_name ≡ g.addr_name))
    → Advances bus (record bus { groups = update_if q f bus.groups })
change-Advances bus q f keys = record {
  named = λ name g e. named-update_if name q f keys bus.groups g e;
  next_client = omega arith;
  next_group = omega arith;
}

pub connect-Advances :
    (bus : Bus) (client : BusClient)
    → IsValid bus
    → HasRoom bus
    → Advances bus (connect bus client).2
unfolding connect
connect-Advances bus client v room = elim (Option-cases client.queue) [
  | inl e ↦ rw (e, connect) (same-Advances bus)
  | inr (q, e) ↦ elim (Option-cases (find_if (has_queue q) bus.clients)) [
    | inr (i, found) ↦ rw (e, connect, found) (same-Advances bus)
    | inl fresh ↦
        let lem = decrement_lem bus.addr_last v.last_client room.0 in
        rw (e, connect, fresh)
          (record {
            named = λ name g at. (g, at, refl);
            next_client = omega (arith, lem.1);
            next_group = omega arith;
          })
  ]
]

pub disconnect-Advances : (bus : Bus) (client : BusClient) → Advances bus (disconnect bus client).1
unfolding disconnect
disconnect-Advances bus client = elim (Option-cases client.queue) [
  | inl e ↦ rw (e, disconnect) (same-Advances bus)
  | inr (q, e) ↦
      rw (e, disconnect)
        (record {
          named = λ name g at. (g, at, refl);
          next_client = omega arith;
          next_group = omega arith;
        })
]

-- A new group has another name than all those before it.
named-cons :
    (name other : String) (x : Group) (gs : List Group) (g : Group)
    → x.addr_name ≡ other
    → find_if (has_name other) gs ≡ none
    → find_if (has_name name) gs ≡ some g
    → find_if (has_name name) (x ∷ gs) ≡ some g
unfolding find_if
named-cons name other x gs g e fresh there = elim (Bool-cases (has_name name x)) [
  | inr differs ↦ rw differs there
  | inl here ↦
      let same : other ≡ name = sym e ∙ (eq_iff x.addr_name name).0 here in
      let missing : find_if (has_name name) gs ≡ none = rw same at fresh in cc
]

pub name_addr-Advances :
    (bus : Bus) (name : String) → IsValid bus → HasRoom bus → Advances bus (name_addr bus name).1
unfolding name_addr
name_addr-Advances bus name v room = elim (Option-cases (find_if (has_name name) bus.groups)) [
  | inr (g, found) ↦ rw (found, name_addr) (same-Advances bus)
  | inl fresh ↦
      let lem = increment_lem bus.group_last v.last_group room.1 in
      rw (fresh, name_addr)
        (record {
          named = λ other g at. (g, named-cons other name _ bus.groups g refl fresh at, refl);
          next_client = omega arith;
          next_group = omega (arith, lem.1);
        })
]

-- `join` by address leaves the bus alone, or joins the client to the group.
pub join_addr_cases :
    (bus bus' : Bus) (a : BusAddr) (client : BusClient) (answer : Bool)
    → join_addr bus a client ≡ some (answer, bus')
    → (bus ≡ bus') ⊎ ((is_neg client.addr ≡ true) × (joined bus a client ≡ bus'))
unfolding join_addr
join_addr_cases bus bus' a client answer e =
    elim (Bool-cases (not (is_pos a) || not (is_neg client.addr))) [
      | inl t ↦ let same : bus ≡ bus' = let e' = rw t at e in cc in inl same
      | inr t ↦ elim (Option-cases (find_if (has_addr a) bus.groups)) [
        | inl missing ↦ let e' = rw (t, missing) at e in cc
        | inr (g, found) ↦
            let e' = rw (t, found) at e in
            let same : joined bus a client ≡ bus' = cc in inr (ground (arith, t), same)
      ]
    ]

pub join_addr-Advances :
    (bus bus' : Bus) (a : BusAddr) (client : BusClient) (answer : Bool)
    → join_addr bus a client ≡ some (answer, bus')
    → Advances bus bus'
join_addr-Advances bus bus' a client answer e = elim (join_addr_cases bus bus' a client answer e) [
  | inl same ↦ subst (Advances bus) same (same-Advances bus)
  | inr (connected, joins) ↦
      subst (Advances bus) joins
        (change-Advances bus (has_addr a) (add_member client.addr) (add_member-keys client.addr))
]

pub leave_addr-Advances :
    (bus : Bus) (a : BusAddr) (client : BusClient) → Advances bus (leave_addr bus a client)
unfolding leave_addr
leave_addr-Advances bus a client = elim (Bool-cases (not (is_pos a) || not (is_neg client.addr))) [
  | inl t ↦ rw t (same-Advances bus)
  | inr t ↦ elim (Option-cases (find_if (has_addr a) bus.groups)) [
    | inl e ↦ rw (t, e) (same-Advances bus)
    | inr (g, e) ↦
        rw (t, e) (change-Advances bus (has_addr a) (remove_member client.addr) (λ g. (refl, refl)))
  ]
]
