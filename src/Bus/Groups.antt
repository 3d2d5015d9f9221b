-- ===== src/Bus/Groups.antt =====
-- Groups: `Bus::join` and `Bus::leave` keep the invariant, and joining by name always succeeds.
use esp_ac_dimmer.Prelude.{
  ◌+◌, ◌^◌, ◌≤◌, ◌<◌, ◌≡◌, refl, sym, ap, inl, inr, arith, Bool, true, false, not, ◌||◌, [], Option,
  none, some, All, Bool-cases, Option-cases,
}
use esp_ac_dimmer.Prelude.Int.{pos, negsuc, pos_part, neg_part, eq_ℤ, is_neg, is_pos, increment}
use Prim.Native.String.{String}
use text.Mathlib.TextEquality.{eq_iff}
use esp_ac_dimmer.Bus.{
  add_member, remove_member, update_if, BusAddr, Group, Bus, BusClient, find_if, has_addr, has_name,
  name_addr, leave_addr, leave,
}
use esp_ac_dimmer.Bus.Lists.{
  pairs-update_if, find_if-none, All-zip, pairs-cons, All-remove_if, All-update_if, All-map,
}
use esp_ac_dimmer.Bus.Valid.{IsNumbered, AgreeNames, IsValid, HasRoom}

pub increment_lem :
    (a : BusAddr)
    → neg_part a ≡ 0
    → pos_part a + 1 < 2 ^ 31
    → (is_pos (increment a) ≡ true)
      × (pos_part (increment a) ≡ pos_part a + 1)
      × (neg_part (increment a) ≡ 0)
increment_lem (pos n) h k = ground arith
increment_lem (negsuc n) h k = absurd (omega arith)

IsNumbered-mono :
    (m n : BusAddr) (g : Group) → pos_part m ≤ pos_part n → IsNumbered m g → IsNumbered n g
IsNumbered-mono m n g le h = (h.0, omega (arith, h.1), h.2)

-- The group that `join` makes agrees with all the others.
fresh_group :
    (last a : BusAddr) (name : String) (g : Group)
    → pos_part a ≡ pos_part last + 1
    → has_name name g ≡ false
    → IsNumbered last g
    → AgreeNames (record { addr = a; addr_name = name; destination = [] }) g
fresh_group last a name g new other num = (
  (λ e. absurd (let e' : pos_part a ≡ pos_part g.addr = ap pos_part e in omega (arith, num.1))),
  (λ e. absurd (ground (arith, eq_iff g.addr_name name))),
)

pub name_addr-IsValid :
    (bus : Bus) (name : String) → HasRoom bus → IsValid bus → IsValid (name_addr bus name).1
unfolding name_addr
name_addr-IsValid bus name room v = elim (Option-cases (find_if (has_name name) bus.groups)) [
  | inr (g, found) ↦ rw (found, name_addr) v
  | inl fresh ↦
      let last = bus.group_last in
      let lem = increment_lem last v.last_group room.1 in
      rw (fresh, name_addr)
        (record {
          last_client = v.last_client;
          last_group = lem.2;
          given = v.given;
          agree = v.agree;
          numbered = (
            (lem.0, omega arith, tt),
            All-map _ _ bus.groups
                (λ g n. IsNumbered-mono last (increment last) g (omega (arith, lem.1)) n)
                v.numbered,
          );
          agree_names =
              pairs-cons AgreeNames
                (record { addr = increment last; addr_name = name; destination = [] }) bus.groups
                (λ c d g. (λ h. sym (g.0 (sym h)), λ h. sym (g.1 (sym h)))) (λ h. refl, λ h. refl)
                (All-zip _ _ _ bus.groups
                  (λ g o n. fresh_group last (increment last) name g lem.1 o n)
                  (find_if-none (has_name name) bus.groups fresh) v.numbered)
                v.agree_names;
        })
]

-- A change of a group that leaves its address and its name alone and its members client addresses.
record IsMemberChange (f : Group → Group) : Type 0 where
  same_addr : (g : Group) → (f g).addr ≡ g.addr
  same_name : (g : Group) → (f g).addr_name ≡ g.addr_name
  members :
      (g : Group)
      → All (λ a. is_neg a ≡ true) g.destination
      → All (λ a. is_neg a ≡ true) (f g).destination

pub add_member-keys :
    (a : BusAddr) (g : Group)
    → ((add_member a g).addr ≡ g.addr) × ((add_member a g).addr_name ≡ g.addr_name)
add_member-keys a g = (ground arith, ground arith)

add_member-IsMemberChange : (a : BusAddr) → is_neg a ≡ true → IsMemberChange (add_member a)
add_member-IsMemberChange a h = record {
  same_addr = λ g. ground arith;
  same_name = λ g. ground arith;
  members = λ g k. elim (Option-cases (find_if (eq_ℤ a) g.destination)) [
    | inl e ↦ rw (e, add_member) (h, k)
    | inr (b, e) ↦ rw (e, add_member) k
  ];
}

remove_member-IsMemberChange : (a : BusAddr) → IsMemberChange (remove_member a)
remove_member-IsMemberChange a = record {
  same_addr = λ g. refl;
  same_name = λ g. refl;
  members = λ g k. All-remove_if _ (eq_ℤ a) g.destination k;
}

change-IsValid :
    (bus : Bus) (f : Group → Group) (p : Group → Bool)
    → IsMemberChange f
    → IsValid bus
    → IsValid (record bus { groups = update_if p f bus.groups })
change-IsValid bus f p m v = record {
  last_client = v.last_client;
  last_group = v.last_group;
  given = v.given;
  agree = v.agree;
  numbered =
      All-update_if _ p f bus.groups
        (λ g n. (rw (m.same_addr g) n.0, rw (m.same_addr g) n.1, m.members g n.2)) v.numbered;
  agree_names =
      pairs-update_if AgreeNames p f bus.groups (λ g h r. rw (m.same_addr g, m.same_name g) r)
        (λ g h r. rw (m.same_addr h, m.same_name h) r) v.agree_names;
}

-- What the second locked part of `join` does once the group is there.
abbrev pub joined : Bus → BusAddr → BusClient → Bus
joined bus a client = record bus {
  groups = update_if (has_addr a) (add_member client.addr) bus.groups;
}

pub joined-IsValid :
    (bus : Bus) (a : BusAddr) (client : BusClient)
    → is_neg client.addr ≡ true
    → IsValid bus
    → IsValid (joined bus a client)
joined-IsValid bus a client n v =
    change-IsValid bus (add_member client.addr) (has_addr a)
      (add_member-IsMemberChange client.addr n) v

pub leave_addr-IsValid :
    (bus : Bus) (a : BusAddr) (client : BusClient) → IsValid bus → IsValid (leave_addr bus a client)
unfolding leave_addr
leave_addr-IsValid bus a client v = elim (Bool-cases (not (is_pos a) || not (is_neg client.addr))) [
  | inl t ↦ rw t v
  | inr t ↦ elim (Option-cases (find_if (has_addr a) bus.groups)) [
    | inl e ↦ rw (t, e) v
    | inr (g, e) ↦
        rw (t, e)
          (change-IsValid bus (remove_member client.addr) (has_addr a)
            (remove_member-IsMemberChange client.addr) v)
  ]
]

-- Leaving a group, by a name that has one or not, keeps the bus valid.
pub leave-IsValid :
    (bus : Bus) (name : Option String) (client : BusClient)
    → IsValid bus
    → IsValid (leave bus name client)
unfolding leave
leave-IsValid bus none client v = v
leave-IsValid bus (some name) client v = elim (Option-cases (find_if (has_name name) bus.groups)) [
  | inl e ↦ rw (e, leave) v
  | inr (g, e) ↦ rw (e, leave) (leave_addr-IsValid bus g.addr client v)
]
