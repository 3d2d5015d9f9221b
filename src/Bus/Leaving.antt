-- ===== src/Bus/Leaving.antt =====
-- What leaving a group does to its destination. `Bus::leave` calls `std::remove_if` without `erase`.
use esp_ac_dimmer.Prelude.{
  ◌≡◌, ◌≢◌, refl, sym, ap, ◌∙◌, inl, inr, arith, Bool, true, false, List, [], ◌∷◌, ◌++◌, none, some,
  length, drop, Bool-cases,
}
use esp_ac_dimmer.Prelude.Int.{eq_ℤ, is_neg, eq_ℤ_iff, eq_ℤ_refl}
use Prim.Native.String.{String}
use mathlib.Core.List.{Mem, mem-append_left, mem-cons_self, mem-cons_of_mem, mem-cons}
use mathlib.Core.Logic.Or
use mathlib.Core.Logic.{∥∥₁_prop}
use esp_ac_dimmer.Bus.{
  BusAddr, Group, Bus, BusClient, find_if, reject, remove_if, update_if, has_addr, has_name, leave,
  leave_addr, remove_member, destination,
}
use esp_ac_dimmer.Bus.Lists.{
  find_if-All, find_if-update_if, remove_if-at_end, remove_if-before_end, All-map,
}
use esp_ac_dimmer.Bus.Valid.{IsValid}
use esp_ac_dimmer.Bus.Joining.{destination-found, find_by_addr}

-- When a member leaves, `std::remove_if` runs over the group's destination, and does no more.
pub destination-leave :
    (bus : Bus) (name : String) (client : BusClient) (g : Group)
    → IsValid bus
    → is_neg client.addr ≡ true
    → find_if (has_name name) bus.groups ≡ some g
    → destination (leave bus (some name) client) g.addr ≡ remove_if (eq_ℤ client.addr) g.destination
unfolding leave leave_addr
destination-leave bus name client g v n e =
    let p = (find_if-All _ (has_name name) bus.groups g v.numbered e).0 in
    let by_addr = find_by_addr bus name g v e in
    let bus' = record bus {
      groups = update_if (has_addr g.addr) (remove_member client.addr) bus.groups;
    } in
    let left : leave bus (some name) client ≡ bus' = rw (e, leave, p, n, by_addr) refl in
    ap (λ (b : Bus). destination b g.addr) left
    ∙ destination-found bus' g.addr (remove_member client.addr g) p (
        find_if-update_if (has_addr g.addr) (has_addr g.addr) (remove_member client.addr) bus.groups
          g (All-map _ _ bus.groups (λ x h. refl) v.numbered) (eq_ℤ_refl g.addr) by_addr)

reject-mem :
    (p : BusAddr → Bool) (xs : List BusAddr) (a : BusAddr)
    → Mem a xs
    → p a ≡ false
    → Mem a (reject p xs)
unfolding reject
reject-mem p [] a m h = m
reject-mem p (x ∷ xs) a m h =
    Or.elim ∥∥₁_prop (mem-cons.0 m)
      (λ e. let stays : p x ≡ false = rw (← e) h in rw (stays, e) mem-cons_self)
      (λ m'. elim (Bool-cases (p x)) [
        | inl t ↦ rw t (reject-mem p xs a m' h)
        | inr t ↦ rw t (mem-cons_of_mem x (reject-mem p xs a m' h))
      ])

remove_if-mem :
    (p : BusAddr → Bool) (xs : List BusAddr) (a : BusAddr)
    → Mem a xs
    → p a ≡ false
    → Mem a (remove_if p xs)
unfolding remove_if
remove_if-mem p xs a m h = mem-append_left (drop (length (reject p xs)) xs) (reject-mem p xs a m h)

-- Every other member stays in the destination of a group that a client leaves.
pub leave-mem_other :
    (bus : Bus) (name : String) (client : BusClient) (g : Group) (a : BusAddr)
    → IsValid bus
    → is_neg client.addr ≡ true
    → find_if (has_name name) bus.groups ≡ some g
    → Mem a g.destination
    → a ≢ client.addr
    → Mem a (destination (leave bus (some name) client) g.addr)
leave-mem_other bus name client g a v n e m ne =
    rw (destination-leave bus name client g v n e)
      (remove_if-mem (eq_ℤ client.addr) g.destination a m (ground (arith, eq_ℤ_iff client.addr a)))

-- A client that leaves while an older member is still in the group is gone from the destination, but
-- the oldest member then stands there twice.
pub leave_duplicates :
    (bus : Bus) (name : String) (client : BusClient) (g : Group) (xs ys : List BusAddr)
    (z : BusAddr)
    → IsValid bus
    → is_neg client.addr ≡ true
    → find_if (has_name name) bus.groups ≡ some g
    → g.destination ≡ xs ++ (client.addr ∷ (ys ++ (z ∷ [])))
    → find_if (eq_ℤ client.addr) xs ≡ none
    → find_if (eq_ℤ client.addr) (ys ++ (z ∷ [])) ≡ none
    → destination (leave bus (some name) client) g.addr ≡ xs ++ (ys ++ (z ∷ z ∷ []))
leave_duplicates bus name client g xs ys z v n e d fx fy =
    destination-leave bus name client g v n e
    ∙ (ap (remove_if (eq_ℤ client.addr)) d
        ∙ remove_if-before_end (eq_ℤ client.addr) xs ys client.addr z fx fy (eq_ℤ_refl client.addr))

-- The oldest member of a group is not removed when it leaves: the destination stays as it was.
pub leave_keeps_oldest :
    (bus : Bus) (name : String) (client : BusClient) (g : Group) (xs : List BusAddr)
    → IsValid bus
    → is_neg client.addr ≡ true
    → find_if (has_name name) bus.groups ≡ some g
    → g.destination ≡ xs ++ (client.addr ∷ [])
    → find_if (eq_ℤ client.addr) xs ≡ none
    → destination (leave bus (some name) client) g.addr ≡ g.destination
leave_keeps_oldest bus name client g xs v n e d fx =
    destination-leave bus name client g v n e
    ∙ (ap (remove_if (eq_ℤ client.addr)) d
        ∙ (remove_if-at_end (eq_ℤ client.addr) xs client.addr fx (eq_ℤ_refl client.addr) ∙ sym d))
