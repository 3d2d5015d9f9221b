-- ===== src/Bus/Examples.antt =====
-- Two connected clients in one group, and the theorems on the registry at them.
use esp_ac_dimmer.Prelude.{ℕ, ◌≡◌, refl, arith, true, List, [], ◌∷◌, none, some}
use esp_ac_dimmer.Prelude.Int.{pos, negsuc, is_neg}
use mathlib.Core.List.{Mem}
use esp_ac_dimmer.Bus.{
  eq_ℤ, BusAddr, invalid, Client, Group, Bus, BusClient, new_bus, find_if, update_if, connect,
  disconnect, name_addr, join, leave, destination, resolve, resolve_name, has_queue, has_name,
}
use esp_ac_dimmer.Bus.Valid.{IsValid, HasRoom}
use esp_ac_dimmer.Bus.Clients.{new_bus-IsValid, connect-IsValid}
use esp_ac_dimmer.Bus.Groups.{name_addr-IsValid, joined-IsValid}
use esp_ac_dimmer.Bus.Joining.{join-mem}
use esp_ac_dimmer.Bus.Resolving.{resolve-connect, resolve-disconnect_first}
use esp_ac_dimmer.Bus.Leaving.{leave_duplicates, leave_keeps_oldest}

abbrev wifi : BusClient
wifi = record { addr = negsuc 0; queue = some 10 }

abbrev dimmer : BusClient
dimmer = record { addr = negsuc 1; queue = some 11 }

abbrev unconnected : ℕ → BusClient
unconnected q = record { addr = invalid; queue = some q }

abbrev wifi_entry : Client
wifi_entry = record { addr = negsuc 0; queue = 10 }

abbrev dimmer_entry : Client
dimmer_entry = record { addr = negsuc 1; queue = 11 }

abbrev one_client : Bus
one_client = record {
  addr_last = negsuc 0;
  group_last = invalid;
  clients = wifi_entry ∷ [];
  groups = [];
}

abbrev two_clients : Bus
two_clients = record {
  addr_last = negsuc 1;
  group_last = invalid;
  clients = dimmer_entry ∷ wifi_entry ∷ [];
  groups = [];
}

abbrev net : List BusAddr → Group
net members = record { addr = pos 1; addr_name = "net"; destination = members }

abbrev grouped : List BusAddr → Bus
grouped members = record {
  addr_last = negsuc 1;
  group_last = pos 1;
  clients = dimmer_entry ∷ wifi_entry ∷ [];
  groups = net members ∷ [];
}

abbrev in_group : Bus
in_group = grouped (negsuc 1 ∷ negsuc 0 ∷ [])

new_bus-HasRoom : HasRoom new_bus
new_bus-HasRoom = omega arith

one_client-HasRoom : HasRoom one_client
one_client-HasRoom = omega arith

two_clients-HasRoom : HasRoom two_clients
two_clients-HasRoom = omega arith

one_client-IsValid : IsValid one_client
unfolding connect find_if
one_client-IsValid = connect-IsValid new_bus (unconnected 10) new_bus-HasRoom new_bus-IsValid

two_clients-IsValid : IsValid two_clients
unfolding connect find_if
two_clients-IsValid =
    connect-IsValid one_client (unconnected 11) one_client-HasRoom one_client-IsValid

in_group-IsValid : IsValid in_group
unfolding name_addr find_if update_if
in_group-IsValid = joined-IsValid (grouped (negsuc 0 ∷ [])) (pos 1) dimmer refl (
    joined-IsValid (grouped []) (pos 1) wifi refl
      (name_addr-IsValid two_clients "net" two_clients-HasRoom two_clients-IsValid))

join-mem_example :
    (bus : Bus) × (join two_clients (some "net") wifi ≡ some (true, bus))
    × IsValid bus
    × Mem (negsuc 0) (destination bus (resolve_name bus (some "net")))
    × (bus.clients ≡ two_clients.clients)
join-mem_example = join-mem two_clients "net" wifi two_clients-IsValid two_clients-HasRoom refl

resolve-connect_example :
    let (ok, client, bus) = connect one_client (unconnected 11) in
    (ok ≡ true)
    × (is_neg client.addr ≡ true)
    × (client.queue ≡ some 11)
    × (resolve bus client.addr ≡ some 11)
    × (connect bus client ≡ (true, client, bus))
resolve-connect_example =
    resolve-connect one_client (unconnected 11) 11 one_client-IsValid one_client-HasRoom refl

two_clients-resolve : resolve two_clients (negsuc 0) ≡ some 10
unfolding resolve find_if
two_clients-resolve = refl

dimmer_queue-unused : find_if (has_queue 10) (dimmer_entry ∷ []) ≡ none
unfolding find_if
dimmer_queue-unused = refl

resolve-disconnect_first_example :
    ((disconnect two_clients wifi).1 ≡ two_clients)
    × (resolve (disconnect two_clients wifi).1 (negsuc 0) ≡ some 10)
resolve-disconnect_first_example =
    resolve-disconnect_first two_clients wifi (dimmer_entry ∷ []) wifi_entry two_clients-IsValid
      refl refl dimmer_queue-unused

in_group-found : find_if (has_name "net") in_group.groups ≡ some (net (negsuc 1 ∷ negsuc 0 ∷ []))
unfolding find_if
in_group-found = refl

not_wifi : find_if (eq_ℤ (negsuc 1)) (negsuc 0 ∷ []) ≡ none
unfolding find_if
not_wifi = refl

not_dimmer : find_if (eq_ℤ (negsuc 0)) (negsuc 1 ∷ []) ≡ none
unfolding find_if
not_dimmer = refl

nobody : find_if (eq_ℤ (negsuc 1)) [] ≡ none
unfolding find_if
nobody = refl

leave_duplicates_example :
    destination (leave in_group (some "net") dimmer) (pos 1) ≡ negsuc 0 ∷ negsuc 0 ∷ []
leave_duplicates_example =
    leave_duplicates in_group "net" dimmer (net (negsuc 1 ∷ negsuc 0 ∷ [])) [] [] (negsuc 0)
      in_group-IsValid refl in_group-found refl nobody not_wifi

leave_keeps_oldest_example :
    destination (leave in_group (some "net") wifi) (pos 1) ≡ negsuc 1 ∷ negsuc 0 ∷ []
leave_keeps_oldest_example =
    leave_keeps_oldest in_group "net" wifi (net (negsuc 1 ∷ negsuc 0 ∷ [])) (negsuc 1 ∷ [])
      in_group-IsValid refl in_group-found refl not_dimmer
