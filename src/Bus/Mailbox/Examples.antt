-- ===== src/Bus/Mailbox/Examples.antt =====
-- Queues of at most 32 messages as an instance of the laws, and the theorems on messages at it.
use esp_ac_dimmer.Prelude.{
  ℕ, ◌≤◌, ◌<◌, ◌≡◌, ◌≢◌, refl, ◌∙◌, arith, ◌==◌, ltb, if◌then◌else◌, true, false, List, [], ◌∷◌,
  ◌++◌, Option, none, some, length, map,
}
use mathlib.Core.Option
use mathlib.Core.List.{reverse}
use esp_ac_dimmer.Prelude.Int.{pos, negsuc}
use esp_ac_dimmer.Bus.{find_if, resolve, Bus, BusClient, disconnect, destination}
use esp_ac_dimmer.Bus.Queues.{Queues, QueueLaws, message_queue_length}
use esp_ac_dimmer.Bus.Mailbox.{BusMsg, send, destroy}
use esp_ac_dimmer.Bus.Mailbox.Relay.{route, receive_all, delivery, relay-send, IsIdle}
use esp_ac_dimmer.Bus.Mailbox.Drain.{destroy-empties}

abbrev Kernel : Type 0
Kernel = ℕ → List (BusMsg ℕ)

abbrev put : ℕ → List (BusMsg ℕ) → Kernel → Kernel
put q ms k r = if r == q then ms else k r

abbrev tail : List (BusMsg ℕ) → Option (BusMsg ℕ) × List (BusMsg ℕ)
tail [] = (none, [])
tail (m ∷ ms) = (some m, ms)

abbrev queues : Queues Kernel (BusMsg ℕ)
queues = record {
  create = λ k. (none, k);
  send_item = λ q m k.
      if ltb (length (k q)) message_queue_length
      then (true, put q (k q ++ (m ∷ [])) k)
      else (false, k);
  receive_item = λ q k. ((tail (k q)).0, put q (tail (k q)).1 k);
  delete_queue = λ q k. put q [] k;
}

put_same : (q : ℕ) (ms : List (BusMsg ℕ)) (k : Kernel) → put q ms k q ≡ ms
put_same q ms k = ground arith

put_other : (q r : ℕ) (ms : List (BusMsg ℕ)) (k : Kernel) → r ≢ q → put q ms k r ≡ k r
put_other q r ms k h = ground arith

put_room :
    (q : ℕ) (m : BusMsg ℕ) (k : Kernel)
    → length (k q) < message_queue_length
    → ((queues.send_item q m k).0 ≡ true) × ((queues.send_item q m k).1 q ≡ k q ++ (m ∷ []))
put_room q m k h = ground arith

put_full :
    (q : ℕ) (m : BusMsg ℕ) (k : Kernel)
    → message_queue_length ≤ length (k q)
    → ((queues.send_item q m k).0 ≡ false) × ((queues.send_item q m k).1 q ≡ k q)
put_full q m k h = ground arith

put_elsewhere : (q r : ℕ) (m : BusMsg ℕ) (k : Kernel) → r ≢ q → (queues.send_item q m k).1 r ≡ k r
put_elsewhere q r m k h = ground arith

abbrev queue_laws : QueueLaws queues
queue_laws = record {
  contents = λ k q. k q;
  send_room = λ q m k h. put_room q m k h;
  send_full = λ q m k h. put_full q m k h;
  send_other = λ q r m k h. put_elsewhere q r m k h;
  receive_some = λ q m ms k e. (rw e refl, put_same q _ k ∙ rw e refl);
  receive_none = λ q k e. (rw e refl, put_same q _ k ∙ rw e refl);
  receive_other = λ q r k h. put_other q r (tail (k q)).1 k h;
}

abbrev clients : Bus
clients = record {
  addr_last = negsuc 1;
  group_last = pos 1;
  clients = record { addr = negsuc 1; queue = 11 } ∷ record { addr = negsuc 0; queue = 10 } ∷ [];
  groups =
      record { addr = pos 1; addr_name = "net"; destination = negsuc 1 ∷ negsuc 5 ∷ negsuc 0 ∷ [] }
      ∷ [];
}

abbrev sender : BusClient
sender = record { addr = negsuc 1; queue = some 11 }

relay-send_example :
    let qs = route clients (reverse (destination clients (pos 1))) in
    let r =
      receive_all queues clients qs (send queues clients sender (pos 1) (some 42) (λ q. [])) in
    (map (Option.map delivery) r.0
      ≡ map (λ q. some (record { from = negsuc 1; to = pos 1; msg = 42 })) qs)
    × IsIdle queues queue_laws r.1
relay-send_example =
    relay-send queues queue_laws clients sender (pos 1) 42 (λ q. []) (ground arith) (λ q. refl)

-- The route of that message: two queues, without the address that nobody has.
relayed_queues : route clients (reverse (destination clients (pos 1))) ≡ 10 ∷ 11 ∷ []
unfolding route destination resolve find_if
relayed_queues = refl

abbrev waiting : Kernel
waiting =
    put 11
      (record { from = negsuc 0; to = pos 1; destination = negsuc 0 ∷ negsuc 1 ∷ []; msg = 42 }
        ∷ [])
      (λ q. [])

destroy-empties_example :
    (k : Kernel) × (destroy queues 4 clients sender waiting
      ≡ some ((disconnect clients sender).1, queues.delete_queue 11 k))
    × (k 11 ≡ [])
destroy-empties_example =
    destroy-empties queues queue_laws clients sender 11 4 waiting refl (omega arith)
