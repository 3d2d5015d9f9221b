-- ===== src/UdpServer/Examples.antt =====
-- The theorems on the server at sockets on which a discovery message arrives, and a list of clients.
use esp_ac_dimmer.Prelude.{
  ℕ, ◌+◌, ◌≡◌, refl, arith, ltb, if◌then◌else◌, true, false, List, [], ◌∷◌, ◌++◌, length, replicate,
  none,
}
use esp_ac_dimmer.Prelude.Int.{ℤ, pos, negsuc, eq_ℤ, is_neg}
use esp_ac_dimmer.Utils.{get_cpu_id}
use esp_ac_dimmer.Streams.Values.{bytes_of}
use esp_ac_dimmer.Messages.{discovery_id}
use esp_ac_dimmer.UdpServer.{
  ClientInfo, Lwip, Environment, Server, receive, receive_loop, send_data, send_discovery_message,
}
use esp_ac_dimmer.UdpServer.Receiving.{receive_loop-closed, receive-failed, receive-discovery}
use esp_ac_dimmer.UdpServer.Sending.{SendOutcome, send_data-outcome, send_discovery_message-sent}

abbrev pub near : ClientInfo
near = record { addr = 1; port = 9 }

abbrev pub far : ClientInfo
far = record { addr = 2; port = 8 }

-- The state is the number of datagrams that were sent; each receive at an open socket answers the given
-- datagram, and a send fails once three were sent.
abbrev pub sockets : List ℕ → Lwip ℕ
sockets datagram = record {
  socket = λ n. (pos 4, n);
  shutdown = λ sock n. n;
  close = λ sock n. n;
  sendto = λ sock bytes info n. (if ltb n 3 then pos (length bytes) else negsuc 0, n + 1);
  recvfrom = λ sock size n.
      if is_neg sock
      then (record { len = negsuc 0; bytes = []; source = far }, n)
      else (record { len = pos (length datagram); bytes = datagram; source = near }, n);
  now = λ n. (0, n);
  efuse_mac = λ n. none;
}

abbrev pub environment : List ℕ → Environment ℕ (List ClientInfo)
environment datagram = record {
  lwip = sockets datagram;
  clients = record { emplace = λ c cs. c ∷ cs; elements = λ cs. cs };
  ticks_per_second = 1000;
  destination = record { addr = 0; port = 3333 };
}

abbrev pub server : ℤ → Server (List ClientInfo)
server sock = record {
  g_sock = sock;
  rx_buffer = replicate 16 0;
  tx_buffer = replicate 512 0;
  g_clients = far ∷ [];
  g_discovery_timepoint = 0;
}

abbrev hello : List ℕ
hello = 0x63 ∷ 0x0F ∷ 0x5F ∷ 0x04 ∷ []

hello_is_id : hello ≡ bytes_of 4 discovery_id
unfolding bytes_of
hello_is_id = refl

receive-failed_example : (receive (environment hello) (server (negsuc 0)) 0).0 ≡ true
receive-failed_example =
    receive-failed (environment hello) (server (negsuc 0)) 0 0 refl (omega arith)

closed_fails :
    (sock : ℤ) (size n : ℕ)
    → is_neg sock ≡ true
    → ((sockets hello).recvfrom sock size n).0.len ≡ negsuc 0
closed_fails sock size n h = rw h refl

receive_loop-closed_example :
    let r = receive_loop (environment hello) 100 (server (negsuc 0)) 0 in
    (r.0 ≡ true) × (is_neg r.1.g_sock ≡ true)
receive_loop-closed_example =
    receive_loop-closed (environment hello) 100 (server (negsuc 0)) 0 closed_fails refl

-- The identifier and the number 1.
abbrev message : List ℕ
message = 0x63 ∷ 0x0F ∷ 0x5F ∷ 0x04 ∷ 1 ∷ 0 ∷ 0 ∷ 0 ∷ []

message_starts : message ≡ bytes_of 4 discovery_id ++ (1 ∷ 0 ∷ 0 ∷ 0 ∷ [])
unfolding bytes_of
message_starts = refl

receive-discovery_example :
    ((receive (environment message) (server (pos 4)) 0).0 ≡ true)
    × ((receive (environment message) (server (pos 4)) 0).1.g_clients ≡ near ∷ far ∷ [])
receive-discovery_example =
    receive-discovery (environment message) (server (pos 4)) 0 (1 ∷ 0 ∷ 0 ∷ 0 ∷ []) message_starts
      refl (omega arith) (omega arith) (omega arith)

hello_starts : hello ≡ bytes_of 4 discovery_id ++ []
unfolding bytes_of
hello_starts = refl

sent : (send_data (environment []) (1 ∷ 2 ∷ []) (server (pos 4)) 0).0 ≡ true
unfolding send_data
sent = refl

not_sent : (send_data (environment []) (1 ∷ 2 ∷ []) (server (pos 4)) 3).0 ≡ false
unfolding send_data
not_sent = refl

-- The second of two clients cannot be sent to.
abbrev two_clients : Server (List ClientInfo)
two_clients = record (server (pos 4)) { g_clients = near ∷ far ∷ [] }

send_data-outcome_example :
    SendOutcome
      (environment [])
      (1 ∷ 2 ∷ [])
      two_clients
      2
      (send_data (environment []) (1 ∷ 2 ∷ []) two_clients 2)
send_data-outcome_example = send_data-outcome (environment []) (1 ∷ 2 ∷ []) two_clients 2

send_discovery_message-sent_example :
    let sended =
      (if ltb 3 3
        then pos (length (bytes_of 4 discovery_id ++ bytes_of 4 (get_cpu_id none)))
        else negsuc 0) in
    let r = send_discovery_message (environment []) (server (pos 4)) 3 in
    (r.0 ≡ eq_ℤ (pos 8) sended)
    × (is_neg r.1.g_sock ≡ (if eq_ℤ (pos 8) sended then false else true))
    × (r.1.g_clients ≡ far ∷ [])
send_discovery_message-sent_example =
    send_discovery_message-sent (environment []) (server (pos 4)) 3 refl
