-- ===== src/UdpServer/Closing.antt =====
-- What closing the socket and a discovery message leave of the server's state.
use esp_ac_dimmer.Prelude.{
  ℕ, ◌-◌, ◌/◌, ◌≡◌, refl, ltb, Bool, true, false, take, Bool-cases, inl, inr,
}
use esp_ac_dimmer.Prelude.Int.{pos, eq_ℤ, is_neg}
use esp_ac_dimmer.Utils.{get_cpu_id}
use esp_ac_dimmer.Messages.{discovery, discovery_id, create}
use esp_ac_dimmer.UdpServer.{
  Environment, Server, close_socket, closed_with, send_created, send_discovery_message, discover,
}

module _ {W S : Type 0} (env : Environment W S) where
  open env use {lwip, clients}
  open lwip use {recvfrom, now, sendto}

  pub close_socket-closes : (s : Server S) (w : W) → is_neg (close_socket env s w).0.g_sock ≡ true
  unfolding close_socket
  close_socket-closes s w = elim (Bool-cases (is_neg s.g_sock)) [
    | inl closed ↦ rw closed closed
    | inr open_still ↦ rw open_still refl
  ]

  close_socket-keeps : (s : Server S) (w : W) → (close_socket env s w).0.g_clients ≡ s.g_clients
  unfolding close_socket
  close_socket-keeps s w = elim (Bool-cases (is_neg s.g_sock)) [
    | inl closed ↦ rw closed refl
    | inr open_still ↦ rw open_still refl
  ]

  -- A state after a discovery message: the clients are kept, and a closed socket is.
  pub record IsAfter (s s' : Server S) : Type 0 where
    pub clients_kept : s'.g_clients ≡ s.g_clients
    pub closed : is_neg s.g_sock ≡ true → is_neg s'.g_sock ≡ true

  pub closed_with-closes :
      (answer : Bool) (s : Server S) (w : W)
      → let r = closed_with env answer s w in
        (r.0 ≡ answer) × (is_neg r.1.g_sock ≡ true) × (r.1.g_clients ≡ s.g_clients)
  unfolding closed_with
  closed_with-closes answer s w = (refl, close_socket-closes s w, close_socket-keeps s w)

  closed-IsAfter : (answer : Bool) (s : Server S) (w : W) → IsAfter s (closed_with env answer s w).1
  closed-IsAfter answer s w =
      let c = closed_with-closes answer s w in record { clients_kept = c.2; closed = λ h. c.1 }

  same-IsAfter : (s : Server S) → IsAfter s s
  same-IsAfter s = record { clients_kept = refl; closed = λ h. h }

  send_created-IsAfter :
      (msg_len : ℕ) (s : Server S) (w : W) → IsAfter s (send_created env msg_len s w).1
  unfolding send_created
  send_created-IsAfter msg_len s w =
      let sent = sendto s.g_sock (take msg_len s.tx_buffer) env.destination w in
      elim (Bool-cases (ltb 0 msg_len)) [
        | inr nothing ↦ rw nothing (closed-IsAfter false s w)
        | inl some_bytes ↦ elim (Bool-cases (eq_ℤ (pos msg_len) sent.0)) [
          | inl whole ↦ rw (some_bytes, whole) (same-IsAfter s)
          | inr not_whole ↦ rw (some_bytes, not_whole) (closed-IsAfter false s sent.1)
        ]
      ]

  send_discovery_message-IsAfter :
      (s : Server S) (w : W) → IsAfter s (send_discovery_message env s w).1
  unfolding send_discovery_message
  send_discovery_message-IsAfter s w =
      let r =
        create discovery discovery_id s.tx_buffer
          (record { dev_id = get_cpu_id (lwip.efuse_mac w) }) in
      let after = send_created-IsAfter r.0 (record s { tx_buffer = r.1 }) w in
      record { clients_kept = after.clients_kept; closed = after.closed }

  pub discover-IsAfter : (s : Server S) (w : W) → IsAfter s (discover env s w).0
  unfolding discover
  discover-IsAfter s w =
      let t = now w in
      let after = send_discovery_message-IsAfter s t.1 in
      elim (Bool-cases (ltb ((t.0 - s.g_discovery_timepoint) / env.ticks_per_second) 5)) [
        | inl early ↦ rw early (same-IsAfter s)
        | inr due ↦ rw due (record { clients_kept = after.clients_kept; closed = after.closed })
      ]
