-- ===== src/UdpServer/Sending.antt =====
-- What the server sends: data to its clients, and discovery messages.
use esp_ac_dimmer.Prelude.{
  ap, ◌⊎◌, ℕ, ◌≡◌, refl, sym, ◌∙◌, if◌then◌else◌, Bool, true, false, List, [], ◌∷◌, ◌++◌, length,
  take, Bool-cases, inl, inr,
}
use esp_ac_dimmer.Prelude.Int.{negsuc, ℤ, pos, eq_ℤ, is_neg}
use esp_ac_dimmer.Utils.{get_cpu_id, get_cpu_id-lt}
use esp_ac_dimmer.Streams.Values.{bytes_of}
use esp_ac_dimmer.Messages.{discovery, discovery_id, create}
use esp_ac_dimmer.Messages.Create.{create-image-discovery}
use esp_ac_dimmer.UdpServer.{
  close_socket, closed_with, Environment, ClientInfo, Server, send_created, send_discovery_message,
  send_each, send_data,
}
use esp_ac_dimmer.UdpServer.Closing.{closed_with-closes}

module _ {W S : Type 0} (env : Environment W S) where
  open env use {lwip, clients, destination}
  open lwip use {sendto, efuse_mac}

  -- One datagram with the bytes to each client, in their order.
  abbrev deliver : ℤ → List ℕ → List ClientInfo → W → W
  deliver sock bytes [] w = w
  deliver sock bytes (info ∷ infos) w = deliver sock bytes infos (sendto sock bytes info w).1

  -- Each of these calls of `sendto` answers a number that is not negative.
  abbrev AllSent : ℤ → List ℕ → List ClientInfo → W → Type 0
  AllSent sock bytes [] w = Unit
  AllSent sock bytes (info ∷ infos) w =
      let (error_code, w') = sendto sock bytes info w in
      (is_neg error_code ≡ false) × AllSent sock bytes infos w'

  -- The first client whose `sendto` answers a negative number, and what the world is after it.
  pub record Stop (sock : ℤ) (bytes : List ℕ) (infos : List ClientInfo) (w : W) : Type 0 where
    pub front : List ClientInfo
    pub info : ClientInfo
    pub back : List ClientInfo
    pub split : infos ≡ front ++ (info ∷ back)
    pub front_sent : AllSent sock bytes front w
    pub failed : is_neg (sendto sock bytes info (deliver sock bytes front w)).0 ≡ true

  abbrev stopped :
      (sock : ℤ) (bytes : List ℕ) (infos : List ClientInfo) (w : W) → Stop sock bytes infos w → W
  stopped sock bytes infos w stop =
      (sendto sock bytes stop.info (deliver sock bytes stop.front w)).1

  -- What `sendData` may come to: refused, all sent, or stopped.
  abbrev pub SendOutcome : List ℕ → Server S → W → Bool × Server S × W → Type 0
  SendOutcome bytes s w r =
      let infos = clients.elements s.g_clients in
      ((is_neg s.g_sock ≡ true) × (r ≡ (false, s, w)))
      ⊎ (((is_neg s.g_sock ≡ false)
            × AllSent s.g_sock bytes infos w
            × (r ≡ (true, s, deliver s.g_sock bytes infos w)))
          ⊎ ((is_neg s.g_sock ≡ false)
              × (stop : Stop s.g_sock bytes infos w) × (r ≡ (
                false,
                record s { g_sock = negsuc 0 },
                lwip.close s.g_sock (lwip.shutdown s.g_sock (stopped s.g_sock bytes infos w stop)),
              ))))

  abbrev later_stop :
      (sock : ℤ) (bytes : List ℕ) (info : ClientInfo) (infos : List ClientInfo) (w : W)
      → is_neg (sendto sock bytes info w).0 ≡ false
      → Stop sock bytes infos (sendto sock bytes info w).1
      → Stop sock bytes (info ∷ infos) w
  later_stop sock bytes info infos w fine stop = record {
    front = info ∷ stop.front;
    info = stop.info;
    back = stop.back;
    split = ap (◌∷◌ info) stop.split;
    front_sent = (fine, stop.front_sent);
    failed = stop.failed;
  }

  send_each-outcome :
      (bytes : List ℕ) (infos : List ClientInfo) (s : Server S) (w : W)
      → (AllSent s.g_sock bytes infos w
          × (send_each env bytes infos s w ≡ (true, s, deliver s.g_sock bytes infos w)))
        ⊎ ((stop : Stop s.g_sock bytes infos w) × (send_each env bytes infos s w
              ≡ closed_with env false s (stopped s.g_sock bytes infos w stop)))
  unfolding send_each
  send_each-outcome bytes [] s w = inl (tt, refl)
  send_each-outcome bytes (info ∷ infos) s w =
      let sent = sendto s.g_sock bytes info w in
      elim (Bool-cases (is_neg sent.0)) [
        | inl failed ↦
            let stop : Stop s.g_sock bytes (info ∷ infos) w = record {
              front = [];
              info = info;
              back = infos;
              split = refl;
              front_sent = tt;
              failed = failed;
            } in
            inr (stop, rw failed refl)
        | inr fine ↦ elim (send_each-outcome bytes infos s sent.1) [
          | inl all ↦ inl ((fine, all.0), rw fine all.1)
          | inr part ↦ inr (later_stop s.g_sock bytes info infos w fine part.0, rw fine part.1)
        ]
      ]

  closed_with-open :
      (s : Server S) (w : W)
      → is_neg s.g_sock ≡ false
      → closed_with env false s w
        ≡ (false, record s { g_sock = negsuc 0 }, lwip.close s.g_sock (lwip.shutdown s.g_sock w))
  unfolding closed_with close_socket
  closed_with-open s w opened = rw opened refl

  -- `sendData` with a closed socket answers `false` and does nothing. With an open one, if each `sendto`
  -- answers a number that is not negative, it answers `true`, has sent the data to each client of the
  -- set once, in the set's order, and changed nothing of the server. Otherwise it has done so up to
  -- the first client whose `sendto` answers a negative number, shuts the socket down and closes it,
  -- sets `g_sock` to -1, changes nothing else of the server, and answers `false`.
  pub send_data-outcome :
      (bytes : List ℕ) (s : Server S) (w : W) → SendOutcome bytes s w (send_data env bytes s w)
  unfolding send_data
  send_data-outcome bytes s w =
      let infos = clients.elements s.g_clients in
      elim (Bool-cases (is_neg s.g_sock)) [
        | inl closed ↦ inl (closed, rw closed refl)
        | inr opened ↦ elim (send_each-outcome bytes infos s w) [
          | inl all ↦ inr (inl (opened, all.0, rw opened all.1))
          | inr part ↦
              let w' = stopped s.g_sock bytes infos w part.0 in
              inr (inr (opened, part.0, rw opened (part.1 ∙ closed_with-open s w' opened)))
        ]
      ]

  -- How a message of eight bytes ends, of which `sended` were sent.
  record IsSent (sended : ℤ) (s : Server S) (r : Bool × Server S × W) : Type 0 where
    pub answer : r.0 ≡ eq_ℤ (pos 8) sended
    pub socket : is_neg r.1.g_sock ≡ (if eq_ℤ (pos 8) sended then is_neg s.g_sock else true)
    pub same_clients : r.1.g_clients ≡ s.g_clients

  send_created-IsSent :
      (image : List ℕ) (s : Server S) (w : W)
      → take 8 s.tx_buffer ≡ image
      → IsSent (sendto s.g_sock image destination w).0 s (send_created env 8 s w)
  unfolding send_created
  send_created-IsSent image s w e =
      let sent = sendto s.g_sock image destination w in
      elim (Bool-cases (eq_ℤ (pos 8) sent.0)) [
        | inl all ↦
            rw (e, all) (record { answer = sym all; socket = rw all refl; same_clients = refl })
        | inr part ↦
            let c = closed_with-closes env false s sent.1 in
            rw (e, part)
              (record { answer = c.0 ∙ sym part; socket = rw part c.1; same_clients = c.2 })
      ]

  send_discovery_message-created :
      (s : Server S) (w : W)
      → let r =
          create discovery discovery_id s.tx_buffer
            (record { dev_id = get_cpu_id (efuse_mac w) }) in
        send_discovery_message env s w ≡ send_created env r.0 (record s { tx_buffer = r.1 }) w
  unfolding send_discovery_message
  send_discovery_message-created s w = refl

  -- A discovery message is the datagram of the identifier and the device's number; `sendDiscoveryMessage`
  -- answers whether all its eight bytes were sent, and the socket is closed if they were not.
  pub send_discovery_message-sent :
      (s : Server S) (w : W)
      → length s.tx_buffer ≡ 512
      → let sended =
          (sendto s.g_sock
            (bytes_of 4 discovery_id ++ bytes_of 4 (get_cpu_id (efuse_mac w)))
            destination
            w).0 in
        let r = send_discovery_message env s w in
        (r.0 ≡ eq_ℤ (pos 8) sended)
        × (is_neg r.1.g_sock ≡ (if eq_ℤ (pos 8) sended then is_neg s.g_sock else true))
        × (r.1.g_clients ≡ s.g_clients)
  send_discovery_message-sent s w whole =
      let made =
        create-image-discovery s.tx_buffer (record { dev_id = get_cpu_id (efuse_mac w) }) whole
          (get_cpu_id-lt (efuse_mac w)) in
      let r =
        create discovery discovery_id s.tx_buffer (record { dev_id = get_cpu_id (efuse_mac w) }) in
      let sent =
        send_created-IsSent (bytes_of 4 discovery_id ++ bytes_of 4 (get_cpu_id (efuse_mac w)))
          (record s { tx_buffer = r.1 }) w made.1 in
      rw (send_discovery_message-created s w, made.0) (sent.answer, sent.socket, sent.same_clients)
