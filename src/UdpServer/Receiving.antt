-- ===== src/UdpServer/Receiving.antt =====
-- What `run` makes of the datagrams, and of a receive that fails.
use esp_ac_dimmer.Prelude.{
  ℕ, zero, suc, ◌+◌, ◌-◌, ◌%◌, ◌^◌, ◌<◌, ◌≤◌, ◌≡◌, ◌≢◌, refl, sym, ◌∙◌, arith, ltb, true, false,
  List, ◌++◌, length,
}
use esp_ac_dimmer.Prelude.Int.{ℤ, pos, negsuc, is_neg}
use esp_ac_dimmer.Streams.{overwrite}
use esp_ac_dimmer.Streams.Values.{bytes_of}
use esp_ac_dimmer.Messages.{discovery_id}
use esp_ac_dimmer.UdpServer.Closing.{closed_with-closes}
use esp_ac_dimmer.UdpServer.{
  Environment, Server, unsigned_of, closed_with, dispatch, receive, receive_loop,
}
use esp_ac_dimmer.UdpServer.Dispatching.{
  length-datagram, received_id, dispatch-closed, dispatch-discovery, dispatch-other,
  dispatch-goes_on,
}

module _ {W S : Type 0} (env : Environment W S) where
  open env use {lwip, clients}
  open lwip use {recvfrom}

  -- The state with what was received.
  abbrev with_received : Server S → W → Server S
  with_received s w = record s {
    rx_buffer = overwrite (recvfrom s.g_sock (length s.rx_buffer) w).0.bytes s.rx_buffer;
  }

  receive-long :
      (s : Server S) (w : W)
      → let r = recvfrom s.g_sock (length s.rx_buffer) w in
        ltb (unsigned_of r.0.len) 4 ≡ false
        → receive env s w ≡ dispatch env (unsigned_of r.0.len) r.0.source (with_received s w) r.1
  unfolding receive
  receive-long s w long = rw long refl

  receive-short :
      (s : Server S) (w : W)
      → let r = recvfrom s.g_sock (length s.rx_buffer) w in
        ltb (unsigned_of r.0.len) 4 ≡ true
        → receive env s w ≡ closed_with env false (with_received s w) r.1
  unfolding receive
  receive-short s w short = rw short refl

  pub receive-negative :
      (s : Server S) (w : W) (n : ℕ)
      → (recvfrom s.g_sock (length s.rx_buffer) w).0.len ≡ negsuc n
      → n < 2 ^ 31
      → let r = receive env s w in
        (r.0 ≡ true) × (is_neg s.g_sock ≡ true → is_neg r.1.g_sock ≡ true)
  receive-negative s w n e small =
      let r = recvfrom s.g_sock (length s.rx_buffer) w in
      let len : unsigned_of r.0.len ≡ 2 ^ 32 - 1 - n = rw e (unfold unsigned_of in refl) in
      let long : ltb (unsigned_of r.0.len) 4 ≡ false = ground (arith, len) in
      let longer : ltb ((unsigned_of r.0.len + 2 ^ 32 - 4) % 2 ^ 32) 4 ≡ false =
        ground (arith, len) in
      rw (receive-long s w long)
        (dispatch-goes_on env (unsigned_of r.0.len) r.0.source (with_received s w) r.1 longer)

  -- A receive that fails, which `recvfrom` tells by a negative number, is not noticed: the loop goes
  -- on, whatever the buffer holds.
  pub receive-failed :
      (s : Server S) (w : W) (n : ℕ)
      → (recvfrom s.g_sock (length s.rx_buffer) w).0.len ≡ negsuc n
      → n < 2 ^ 31
      → (receive env s w).0 ≡ true
  receive-failed s w n e small = (receive-negative s w n e small).0

  -- Where every receive at a closed socket fails, the loop with a closed socket never ends: after any
  -- number of rounds it goes on, and the socket is closed.
  pub receive_loop-closed :
      (n : ℕ) (s : Server S) (w : W)
      → ((sock : ℤ) (size : ℕ) (w : W)
          → is_neg sock ≡ true
          → (recvfrom sock size w).0.len ≡ negsuc 0)
      → is_neg s.g_sock ≡ true
      → let r = receive_loop env n s w in (r.0 ≡ true) × (is_neg r.1.g_sock ≡ true)
  unfolding receive_loop
  receive_loop-closed zero s w fails closed = (refl, closed)
  receive_loop-closed (suc n) s w fails closed =
      let r = receive env s w in
      let once =
        receive-negative s w 0 (fails s.g_sock (length s.rx_buffer) w closed) (omega arith) in
      rw once.0 (receive_loop-closed n r.1 r.2 fails (once.1 closed))

  -- A datagram of at least eight bytes that begins with the identifier of a discovery message, and that
  -- `recvfrom` stored whole, has its sender inserted into the clients and nothing else, and the loop
  -- goes on.
  pub receive-discovery :
      (s : Server S) (w : W) (rest : List ℕ)
      → let r = (recvfrom s.g_sock (length s.rx_buffer) w).0 in
        r.bytes ≡ bytes_of 4 discovery_id ++ rest
        → r.len ≡ pos (length r.bytes)
        → 4 ≤ length rest
        → length r.bytes ≤ length s.rx_buffer
        → length s.rx_buffer < 2 ^ 31
        → ((receive env s w).0 ≡ true)
          × ((receive env s w).1.g_clients ≡ clients.emplace r.source s.g_clients)
  receive-discovery s w rest bytes len payload fits small =
      let r = recvfrom s.g_sock (length s.rx_buffer) w in
      let count = length-datagram discovery_id r.0.bytes rest bytes in
      let size : unsigned_of r.0.len ≡ length r.0.bytes = rw len (unfold unsigned_of in refl) in
      let long : ltb (unsigned_of r.0.len) 4 ≡ false = ground (arith, size, count) in
      let longer : ltb ((unsigned_of r.0.len + 2 ^ 32 - 4) % 2 ^ 32) 4 ≡ false =
        ground (arith, size, count, fits, small) in
      let id = received_id discovery_id r.0.bytes rest s.rx_buffer bytes (omega arith) fits in
      let d =
        dispatch-discovery env (unsigned_of r.0.len) r.0.source (with_received s w) r.1 id longer in
      rw (receive-long s w long) (d.0, d.1.clients_kept)

  -- A datagram with another identifier changes no client, and the loop goes on.
  pub receive-other :
      (s : Server S) (w : W) (id : ℕ) (rest : List ℕ)
      → let r = (recvfrom s.g_sock (length s.rx_buffer) w).0 in
        r.bytes ≡ bytes_of 4 id ++ rest
        → id < 2 ^ 32
        → id ≢ discovery_id
        → r.len ≡ pos (length r.bytes)
        → length r.bytes ≤ length s.rx_buffer
        → ((receive env s w).0 ≡ true) × ((receive env s w).1.g_clients ≡ s.g_clients)
  receive-other s w id rest bytes small other len fits =
      let r = recvfrom s.g_sock (length s.rx_buffer) w in
      let count = length-datagram id r.0.bytes rest bytes in
      let size : unsigned_of r.0.len ≡ length r.0.bytes = rw len (unfold unsigned_of in refl) in
      let long : ltb (unsigned_of r.0.len) 4 ≡ false = ground (arith, size, count) in
      let here = received_id id r.0.bytes rest s.rx_buffer bytes small fits in
      let d =
        dispatch-other env (unsigned_of r.0.len) r.0.source (with_received s w) r.1
          (λ same. other (sym here ∙ same)) in
      rw (receive-long s w long) (d.0, d.1.clients_kept)

  -- A datagram without a whole identifier ends the loop: the socket is closed and no client registered.
  pub receive-truncated :
      (s : Server S) (w : W)
      → let r = (recvfrom s.g_sock (length s.rx_buffer) w).0 in
        r.len ≡ pos (length r.bytes)
        → length r.bytes < 4
        → ((receive env s w).0 ≡ false)
          × (is_neg (receive env s w).1.g_sock ≡ true)
          × ((receive env s w).1.g_clients ≡ s.g_clients)
  receive-truncated s w len cut =
      let r = recvfrom s.g_sock (length s.rx_buffer) w in
      let size : unsigned_of r.0.len ≡ length r.0.bytes = rw len (unfold unsigned_of in refl) in
      let short : ltb (unsigned_of r.0.len) 4 ≡ true = ground (arith, size) in
      rw (receive-short s w short) (closed_with-closes env false (with_received s w) r.1)

  -- A datagram that begins with the identifier of a discovery message, but has less than four bytes after
  -- it, ends the loop: the socket is closed and the clients stay as they are.
  pub receive-discovery_truncated :
      (s : Server S) (w : W) (rest : List ℕ)
      → let r = (recvfrom s.g_sock (length s.rx_buffer) w).0 in
        r.bytes ≡ bytes_of 4 discovery_id ++ rest
        → r.len ≡ pos (length r.bytes)
        → length rest < 4
        → length r.bytes ≤ length s.rx_buffer
        → ((receive env s w).0 ≡ false)
          × (is_neg (receive env s w).1.g_sock ≡ true)
          × ((receive env s w).1.g_clients ≡ s.g_clients)
  receive-discovery_truncated s w rest bytes len cut fits =
      let r = recvfrom s.g_sock (length s.rx_buffer) w in
      let count = length-datagram discovery_id r.0.bytes rest bytes in
      let size : unsigned_of r.0.len ≡ length r.0.bytes = rw len (unfold unsigned_of in refl) in
      let long : ltb (unsigned_of r.0.len) 4 ≡ false = ground (arith, size, count) in
      let short : ltb ((unsigned_of r.0.len + 2 ^ 32 - 4) % 2 ^ 32) 4 ≡ true =
        ground (arith, size, count) in
      let id = received_id discovery_id r.0.bytes rest s.rx_buffer bytes (omega arith) fits in
      rw (receive-long s w long)
        (dispatch-closed env (unsigned_of r.0.len) r.0.source (with_received s w) r.1 id short)
