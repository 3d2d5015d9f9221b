-- ===== src/UdpServer/Dispatching.antt =====
-- What a round of `run` does with a message in its buffer.
use esp_ac_dimmer.Prelude.{
  ℕ, ◌+◌, ◌-◌, ◌%◌, ◌^◌, ◌<◌, ◌≤◌, ◌≡◌, ◌≢◌, ==_iff, refl, ap, ◌∙◌, arith, ltb, ◌==◌, true, false,
  List, [], ◌∷◌, ◌++◌, length, length-append, take, Bool-cases, inl, inr,
}
use esp_ac_dimmer.Prelude.Int.{is_neg}
use esp_ac_dimmer.Streams.{overwrite}
use esp_ac_dimmer.Streams.Values.{value_of, bytes_of}
use esp_ac_dimmer.Streams.Values.RoundTrip.{length-bytes_of, value_of-bytes_of}
use esp_ac_dimmer.Messages.{discovery_id}
use esp_ac_dimmer.UdpServer.Closing.{IsAfter, closed_with-closes, discover-IsAfter}
use esp_ac_dimmer.UdpServer.{Environment, ClientInfo, Server, go_on, dispatch}

take-front :
    (x y buf : List ℕ) → length x ≤ length buf → take (length x) (overwrite (x ++ y) buf) ≡ x
unfolding overwrite
take-front [] y buf h = refl
take-front (d ∷ x) y [] h = absurd (omega arith)
take-front (d ∷ x) y (b ∷ buf) h = ap (◌∷◌ d) (take-front x y buf (omega arith))

pub length-datagram :
    (id : ℕ) (bytes rest : List ℕ) → bytes ≡ bytes_of 4 id ++ rest → length bytes ≡ 4 + length rest
length-datagram id bytes rest e =
    ap (λ (x : List ℕ). length x) e
    ∙ (length-append (bytes_of 4 id) rest ∙ omega (arith, length-bytes_of 4 id))

-- The identifier of a datagram in the buffer.
pub received_id :
    (id : ℕ) (bytes rest buf : List ℕ)
    → bytes ≡ bytes_of 4 id ++ rest
    → id < 2 ^ 32
    → length bytes ≤ length buf
    → value_of (take 4 (overwrite bytes buf)) ≡ id
received_id id bytes rest buf e small fits =
    let four = length-bytes_of 4 id in
    let room : length (bytes_of 4 id) ≤ length buf =
      omega (arith, four, fits, length-datagram id bytes rest e) in
    let front = take-front (bytes_of 4 id) rest buf room in
    let front : take 4 (overwrite bytes buf) ≡ bytes_of 4 id = rw e (rw four at front) in
    ap value_of front ∙ value_of-bytes_of 4 id (omega arith)

module _ {W S : Type 0} (env : Environment W S) where
  open env use {lwip, clients}
  open lwip use {recvfrom}

  pub dispatch-closed :
      (len : ℕ) (source : ClientInfo) (s : Server S) (w : W)
      → value_of (take 4 s.rx_buffer) ≡ discovery_id
      → ltb ((len + 2 ^ 32 - 4) % 2 ^ 32) 4 ≡ true
      → let r = dispatch env len source s w in
        (r.0 ≡ false) × (is_neg r.1.g_sock ≡ true) × (r.1.g_clients ≡ s.g_clients)
  unfolding dispatch
  dispatch-closed len source s w is_discovery short =
      let discovers = (==_iff (value_of (take 4 s.rx_buffer)) discovery_id).1 is_discovery in
      rw (discovers, short) (closed_with-closes env false s w)

  pub dispatch-discovery :
      (len : ℕ) (source : ClientInfo) (s : Server S) (w : W)
      → value_of (take 4 s.rx_buffer) ≡ discovery_id
      → ltb ((len + 2 ^ 32 - 4) % 2 ^ 32) 4 ≡ false
      → let r = dispatch env len source s w in
        (r.0 ≡ true) × IsAfter env (record s { g_clients = clients.emplace source s.g_clients }) r.1
  unfolding dispatch go_on
  dispatch-discovery len source s w is_discovery long =
      let discovers = (==_iff (value_of (take 4 s.rx_buffer)) discovery_id).1 is_discovery in
      rw (discovers, long) (refl, discover-IsAfter env _ w)

  pub dispatch-other :
      (len : ℕ) (source : ClientInfo) (s : Server S) (w : W)
      → value_of (take 4 s.rx_buffer) ≢ discovery_id
      → let r = dispatch env len source s w in (r.0 ≡ true) × IsAfter env s r.1
  unfolding dispatch go_on
  dispatch-other len source s w is_other =
      let others : (value_of (take 4 s.rx_buffer) == discovery_id) ≡ false = ground arith in
      rw others (refl, discover-IsAfter env s w)

  -- What a long enough datagram does, whatever it holds.
  pub dispatch-goes_on :
      (len : ℕ) (source : ClientInfo) (s : Server S) (w : W)
      → ltb ((len + 2 ^ 32 - 4) % 2 ^ 32) 4 ≡ false
      → let r = dispatch env len source s w in
        (r.0 ≡ true) × (is_neg s.g_sock ≡ true → is_neg r.1.g_sock ≡ true)
  dispatch-goes_on len source s w long =
      elim (Bool-cases (value_of (take 4 s.rx_buffer) == discovery_id)) [
        | inl e ↦
            let r =
              dispatch-discovery len source s w
                ((==_iff (value_of (take 4 s.rx_buffer)) discovery_id).0 e) long in
            (r.0, r.1.closed)
        | inr e ↦
            let r = dispatch-other len source s w (λ same. absurd (ground (arith, same, e))) in
            (r.0, r.1.closed)
      ]
