-- ===== src/UdpServer.antt =====
-- The UDP server of src/components/netio (UdpSrv.cpp): its socket, its clients and its messages. What lwip
-- does is the parameter `Lwip`, the set of clients the parameter `ClientSet`.
pub mod Closing
pub mod Order
pub mod Dispatching
pub mod Receiving
pub mod Sending
mod Examples
use esp_ac_dimmer.Prelude.{
  ℕ, zero, suc, ◌+◌, ◌-◌, ◌/◌, ◌%◌, ◌^◌, ltb, ◌==◌, if◌then◌else◌, Bool, true, false, not, ◌||◌,
  Option, List, [], ◌∷◌, length, take,
}
use esp_ac_dimmer.Prelude.Int.{ℤ, pos, negsuc, eq_ℤ, is_neg}
use esp_ac_dimmer.Utils.{get_cpu_id}
use esp_ac_dimmer.Streams.{overwrite}
use esp_ac_dimmer.Streams.Values.{value_of}
use esp_ac_dimmer.Messages.{Discovery, discovery, discovery_id, create}

pub record ClientInfo : Type 0 where
  pub addr : ℕ
  pub port : ℕ

-- `ClientInfo::operator<`.
pub less : ClientInfo → ClientInfo → Bool
less c info = ltb c.addr info.addr || ltb c.port info.port

-- `std::set<ClientInfo>`, as far as the server uses it.
pub record ClientSet (S : Type 0) : Type 0 where
  pub emplace : ClientInfo → S → S
  pub elements : S → List ClientInfo

-- What `recvfrom` answers: its result, the bytes that it stored and the address that it stored.
pub record Received : Type 0 where
  pub len : ℤ
  pub bytes : List ℕ
  pub source : ClientInfo

-- The calls of lwip, of the clock in its ticks, and of the chip's address.
pub record Lwip (W : Type 0) : Type 0 where
  pub socket : W → ℤ × W
  pub shutdown : ℤ → W → W
  pub close : ℤ → W → W
  pub sendto : ℤ → List ℕ → ClientInfo → W → ℤ × W
  pub recvfrom : ℤ → ℕ → W → Received × W
  pub now : W → ℕ × W
  pub efuse_mac : W → Option (List ℕ)

-- The variables of the namespace.
pub record Server (S : Type 0) : Type 0 where
  pub g_sock : ℤ
  pub rx_buffer : List ℕ
  pub tx_buffer : List ℕ
  pub g_clients : S
  pub g_discovery_timepoint : ℕ

-- An `int` as the `size_t` of 32 bits to which a comparison with `sizeof` converts it.
unfoldable pub unsigned_of : ℤ → ℕ
unsigned_of (pos n) = n
unsigned_of (negsuc n) = 2 ^ 32 - 1 - n

-- What the server runs with; `destination` is the address `INADDR_ANY` with `HOST_PORT`.
pub record Environment (W S : Type 0) : Type 0 where
  pub lwip : Lwip W
  pub clients : ClientSet S
  pub ticks_per_second : ℕ
  pub destination : ClientInfo

module _ {W S : Type 0} (env : Environment W S) where
  open env use {lwip, clients, ticks_per_second, destination}
  open lwip use {socket, shutdown, close, sendto, recvfrom, now, efuse_mac}

  pub open_socket : Server S → W → ℤ × Server S × W
  open_socket s w = let (sock, w') = socket w in (sock, record s { g_sock = sock }, w')

  unfoldable pub close_socket : Server S → W → Server S × W
  close_socket s w =
      if is_neg s.g_sock
      then (s, w)
      else (record s { g_sock = negsuc 0 }, close s.g_sock (shutdown s.g_sock w))

  -- Closes the socket and answers.
  pub closed_with : Bool → Server S → W → Bool × Server S × W
  unfolding close_socket
  closed_with answer s w = let (s', w') = close_socket s w in (answer, s', w')

  -- After `messages::create`.
  pub send_created : ℕ → Server S → W → Bool × Server S × W
  unfolding closed_with
  send_created msg_len s w =
      if ltb 0 msg_len
      then (let (sended, w') = sendto s.g_sock (take msg_len s.tx_buffer) destination w in
          if eq_ℤ (pos msg_len) sended then (true, s, w') else closed_with false s w')
      else closed_with false s w

  pub send_discovery_message : Server S → W → Bool × Server S × W
  unfolding send_created
  send_discovery_message s w =
      let msg : Discovery = record { dev_id = get_cpu_id (efuse_mac w) } in
      let (msg_len, buffer) = create discovery discovery_id s.tx_buffer msg in
      send_created msg_len (record s { tx_buffer = buffer }) w

  -- The end of a round of `run`: every five seconds the server sends a discovery message.
  pub discover : Server S → W → Server S × W
  unfolding send_discovery_message
  discover s w =
      let (curr_time, w₁) = now w in
      let (sent, s₂, w₂) = send_discovery_message s w₁ in
      if ltb ((curr_time - s.g_discovery_timepoint) / ticks_per_second) 5
      then (s, w₁)
      else (record s₂ { g_discovery_timepoint = curr_time }, w₂)

  pub go_on : Server S → W → Bool × Server S × W
  unfolding discover
  go_on s w = let (s', w') = discover s w in (true, s', w')

  -- After the message's length was tested, with `len` as a `size_t`.
  pub dispatch : ℕ → ClientInfo → Server S → W → Bool × Server S × W
  unfolding go_on closed_with
  dispatch len source s w =
      let rest = (len + 2 ^ 32 - 4) % 2 ^ 32 in
      if value_of (take 4 s.rx_buffer) == discovery_id
      then (if ltb rest 4
          then closed_with false s w
          else go_on (record s { g_clients = clients.emplace source s.g_clients }) w)
      else go_on s w

  -- A round of the loop of `run`: whether the loop goes on.
  pub receive : Server S → W → Bool × Server S × W
  unfolding dispatch closed_with unsigned_of
  receive s w =
      let (r, w₁) = recvfrom s.g_sock (length s.rx_buffer) w in
      let s₁ = record s { rx_buffer = overwrite r.bytes s.rx_buffer } in
      let len = unsigned_of r.len in
      if ltb len 4 then closed_with false s₁ w₁ else dispatch len r.source s₁ w₁

  -- At most so many rounds of the loop, and whether it goes on after them.
  pub receive_loop : ℕ → Server S → W → Bool × Server S × W
  unfolding receive
  receive_loop zero s w = (true, s, w)
  receive_loop (suc n) s w =
      let (goes_on, s₁, w₁) = receive s w in
      let rest = receive_loop n s₁ w₁ in if goes_on then rest else (false, s₁, w₁)

  pub run : ℕ → Server S → W → Bool × Server S × W
  unfolding open_socket receive_loop
  run n s w =
      let (sock, s₁, w₁) = open_socket s w in
      if is_neg sock then (false, s₁, w₁) else receive_loop n s₁ w₁

  -- The loop of `send_data` over the clients.
  pub send_each : List ℕ → List ClientInfo → Server S → W → Bool × Server S × W
  unfolding closed_with
  send_each bytes [] s w = (true, s, w)
  send_each bytes (info ∷ infos) s w =
      let (error_code, w₁) = sendto s.g_sock bytes info w in
      let rest = send_each bytes infos s w₁ in
      if is_neg error_code then closed_with false s w₁ else rest

  unfoldable pub send_data : List ℕ → Server S → W → Bool × Server S × W
  unfolding send_each
  send_data bytes s w =
      if is_neg s.g_sock then (false, s, w) else send_each bytes (clients.elements s.g_clients) s w
