-- ===== src/UdpServer/Order.antt =====
-- The order of the clients, by which `std::set` keeps them.
use esp_ac_dimmer.Prelude.{◌<◌, ◌≡◌, ◌↔◌, arith, ltb, true, false, ◌||◌}
use esp_ac_dimmer.UdpServer.{ClientInfo, less}

-- Of two clients neither is less than the other exactly if they are the same, so that the order tells
-- all clients apart.
pub less_iff : (c d : ClientInfo) → ((less c d ≡ false) × (less d c ≡ false)) ↔ (c ≡ d)
unfolding less
less_iff c d = (
  λ h.
      let addresses : c.addr ≡ d.addr = ground (arith, h.0, h.1) in
      let ports : c.port ≡ d.port = ground (arith, h.0, h.1) in cc,
  λ e. (rw e (not_less d), rw e (not_less d)),
)
  where
    not_less : (d : ClientInfo) → (ltb d.addr d.addr || ltb d.port d.port) ≡ false
    not_less d = ground arith

-- Where one of two clients has the lower address and the other the lower port, each is less than the
-- other: the order is none.
pub less_both :
    (c d : ClientInfo) → c.addr < d.addr → d.port < c.port → (less c d ≡ true) × (less d c ≡ true)
unfolding less
less_both c d a p = (ground arith, ground arith)
