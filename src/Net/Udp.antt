-- ===== src/Net/Udp.antt =====
-- net/udp.c. The bytes that a caller sends are a buffer, `data` at offset 0.
use base_kernel.Base.{ℕ, ◌+◌, ◌%◌, ◌^◌, ◌++◌, List, none, some, ltb, if◌then◌else◌}
use base_kernel.Net.Bytes.{Buffer, copy, u16, write_bytes, htons}
use base_kernel.Net.State.{
  Packet, Net, Status, ok, failed, Sender, net_max_packet_size, eth_size, ipv4_size, udp_size,
  ipproto_udp,
}
use base_kernel.Net.Core.{net_alloc_packet, prepend}
use base_kernel.Net.Ipv4.{ipv4_output}

pub record SockAddr : Type 0 where
  pub ip : ℕ
  pub port : ℕ

-- A packet is stripped of its header and then dropped.
unfoldable pub udp_input : Sender
udp_input a p n = (if ltb p.len udp_size then failed else ok, n)

abbrev pub udp_header : ℕ → ℕ → ℕ → List ℕ
udp_header src dest len =
    u16 (htons src) ++ u16 (htons dest) ++ u16 (htons ((len + udp_size) % 2 ^ 16)) ++ u16 0

-- The packet with the bytes and the header in front of them.
abbrev pub datagram : SockAddr → SockAddr → Buffer → ℕ → Packet → Packet
datagram src dest bytes len p =
    let d = p.data_at + (eth_size + ipv4_size + udp_size) in
    let q =
      prepend udp_size
        (record p { data_at = d; len = len; buffer = copy d bytes 0 len p.buffer }) in
    record q { buffer = write_bytes q.data_at (udp_header src.port dest.port len) q.buffer }

unfoldable pub udp_send : Sender → SockAddr → SockAddr → Buffer → ℕ → Net → Status × Net
udp_send send src dest bytes len n = elim (net_alloc_packet net_max_packet_size n) [
  | none ↦ (failed, n)
  | some p ↦ ipv4_output send (datagram src dest bytes len p) dest.ip ipproto_udp n
]
