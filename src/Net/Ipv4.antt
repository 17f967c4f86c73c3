-- ===== src/Net/Ipv4.antt =====
-- net/ipv4.c: `ipv4_output` and ICMP. `&` with a mask of leading bits is `bit_and`.
use base_kernel.Base.{
  ℕ, ◌+◌, ◌-◌, ◌%◌, ◌^◌, List, [], ◌∷◌, ◌++◌, Option, none, some, bit_and, ltb, ◌==◌, if◌then◌else◌,
}
use base_kernel.Arp.{arp_lookup}
use base_kernel.Net.Bytes.{load16, load32, store16, copy, u16, u32, write_bytes, htons, checksum}
use base_kernel.Net.State.{
  Packet, Interface, Net, Status, ok, failed, Sender, net_max_packet_size, eth_size, ipv4_size,
  icmp_size, ipproto_icmp, eth_p_ip,
}
use base_kernel.Net.Core.{net_alloc_packet, prepend, is_loopback, net_get_interface}
use base_kernel.Net.Ethernet.{ethernet_output}

abbrev pub icmp_echo_reply : ℕ
icmp_echo_reply = 0

abbrev pub icmp_echo_request : ℕ
icmp_echo_request = 8

-- The interface that a packet leaves by.
abbrev pub route : ℕ → Net → Option ℕ
route dest_ip n =
    if bit_and dest_ip 0xFF000000 == 0x7F000000
    then net_get_interface (108 ∷ 111 ∷ []) n
    else n.default_interface

-- The header with 0 as its checksum, for a packet of this length.
abbrev pub ipv4_header : ℕ → ℕ → ℕ → ℕ → List ℕ
ipv4_header len protocol src_ip dest_ip =
    (0x45 ∷ 0 ∷ [])
    ++ u16 (htons (len % 2 ^ 16))
    ++ u16 (htons 0)
    ++ u16 (htons 0x4000)
    ++ (64 ∷ protocol ∷ [])
    ++ u16 0
    ++ u32 src_ip
    ++ u32 dest_ip

-- The packet with its header in front.
abbrev pub with_ipv4_header : ℕ → ℕ → ℕ → Packet → Packet
with_ipv4_header protocol src_ip dest_ip p =
    let q = prepend ipv4_size p in
    let b = write_bytes q.data_at (ipv4_header q.len protocol src_ip dest_ip) q.buffer in
    record q { buffer = store16 (q.data_at + 10) (checksum b q.data_at ipv4_size) b }

-- The hardware address for a destination, `none` on a miss.
abbrev pub resolve : Interface → ℕ → Net → Option ℕ
resolve i dest_ip n =
    if is_loopback i
    then some 0
    else arp_lookup
        (if bit_and dest_ip i.netmask == bit_and i.ip_addr i.netmask then dest_ip else i.gateway)
        n.arp_cache

unfoldable pub ipv4_output : Sender → Packet → ℕ → ℕ → Net → Status × Net
ipv4_output send p dest_ip protocol n = elim (route dest_ip n) [
  | none ↦ (failed, n)
  | some a ↦
      let i = n.netif_at a in
      if ltb p.data_at ipv4_size then (failed, n) else elim (resolve i dest_ip n) [
        | none ↦ (failed, n)
        | some dest_mac ↦
            ethernet_output send a (with_ipv4_header protocol i.ip_addr dest_ip p) dest_mac eth_p_ip
              n
      ]
]

-- The answer to the echo request in `p`, in the fresh packet `r`.
abbrev pub echo_reply : Packet → Packet → Packet
echo_reply p r =
    let d = r.data_at + (eth_size + ipv4_size) in
    let payload = p.len - icmp_size in
    let header =
      (icmp_echo_reply ∷ 0 ∷ [])
      ++ u16 0
      ++ u16 (load16 p.buffer (p.data_at + 4))
      ++ u16 (load16 p.buffer (p.data_at + 6)) in
    let b =
      copy (d + icmp_size) p.buffer (p.data_at + icmp_size) payload
        (write_bytes d header r.buffer) in
    record r {
      data_at = d;
      len = icmp_size + payload;
      buffer = store16 (d + 2) (checksum b d (icmp_size + payload)) b;
    }

unfoldable pub icmp_input : Sender → Sender
icmp_input send a p n =
    if ltb p.len icmp_size
    then (failed, n)
    else if p.buffer p.data_at == icmp_echo_request
    then elim (net_alloc_packet net_max_packet_size n) [
      | none ↦ (failed, n)
      | some r ↦
          ipv4_output send (echo_reply p r) (load32 p.buffer (p.l3_header + 12)) ipproto_icmp n
    ]
    else (ok, n)
