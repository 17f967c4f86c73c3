-- ===== src/Net/Stack.antt =====
-- The way of a packet through the layers: `net_rx_packet` of net/net_core.c, `ethernet_input` of
-- net/ethernet.c and `ipv4_input` of net/ipv4.c, and the loopback device, which feeds what it is given
-- back to `net_rx_packet`.
pub mod Follows
pub mod Frames
use base_kernel.Base.{
  ℕ, zero, suc, ◌+◌, ◌-◌, ◌*◌, ◌/◌, ◌%◌, ◌^◌, Bool, true, false, not, ◌&&◌, ◌||◌, Option, none,
  some, ltb, ◌==◌, if◌then◌else◌, add64,
}
use base_kernel.Net.Bytes.{load16, load32, ntohs}
use base_kernel.Net.State.{
  Packet, Interface, unset, loopback_send, driver_send, Net, Status, ok, failed, too_deep, Sender,
  eth_size, ipv4_size, eth_p_ip, eth_p_arp, ipproto_icmp, ipproto_tcp, ipproto_udp,
}
use base_kernel.Net.Core.{strip, update}
use base_kernel.Net.Ethernet.{arp_input}
use base_kernel.Net.Ipv4.{icmp_input}
use base_kernel.Net.Tcp.{tcp_input}
use base_kernel.Net.Udp.{udp_input}

pub dispatch_ip : Sender → ℕ → Sender
dispatch_ip send protocol a p n =
    if protocol == ipproto_icmp
    then icmp_input send a p n
    else if protocol == ipproto_tcp
    then tcp_input send a p n
    else if protocol == ipproto_udp
    then udp_input a p n
    else (ok, n)

-- Not for this interface: neither its address, nor a broadcast, nor an interface without an address.
abbrev pub is_foreign : Interface → ℕ → Bool
is_foreign i dest_ip =
    not (dest_ip == i.ip_addr) && (not (dest_ip == 0xFFFFFFFF) && not (i.ip_addr == 0))

pub ipv4_input : Sender → Sender
ipv4_input send a p n =
    let d = p.data_at in
    let header_len = p.buffer d % 2 ^ 4 * 4 in
    let q = record p { l3_header = d } in
    if ltb p.len ipv4_size
    then (failed, n)
    else if not (p.buffer d / 2 ^ 4 == 4)
    then (failed, n)
    else if ltb p.len header_len
    then (failed, n)
    else if is_foreign (n.netif_at a) (load32 p.buffer (d + 16))
    then (ok, n)
    else dispatch_ip send (p.buffer (d + 9)) a (strip header_len q) n

pub dispatch_frame : Sender → ℕ → Sender
dispatch_frame send type a p n =
    if type == eth_p_ip
    then ipv4_input send a p n
    else if type == eth_p_arp
    then arp_input send a p n
    else (ok, n)

pub ethernet_input : Sender → Sender
ethernet_input send a p n =
    let type = ntohs (load16 p.buffer (p.data_at + 12)) in
    if ltb p.len eth_size
    then (failed, n)
    else dispatch_frame send type a
        (strip eth_size (record p { l2_header = p.data_at; protocol = type })) n

pub net_rx_packet : Sender → Sender
net_rx_packet send a p n =
    let i = n.netif_at a in
    let counted = record i {
      rx_packets = add64 i.rx_packets 1;
      rx_bytes = add64 i.rx_bytes p.len;
    } in
    ethernet_input send a (record p { netif = some a }) (update a counted n)

-- What `send_packet` of an interface does, where the loopback device nests that often at most.
pub deliver : Sender → ℕ → Sender
deliver driver zero a p n = (too_deep, n)
deliver driver (suc depth) a p n =
    let looped = net_rx_packet (deliver driver depth) a p n in
    elim (n.netif_at a).send_packet [
      | loopback_send ↦ looped
      | driver_send ↦ driver a p n
      | unset ↦ (failed, n)
    ]
