-- ===== src/Net/Stack/Follows.antt =====
-- The control blocks under everything that a packet can set off.
use base_kernel.Base.{
  ℕ, zero, suc, ◌+◌, ◌*◌, ◌/◌, ◌%◌, ◌^◌, add64, Bool, true, false, not, ◌&&◌, ◌||◌, Option, none,
  some, ltb, ◌==◌, if◌then◌else◌,
}
use base_kernel.Arp.{arp_update_cache}
use base_kernel.Net.Bytes.{load16, load32, ntohs}
use base_kernel.Net.State.{
  Packet, Net, Status, failed, eth_p_ip, eth_p_arp, ignored, Sender, unset, loopback_send,
  driver_send, SendPacket, net_max_packet_size,
}
use base_kernel.Net.Core.{strip, update, net_alloc_packet}
use base_kernel.Net.Ethernet.{ArpHeader, ethernet_output, arp_input, arp_reply, read_arp}
use base_kernel.Net.Ipv4.{ipv4_output, icmp_input, echo_reply}
use base_kernel.Net.Udp.{udp_input}
use base_kernel.Net.Tcp.States.{
  Follows, IsFollowing, Follows-refl, ethernet_output-Follows, ipv4_output-Follows,
  tcp_input-Follows,
}
use base_kernel.Net.Stack.{
  dispatch_ip, is_foreign, ipv4_input, dispatch_frame, ethernet_input, net_rx_packet, deliver,
}

udp_input-Follows : IsFollowing udp_input
unfolding udp_input
udp_input-Follows a p n = Follows-refl n

-- The result of a call at `n`, where the blocks have moved along the diagram.
record Kept (n : Net) (r : Status × Net) : Type 0 where
  kept : Follows n r.1

either :
    {n : Net} {x y : Status × Net} (b : Bool) → Kept n x → Kept n y → Kept n (if b then x else y)
either true f g = f
either false f g = g

stay : {n : Net} {s : Status} → Kept n (s, n)
stay {n} = record { kept = Follows-refl n }

icmp_input-Kept :
    (send : Sender) (a : ℕ) (p : Packet) (n : Net)
    → IsFollowing send
    → Kept n (icmp_input send a p n)
unfolding icmp_input
icmp_input-Kept send a p n f =
    either (ltb p.len 8) stay
      (either (p.buffer p.data_at == 8) (with_room (net_alloc_packet net_max_packet_size n)) stay)
  where
    with_room :
        (o : Option Packet)
        → Kept n (elim o as (λ _. Status × Net) [
          | none ↦ (failed, n)
          | some r ↦ ipv4_output send (echo_reply p r) (load32 p.buffer (p.l3_header + 12)) 1 n
        ])
    with_room none = stay
    with_room (some r) = record {
      kept = ipv4_output-Follows send (echo_reply p r) (load32 p.buffer (p.l3_header + 12)) 1 n f;
    }

dispatch_ip-Kept :
    (send : Sender) (protocol a : ℕ) (p : Packet) (n : Net)
    → IsFollowing send
    → Kept n (dispatch_ip send protocol a p n)
unfolding dispatch_ip
dispatch_ip-Kept send protocol a p n f = either (protocol == 1) (icmp_input-Kept send a p n f) (
    either (protocol == 6) (record { kept = tcp_input-Follows send f a p n })
      (either (protocol == 17) (record { kept = udp_input-Follows a p n }) stay))

ipv4_input-Kept :
    (send : Sender) (a : ℕ) (p : Packet) (n : Net)
    → IsFollowing send
    → Kept n (ipv4_input send a p n)
unfolding ipv4_input
ipv4_input-Kept send a p n f = either (ltb p.len 20) stay (
    either (not (p.buffer p.data_at / 2 ^ 4 == 4)) stay (
      either (ltb p.len (p.buffer p.data_at % 2 ^ 4 * 4)) stay (
        either (is_foreign (n.netif_at a) (load32 p.buffer (p.data_at + 16))) stay (
          dispatch_ip-Kept send (p.buffer (p.data_at + 9)) a
            (strip (p.buffer p.data_at % 2 ^ 4 * 4) (record p { l3_header = p.data_at })) n f))))

arp_input-Kept :
    (send : Sender) (a : ℕ) (p : Packet) (n : Net)
    → IsFollowing send
    → Kept n (arp_input send a p n)
unfolding arp_input
arp_input-Kept send a p n f =
    either (ltb p.len 28 || (not (arp.hw_type == 1) || not (arp.proto_type == eth_p_ip))) stay (
      either (arp.opcode == 1 && arp.target_ip == (n.netif_at a).ip_addr)
        (with_room (net_alloc_packet 42 learnt)) (record { kept = Follows-refl n }))
  where
    arp : ArpHeader
    arp = read_arp p.buffer p.data_at

    learnt : Net
    learnt = record n {
      arp_cache = arp_update_cache arp.sender_ip arp.sender_hw n.ticks n.arp_cache;
    }

    with_room :
        (o : Option Packet)
        → Kept n (elim o as (λ _. Status × Net) [
          | none ↦ (failed, learnt)
          | some r ↦
              let (status, m) =
                ethernet_output send a
                  (arp_reply arp (n.netif_at a) r)
                  arp.sender_hw
                  eth_p_arp
                  learnt in
              (ignored status, m)
        ])
    with_room none = record { kept = Follows-refl n }
    with_room (some r) = record {
      kept =
          ethernet_output-Follows send a (arp_reply arp (n.netif_at a) r) arp.sender_hw eth_p_arp
            learnt f;
    }

ethernet_input-Kept :
    (send : Sender) (a : ℕ) (p : Packet) (n : Net)
    → IsFollowing send
    → Kept n (ethernet_input send a p n)
unfolding ethernet_input dispatch_frame
ethernet_input-Kept send a p n f =
    let type = ntohs (load16 p.buffer (p.data_at + 12)) in
    let q = strip 14 (record p { l2_header = p.data_at; protocol = type }) in
    either (ltb p.len 14) stay (
      either (type == eth_p_ip) (ipv4_input-Kept send a q n f)
        (either (type == eth_p_arp) (arp_input-Kept send a q n f) stay))

net_rx_packet-Follows : (send : Sender) → IsFollowing send → IsFollowing (net_rx_packet send)
unfolding net_rx_packet
net_rx_packet-Follows send f a p n =
    let i = n.netif_at a in
    let counted = record i {
      rx_packets = add64 i.rx_packets 1;
      rx_bytes = add64 i.rx_bytes p.len;
    } in
    (ethernet_input-Kept send a (record p { netif = some a }) (update a counted n) f).kept

-- If a driver moves the state of a control block at most from SYN_SENT to ESTABLISHED and from there
-- to CLOSE_WAIT, and leaves the list of blocks with at most new ones in front, then so does everything
-- that a packet sets off at any interface, with the loopback device nested to any depth: every block
-- that was in the list is still there, in the same order.
pub deliver-Follows :
    (driver : Sender) (depth : ℕ) → IsFollowing driver → IsFollowing (deliver driver depth)
unfolding deliver
deliver-Follows driver zero f a p n = Follows-refl n
deliver-Follows driver (suc depth) f a p n =
    by_device (n.netif_at a).send_packet
      (net_rx_packet-Follows (deliver driver depth) (deliver-Follows driver depth f) a p n)
  where
    by_device :
        (s : SendPacket)
        → Follows n (net_rx_packet (deliver driver depth) a p n).1
        → Follows n
            (elim s as (λ _. Status × Net) [
              | loopback_send ↦ net_rx_packet (deliver driver depth) a p n
              | driver_send ↦ driver a p n
              | unset ↦ (failed, n)
            ]).1
    by_device loopback_send looped = looped
    by_device driver_send looped = f a p n
    by_device unset looped = Follows-refl n
