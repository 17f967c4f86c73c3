-- ===== src/Net/Ethernet.antt =====
-- net/ethernet.c: frames and ARP packets. The cache of ARP is in base_kernel.Arp.
use base_kernel.Base.{
  ℕ, ◌+◌, not, ◌&&◌, ◌||◌, List, [], ◌∷◌, ◌++◌, none, some, ltb, ◌==◌, if◌then◌else◌,
}
use base_kernel.Arp.{arp_update_cache}
use base_kernel.Net.Bytes.{Buffer, load16, load32, load48, u16, u32, u48, write_bytes, htons, ntohs}
use base_kernel.Net.State.{
  Packet, Interface, Net, Status, ok, failed, Sender, ignored, eth_size, arp_size, eth_p_ip,
  eth_p_arp,
}
use base_kernel.Net.Core.{net_alloc_packet, prepend, net_tx_packet}

-- The fields of an ARP packet, as its receiver reads them.
pub record ArpHeader : Type 0 where
  pub hw_type : ℕ
  pub proto_type : ℕ
  pub opcode : ℕ
  pub sender_hw : ℕ
  pub sender_ip : ℕ
  pub target_ip : ℕ

abbrev pub read_arp : Buffer → ℕ → ArpHeader
read_arp b d = record {
  hw_type = ntohs (load16 b d);
  proto_type = ntohs (load16 b (d + 2));
  opcode = ntohs (load16 b (d + 6));
  sender_hw = load48 b (d + 8);
  sender_ip = load32 b (d + 14);
  target_ip = load32 b (d + 24);
}

abbrev pub arp_op_request : ℕ
arp_op_request = 1

abbrev pub arp_op_reply : ℕ
arp_op_reply = 2

abbrev pub eth_header : ℕ → ℕ → ℕ → List ℕ
eth_header dest src type = u48 dest ++ u48 src ++ u16 (htons type)

-- The packet with its frame header in front.
abbrev pub framed : ℕ → ℕ → ℕ → Packet → Packet
framed dest src type p =
    let q = prepend eth_size p in
    record q { buffer = write_bytes q.data_at (eth_header dest src type) q.buffer }

unfoldable pub ethernet_output : Sender → ℕ → Packet → ℕ → ℕ → Net → Status × Net
ethernet_output send a p dest_mac type n =
    if ltb p.data_at eth_size
    then (failed, n)
    else net_tx_packet send a (framed dest_mac (n.netif_at a).mac_addr type p) n

-- The answer to a request that came with `arp`, for the interface `i`.
abbrev pub arp_reply : ArpHeader → Interface → Packet → Packet
arp_reply arp i p = record p {
  data_at = p.data_at + eth_size;
  len = arp_size;
  buffer =
      write_bytes (p.data_at + eth_size)
        (u16 (htons 1)
          ++ u16 (htons eth_p_ip)
          ++ (6 ∷ 4 ∷ [])
          ++ u16 (htons arp_op_reply)
          ++ u48 i.mac_addr
          ++ u32 i.ip_addr
          ++ u48 arp.sender_hw
          ++ u32 arp.sender_ip)
        p.buffer;
}

unfoldable pub arp_input : Sender → Sender
arp_input send a p n =
    let arp = read_arp p.buffer p.data_at in
    let i = n.netif_at a in
    let learnt = record n {
      arp_cache = arp_update_cache arp.sender_ip arp.sender_hw n.ticks n.arp_cache;
    } in
    if ltb p.len arp_size || (not (arp.hw_type == 1) || not (arp.proto_type == eth_p_ip))
    then (failed, n)
    else if arp.opcode == arp_op_request && arp.target_ip == i.ip_addr
    then elim (net_alloc_packet (eth_size + arp_size) learnt) [
      | none ↦ (failed, learnt)
      | some reply ↦
          let (status, m) =
            ethernet_output send a (arp_reply arp i reply) arp.sender_hw eth_p_arp learnt in
          (ignored status, m)
    ]
    else (ok, learnt)
