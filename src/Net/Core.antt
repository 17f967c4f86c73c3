-- ===== src/Net/Core.antt =====
-- net/net_core.c: packets and interfaces. The fields that `net_alloc_packet` leaves unset are 0.
use base_kernel.Base.{
  ℕ, ◌+◌, ◌-◌, Bool, true, false, not, List, [], ◌∷◌, Option, none, some, bit_and, ltb, ◌==◌,
  if◌then◌else◌, add32, sub32, add64,
}
use base_kernel.Base.Int.{is_zero}
use base_kernel.Strings.{strcmp}
use base_kernel.Net.State.{
  net_max_packet_size, Packet, unset, loopback_send, driver_send, Interface, Net, failed, Sender,
}

unfoldable pub net_alloc_packet : ℕ → Net → Option Packet
net_alloc_packet size n =
    if n.room
    then some (record {
      buffer = n.fresh;
      data_at = 0;
      tail = 0;
      len = 0;
      total_len = if ltb net_max_packet_size size then size else net_max_packet_size;
      netif = none;
      protocol = 0;
      l2_header = 0;
      l3_header = 0;
      l4_header = 0;
    })
    else none

-- `pkt->data += size; pkt->len -= size`
abbrev pub strip : ℕ → Packet → Packet
strip size p = record p { data_at = p.data_at + size; len = sub32 p.len size }

-- `pkt->data -= size; pkt->len += size`
abbrev pub prepend : ℕ → Packet → Packet
prepend size p = record p { data_at = p.data_at - size; len = add32 p.len size }

abbrev pub is_loopback : Interface → Bool
is_loopback i = not (bit_and i.flags 0x08 == 0)

abbrev pub update : ℕ → Interface → Net → Net
update a i n = record n { netif_at = λ b. if b == a then i else n.netif_at b }

pub net_register_interface : ℕ → Net → Net
net_register_interface a n = record n {
  interfaces = a ∷ n.interfaces;
  default_interface = elim n.default_interface [
    | some d ↦ some d
    | none ↦ if is_loopback (n.netif_at a) then none else some a
  ];
}

-- The walk along the list of interfaces.
pub find_interface : (ℕ → Interface) → List ℕ → List ℕ → Option ℕ
find_interface netif_at [] name = none
find_interface netif_at (a ∷ list) name =
    let rest = find_interface netif_at list name in
    if is_zero (strcmp (netif_at a).name name) then some a else rest

pub net_get_interface : List ℕ → Net → Option ℕ
net_get_interface name n = find_interface n.netif_at n.interfaces name

abbrev pub has_send : Interface → Bool
has_send i = elim i.send_packet [ unset ↦ false | loopback_send ↦ true | driver_send ↦ true ]

-- `send` stands for the function that `netif->send_packet` points to.
unfoldable pub net_tx_packet : Sender → Sender
net_tx_packet send a p n =
    let i = n.netif_at a in
    if has_send i
    then send a p (
        update a (record i { tx_packets = add64 i.tx_packets 1; tx_bytes = add64 i.tx_bytes p.len })
          n)
    else (failed, n)

-- `lo`
abbrev pub loopback_if : Interface
loopback_if = record {
  name = 108 ∷ 111 ∷ [];
  mac_addr = 0;
  ip_addr = 0x7F000001;
  netmask = 0xFF000000;
  gateway = 0;
  flags = 0x09;
  send_packet = loopback_send;
  rx_packets = 0;
  tx_packets = 0;
  rx_bytes = 0;
  tx_bytes = 0;
}

-- `loopback_if` lies at place 0.
pub net_init_loopback : Net → Net
net_init_loopback n = net_register_interface 0 (update 0 loopback_if n)
