-- ===== src/Net/State.antt =====
-- The structures of include/net.h and of net/tcp.c, and the static variables of src/net.
-- A pointer into a packet's buffer is its offset from `head`. Interfaces and control blocks lie at
-- numbered places, the numbers stand for their addresses, and a linked list of them is the list of
-- these numbers. What `kmalloc_tracked` finds and what fresh memory holds are part of the state.
use base_kernel.Base.{ℕ, Bool, List, Option}
use base_kernel.Arp.{Cache}
use base_kernel.Net.Bytes.{Buffer}

abbrev pub net_max_packet_size : ℕ
net_max_packet_size = 2048

abbrev pub eth_p_ip : ℕ
eth_p_ip = 0x0800

abbrev pub eth_p_arp : ℕ
eth_p_arp = 0x0806

abbrev pub ipproto_icmp : ℕ
ipproto_icmp = 1

abbrev pub ipproto_tcp : ℕ
ipproto_tcp = 6

abbrev pub ipproto_udp : ℕ
ipproto_udp = 17

-- The sizes of the packed headers.
abbrev pub eth_size : ℕ
eth_size = 14

abbrev pub ipv4_size : ℕ
ipv4_size = 20

abbrev pub icmp_size : ℕ
icmp_size = 8

abbrev pub udp_size : ℕ
udp_size = 8

abbrev pub tcp_size : ℕ
tcp_size = 20

abbrev pub arp_size : ℕ
arp_size = 28

pub record Packet : Type 0 where
  pub buffer : Buffer
  pub data_at : ℕ
  pub tail : ℕ
  pub len : ℕ
  pub total_len : ℕ
  pub netif : Option ℕ
  pub protocol : ℕ
  pub l2_header : ℕ
  pub l3_header : ℕ
  pub l4_header : ℕ

-- What `send_packet` points to.
pub data SendPacket : Type 0 where
  unset loopback_send driver_send : SendPacket

pub record Interface : Type 0 where
  pub name : List ℕ
  pub mac_addr : ℕ
  pub ip_addr : ℕ
  pub netmask : ℕ
  pub gateway : ℕ
  pub flags : ℕ
  pub send_packet : SendPacket
  pub rx_packets : ℕ
  pub tx_packets : ℕ
  pub rx_bytes : ℕ
  pub tx_bytes : ℕ

pub data TcpState : Type 0 where
  closed listen syn_sent syn_received established fin_wait_1 fin_wait_2 close_wait closing last_ack
        time_wait :
      TcpState

pub record Bbr : Type 0 where
  pub min_rtt_us : ℕ
  pub min_rtt_stamp : ℕ
  pub btl_bw : ℕ
  pub pacing_gain : ℕ
  pub cwnd_gain : ℕ
  pub mode : ℕ

pub record Pcb : Type 0 where
  pub state : TcpState
  pub local_ip : ℕ
  pub local_port : ℕ
  pub remote_ip : ℕ
  pub remote_port : ℕ
  pub snd_una : ℕ
  pub snd_nxt : ℕ
  pub rcv_nxt : ℕ
  pub rcv_wnd : ℕ
  pub cwnd : ℕ
  pub bbr : Bbr

-- `next_pcb` is the number that the next control block gets.
pub record Net : Type 0 where
  pub interfaces : List ℕ
  pub default_interface : Option ℕ
  pub netif_at : ℕ → Interface
  pub arp_cache : Cache
  pub tcp_pcbs : List ℕ
  pub pcb_at : ℕ → Pcb
  pub next_pcb : ℕ
  pub ticks : ℕ
  pub room : Bool
  pub fresh : Buffer

-- 0, -1, a write through a null pointer, or deeper than the bound on nested deliveries.
pub data Status : Type 0 where
  ok failed crashed too_deep : Status

-- A driver's `send_packet` and everything else that takes a packet at an interface.
abbrev pub Sender : Type 0
Sender = ℕ → Packet → Net → Status × Net

-- The status of a call whose result is not looked at, in a function that then returns 0.
abbrev pub ignored : Status → Status
ignored failed = ok
ignored s = s
