-- ===== src/Net/Tcp.antt =====
-- net/tcp.c: control blocks, the model of BBR, and the state machine of `tcp_input`.
pub mod Demux
pub mod States
use base_kernel.Base.{
  ℕ, suc, ◌+◌, ◌-◌, ◌*◌, ◌/◌, ◌%◌, ◌^◌, Bool, true, false, not, ◌&&◌, ◌||◌, List, [], ◌∷◌, ◌++◌,
  Option, none, some, bit_and, ltb, ◌==◌, if◌then◌else◌, add32,
}
use base_kernel.Net.Bytes.{
  Buffer, load16, load32, copy, u16, u32, write_bytes, htons, ntohs, htonl, ntohl,
}
use base_kernel.Net.State.{
  Packet, Net, Status, ok, failed, crashed, Sender, ignored, net_max_packet_size, eth_size,
  ipv4_size, tcp_size, ipproto_tcp, Pcb, Bbr, TcpState, closed, listen, syn_sent, syn_received,
  established, fin_wait_1, fin_wait_2, close_wait, closing, last_ack, time_wait,
}
use base_kernel.Net.Core.{net_alloc_packet, prepend}
use base_kernel.Net.Ipv4.{ipv4_output}

abbrev pub tcp_fin : ℕ
tcp_fin = 0x01

abbrev pub tcp_syn : ℕ
tcp_syn = 0x02

abbrev pub tcp_ack : ℕ
tcp_ack = 0x10

abbrev pub bbr_startup : ℕ
bbr_startup = 0

abbrev pub bbr_init : Pcb → Pcb
bbr_init p = record p {
  bbr = record p.bbr {
    min_rtt_us = 2 ^ 64 - 1;
    btl_bw = 0;
    mode = bbr_startup;
    pacing_gain = 2885;
    cwnd_gain = 2885;
  };
  cwnd = 14600;
}

pub bbr_update_model : ℕ → ℕ → ℕ → Bbr → Bbr
bbr_update_model now rtt_us delivered_bytes m =
    let m₁ =
      if ltb rtt_us m.min_rtt_us || m.min_rtt_us == 2 ^ 64 - 1
      then record m { min_rtt_us = rtt_us; min_rtt_stamp = now }
      else m in
    let bw = (delivered_bytes * 1000000) % 2 ^ 32 / ((rtt_us + 1) % 2 ^ 64) % 2 ^ 32 in
    if ltb m₁.btl_bw bw then record m₁ { btl_bw = bw } else m₁

-- A block as `tcp_new` leaves it.
abbrev pub new_pcb : Pcb
new_pcb = bbr_init (record {
  state = closed;
  local_ip = 0;
  local_port = 0;
  remote_ip = 0;
  remote_port = 0;
  snd_una = 0;
  snd_nxt = 0;
  rcv_nxt = 0;
  rcv_wnd = 8192;
  cwnd = 0;
  bbr = record {
    min_rtt_us = 0;
    min_rtt_stamp = 0;
    btl_bw = 0;
    pacing_gain = 0;
    cwnd_gain = 0;
    mode = 0;
  };
})

-- `*a = p`
abbrev pub put : ℕ → Pcb → Net → Net
put a p n = record n { pcb_at = λ b. if b == a then p else n.pcb_at b }

pub tcp_new : Net → Option ℕ × Net
tcp_new n =
    if n.room
    then (
      some n.next_pcb,
      record (put n.next_pcb new_pcb n) {
        tcp_pcbs = n.next_pcb ∷ n.tcp_pcbs;
        next_pcb = suc n.next_pcb;
      },
    )
    else (none, n)

pub tcp_bind : ℕ → ℕ → ℕ → Net → Net
tcp_bind a ip port n = put a (record (n.pcb_at a) { local_ip = ip; local_port = port }) n

pub tcp_listen : ℕ → Net → Net
tcp_listen a n = put a (record (n.pcb_at a) { state = listen }) n

abbrev pub has : ℕ → ℕ → Bool
has flags mask = not (bit_and flags mask == 0)

abbrev pub tcp_header : Pcb → ℕ → List ℕ
tcp_header p flags =
    u16 (htons p.local_port)
    ++ u16 (htons p.remote_port)
    ++ u32 (htonl p.snd_nxt)
    ++ u32 (htonl p.rcv_nxt)
    ++ (0x50 ∷ flags ∷ [])
    ++ u16 (htons (p.rcv_wnd % 2 ^ 16))
    ++ u16 0
    ++ u16 0

abbrev pub segment : Pcb → ℕ → Buffer → ℕ → Packet → Packet
segment c flags bytes len p =
    let d = p.data_at + (eth_size + ipv4_size + tcp_size) in
    let q =
      prepend tcp_size
        (record p { data_at = d; len = len; buffer = copy d bytes 0 len p.buffer }) in
    record q { buffer = write_bytes q.data_at (tcp_header c flags) q.buffer }

-- The block behind a segment of `len` bytes.
abbrev pub sent : ℕ → ℕ → Pcb → Pcb
sent flags len c = record c {
  snd_nxt = add32 (if has flags 0x03 then add32 c.snd_nxt 1 else c.snd_nxt) len;
}

unfoldable pub tcp_send_packet : Sender → ℕ → ℕ → Buffer → ℕ → Net → Status × Net
tcp_send_packet send a flags bytes len n = elim (net_alloc_packet net_max_packet_size n) [
  | none ↦ (failed, n)
  | some p ↦
      let c = n.pcb_at a in
      ipv4_output send (segment c flags bytes len p) c.remote_ip ipproto_tcp
        (put a (sent flags len c) n)
]

-- The kinds of state that the search tells apart.
pub data Match : Type 0 where
  listener connected ignored_state : Match

abbrev pub kind : TcpState → Match
kind closed = ignored_state
kind listen = listener
kind _ = connected

-- The search for the block of a segment, with what it found so far.
pub find_pcb : (ℕ → Pcb) → ℕ → ℕ → List ℕ → Option ℕ → Option ℕ
find_pcb pcb_at dest_port src_port [] found = found
find_pcb pcb_at dest_port src_port (a ∷ list) found =
    let c = pcb_at a in
    elim (c.local_port == dest_port) [
      | false ↦ find_pcb pcb_at dest_port src_port list found
      | true ↦ elim (kind c.state) [
        | listener ↦ find_pcb pcb_at dest_port src_port list (some a)
        | ignored_state ↦ find_pcb pcb_at dest_port src_port list found
        | connected ↦ elim (c.remote_port == src_port) [
          | true ↦ some a
          | false ↦ find_pcb pcb_at dest_port src_port list found
        ]
      ]
    ]

-- The fields of a segment, as `tcp_input` reads them, with the source of its IP header.
pub record Segment : Type 0 where
  pub src_port : ℕ
  pub dest_port : ℕ
  pub seq : ℕ
  pub ack : ℕ
  pub flags : ℕ
  pub src_ip : ℕ

abbrev pub read_segment : Packet → Segment
read_segment p = record {
  src_port = ntohs (load16 p.buffer p.data_at);
  dest_port = ntohs (load16 p.buffer (p.data_at + 2));
  seq = ntohl (load32 p.buffer (p.data_at + 4));
  ack = ntohl (load32 p.buffer (p.data_at + 8));
  flags = p.buffer (p.data_at + 13);
  src_ip = load32 p.buffer (p.l3_header + 12);
}

abbrev pub no_bytes : Buffer
no_bytes o = 0

-- The block of a connection that a SYN opens.
abbrev pub accepted : ℕ → Segment → Pcb → Pcb
accepted local_ip s c = record c {
  local_ip = local_ip;
  local_port = s.dest_port;
  remote_ip = s.src_ip;
  remote_port = s.src_port;
  state = syn_received;
  rcv_nxt = add32 s.seq 1;
  snd_nxt = 12345;
}

-- `status; return 0`
abbrev pub return_0 : Status × Net → Status × Net
return_0 (s, n) = (ignored s, n)

pub on_listen : Sender → ℕ → Segment → Net → Status × Net
on_listen send local_ip s n =
    if has s.flags tcp_syn
    then (let (npcb, m) = tcp_new n in
        elim npcb [
          | none ↦ (crashed, m)
          | some a ↦
              return_0 (
                tcp_send_packet send a 0x12 no_bytes 0 (put a (accepted local_ip s (m.pcb_at a)) m))
        ])
    else (ok, n)

pub on_syn_sent : Sender → ℕ → Segment → Net → Status × Net
on_syn_sent send a s n =
    if has s.flags tcp_syn && has s.flags tcp_ack
    then return_0 (
        tcp_send_packet send a tcp_ack no_bytes 0 (
          put a
            (record (n.pcb_at a) { state = established; snd_una = s.ack; rcv_nxt = add32 s.seq 1 })
            n))
    else (ok, n)

-- The block behind the acknowledgement of a segment.
abbrev pub acknowledged : ℕ → Segment → Pcb → Pcb
acknowledged now s c =
    if has s.flags tcp_ack
    then record c { bbr = bbr_update_model now 1000 0 c.bbr; snd_una = s.ack }
    else c

pub on_established : Sender → ℕ → Segment → Net → Status × Net
on_established send a s n =
    let c = acknowledged n.ticks s (n.pcb_at a) in
    if has s.flags tcp_fin
    then return_0 (
        tcp_send_packet send a tcp_ack no_bytes 0
          (put a (record c { state = close_wait; rcv_nxt = add32 c.rcv_nxt 1 }) n))
    else (ok, put a c n)

-- The state machine, for the block `a` and a segment that came in at an interface of this address.
pub tcp_step : Sender → ℕ → ℕ → Segment → TcpState → Net → Status × Net
tcp_step send local_ip a s listen n = on_listen send local_ip s n
tcp_step send local_ip a s syn_sent n = on_syn_sent send a s n
tcp_step send local_ip a s established n = on_established send a s n
tcp_step send local_ip a s _ n = (ok, n)

pub tcp_input : Sender → Sender
tcp_input send i p n =
    let s = read_segment p in
    if ltb p.len tcp_size
    then (failed, n)
    else elim (find_pcb n.pcb_at s.dest_port s.src_port n.tcp_pcbs none) [
      | none ↦ (ok, n)
      | some a ↦ tcp_step send (n.netif_at i).ip_addr a s (n.pcb_at a).state n
    ]
