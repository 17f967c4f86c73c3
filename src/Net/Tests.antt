-- ===== src/Net/Tests.antt =====
-- A machine with one interface and an echo request, and the theorems at them.
use base_kernel.Base.{
  ℕ, ◌-◌, ◌%◌, ◌^◌, ◌≤◌, ◌<◌, ◌≡◌, ◌≢◌, refl, true, [], ◌∷◌, none, some, ◌==◌, if◌then◌else◌, arith,
}
use base_kernel.Net.Bytes.{Buffer, store16, checksum, fold_sum}
use base_kernel.Net.Bytes.Fields.{IsBuffer}
use base_kernel.Net.Bytes.Checksum.{checksum_verifies, fold_sum_enough}
use base_kernel.Net.State.{Packet, Interface, driver_send, Net, ok, Sender}
use base_kernel.Net.Core.{net_tx_packet}
use base_kernel.Net.Ethernet.{framed}
use base_kernel.Net.Ipv4.{resolve, icmp_input}
use base_kernel.Net.Ping.{empty_packet, IsAnswer, icmp_input-IsAnswer}
use base_kernel.Net.State.{listen, established}
use base_kernel.Net.Tcp.{new_pcb, find_pcb}
use base_kernel.Net.Tcp.Demux.{or_else, first_connection, last_listener, find_pcb_lem}
use base_kernel.Net.Tcp.States.{Follows, IsFollowing, Follows-refl}
use base_kernel.Net.Stack.{deliver, dispatch_frame, ethernet_input}
use base_kernel.Net.Stack.Follows.{deliver-Follows}
use base_kernel.Net.Stack.Frames.{ethernet_input-framed}
use base_kernel.Arp

abbrev zeros : Buffer
zeros o = 0

zeros-IsBuffer : IsBuffer zeros
zeros-IsBuffer o = omega arith

abbrev sevens : Buffer
sevens o = 7

sevens-IsBuffer : IsBuffer sevens
sevens-IsBuffer o = omega arith

abbrev largest : ℕ
largest = 2 ^ 32 - 1

fold_sum_enough_example :
    (fold_sum 2 largest < 2 ^ 16)
    × (fold_sum 3 largest ≡ fold_sum 2 largest)
    × (fold_sum 2 largest % 65535 ≡ largest % 65535)
    × (largest ≢ 0 → fold_sum 2 largest ≢ 0)
fold_sum_enough_example = fold_sum_enough 1 largest (omega arith)

checksum_verifies_example :
    checksum (store16 24 (checksum (store16 24 0 sevens) 14 20) (store16 24 0 sevens)) 14 20 ≡ 0
checksum_verifies_example =
    checksum_verifies sevens 14 5 20 sevens-IsBuffer (omega arith) (omega arith)

abbrev card : Interface
card = record {
  name = 101 ∷ 48 ∷ [];
  mac_addr = 0x010203040506;
  ip_addr = 0x0A000001;
  netmask = 0;
  gateway = 0;
  flags = 1;
  send_packet = driver_send;
  rx_packets = 0;
  tx_packets = 0;
  rx_bytes = 0;
  tx_bytes = 0;
}

abbrev machine : Net
machine = record {
  interfaces = 1 ∷ [];
  default_interface = some 1;
  netif_at = λ a. card;
  arp_cache = record { ip = 0x07070707; mac = 77; timestamp = 1; valid = true } ∷ [];
  tcp_pcbs = 1 ∷ 2 ∷ [];
  pcb_at = λ a.
      if a == 1
      then record new_pcb { state = listen; local_port = 80 }
      else record new_pcb { state = established; local_port = 80; remote_port = 4000 };
  next_pcb = 3;
  ticks = 5;
  room = true;
  fresh = zeros;
}

abbrev request_bytes : Buffer
request_bytes o = if o == 34 then 8 else 7

request_bytes-IsBuffer : IsBuffer request_bytes
request_bytes-IsBuffer o = ground arith

abbrev request : Packet
request = record (empty_packet request_bytes) { data_at = 34; len = 12; l3_header = 14 }

abbrev quiet : Sender
quiet a p n = (ok, n)

hardware : resolve card 0x07070707 machine ≡ some 77
unfolding Arp.arp_lookup Arp.find_entry
hardware = refl

icmp_input-IsAnswer_example :
    (f : Packet) × IsAnswer card 77 request f
    × (icmp_input quiet 1 request machine ≡ net_tx_packet quiet 1 f machine)
icmp_input-IsAnswer_example =
    icmp_input-IsAnswer quiet 1 1 77 request machine zeros-IsBuffer request_bytes-IsBuffer refl
      (omega arith) (omega arith) (omega arith) (omega arith) (omega arith) refl refl hardware

find_pcb_lem_example :
    find_pcb machine.pcb_at 80 4000 (1 ∷ 2 ∷ []) none
    ≡ or_else
        (first_connection machine.pcb_at 80 4000 (1 ∷ 2 ∷ []))
        (last_listener machine.pcb_at 80 (1 ∷ 2 ∷ []))
find_pcb_lem_example = find_pcb_lem machine.pcb_at 80 4000 (1 ∷ 2 ∷ [])

quiet-IsFollowing : IsFollowing quiet
quiet-IsFollowing a p n = Follows-refl n

deliver-Follows_example : Follows machine (deliver quiet 3 1 request machine).1
deliver-Follows_example = deliver-Follows quiet 3 quiet-IsFollowing 1 request machine

ethernet_input-framed_example :
    let f = framed 5 6 0x0800 request in
    (ethernet_input quiet 1 f machine
      ≡ dispatch_frame quiet 0x0800 1
          (record request { buffer = f.buffer; l2_header = 20; protocol = 0x0800 })
          machine)
    × ((o : ℕ) → 34 ≤ o → f.buffer o ≡ request.buffer o)
ethernet_input-framed_example =
    ethernet_input-framed quiet 1 5 6 0x0800 request machine (omega arith) (omega arith)
      (omega arith)
