-- ===== src/Net/Tcp/States.antt =====
-- The states that the control blocks go through.
use base_kernel.Base.{
  some_value, ap, ◌∙◌, List, [], ◌∷◌, ◌++◌, ℕ, ◌≤◌, ◌<◌, ◌≡◌, refl, inl, inr, false, ◌&&◌, none,
  some, ◌==◌, ltb, Bool-cases, Option-cases, arith,
}
use base_kernel.Net.Bytes.{Buffer}
use base_kernel.Net.State.{
  Packet, Net, Sender, TcpState, closed, listen, syn_sent, syn_received, established, fin_wait_1,
  fin_wait_2, close_wait, closing, last_ack, time_wait, Pcb, net_max_packet_size, ipproto_tcp,
}
use base_kernel.Net.Core.{net_alloc_packet, net_tx_packet, has_send}
use base_kernel.Net.Ethernet.{ethernet_output}
use base_kernel.Net.Ipv4.{route, resolve, ipv4_output}
use base_kernel.Net.Tcp

infix 40 ◌⟶◌ ◌⟶*◌
pub data ◌⟶◌ : TcpState → TcpState → Type 0 where
  establish : syn_sent ⟶ established
  finish : established ⟶ close_wait

pub data ◌⟶*◌ : TcpState → TcpState → Type 0 where
  here : {s : TcpState} → s ⟶* s
  step : {s t u : TcpState} → s ⟶ t → t ⟶* u → s ⟶* u

pub ⟶*_trans : {s t u : TcpState} → s ⟶* t → t ⟶* u → s ⟶* u
⟶*_trans here b = b
⟶*_trans (step e a) b = step e (⟶*_trans a b)

-- A list with more elements in front.
pub record Extends (xs ys : List ℕ) : Type 0 where
  pub front : List ℕ
  pub whole : ys ≡ front ++ xs

Extends-refl : (xs : List ℕ) → Extends xs xs
Extends-refl xs = record { front = []; whole = refl }

append_assoc : (xs ys zs : List ℕ) → xs ++ (ys ++ zs) ≡ (xs ++ ys) ++ zs
append_assoc [] ys zs = refl
append_assoc (x ∷ xs) ys zs = ap (◌∷◌ x) (append_assoc xs ys zs)

Extends-trans : (xs ys zs : List ℕ) → Extends xs ys → Extends ys zs → Extends xs zs
Extends-trans xs ys zs a b = record {
  front = b.front ++ a.front;
  whole = b.whole ∙ ap (λ l. b.front ++ l) a.whole ∙ append_assoc b.front a.front xs;
}

-- The list `tcp_pcbs` has grown at its front at most, and the blocks that were there have moved along
-- the diagram.
abbrev pub Follows : Net → Net → Type 0
Follows n n' =
    (n.next_pcb ≤ n'.next_pcb)
    × ((b : ℕ) → b < n.next_pcb → (n.pcb_at b).state ⟶* (n'.pcb_at b).state)
    × Extends n.tcp_pcbs n'.tcp_pcbs

-- What is given to the sender moves the blocks along the diagram only.
abbrev pub IsFollowing : Sender → Type 0
IsFollowing send = (a : ℕ) (p : Packet) (n : Net) → Follows n (send a p n).1

pub Follows-refl : (n : Net) → Follows n n
Follows-refl n = (omega arith, λ b h. here, Extends-refl n.tcp_pcbs)

pub Follows-trans : (l m n : Net) → Follows l m → Follows m n → Follows l n
Follows-trans l m n f g = (
  omega (arith, f.0, g.0),
  λ b h. ⟶*_trans (f.1 b h) (g.1 b (omega (arith, f.0))),
  Extends-trans l.tcp_pcbs m.tcp_pcbs n.tcp_pcbs f.2 g.2,
)

pub net_tx_packet-Follows : (send : Sender) → IsFollowing send → IsFollowing (net_tx_packet send)
unfolding net_tx_packet
net_tx_packet-Follows send f a p n = elim (Bool-cases (has_send (n.netif_at a))) [
  | inl has ↦ rw has (f a p _)
  | inr has ↦ rw has (Follows-refl n)
]

pub ethernet_output-Follows :
    (send : Sender) (a : ℕ) (p : Packet) (mac type : ℕ) (n : Net)
    → IsFollowing send
    → Follows n (ethernet_output send a p mac type n).1
unfolding ethernet_output
ethernet_output-Follows send a p mac type n f = elim (Bool-cases (ltb p.data_at 14)) [
  | inl short ↦ rw short (Follows-refl n)
  | inr long ↦ rw long (net_tx_packet-Follows send f a _ n)
]

pub ipv4_output-Follows :
    (send : Sender) (p : Packet) (dest protocol : ℕ) (n : Net)
    → IsFollowing send
    → Follows n (ipv4_output send p dest protocol n).1
unfolding ipv4_output
ipv4_output-Follows send p dest protocol n f = elim (Option-cases (route dest n)) [
  | inl lost ↦ rw (ipv4_output, lost) (Follows-refl n)
  | inr (a, r) ↦ elim (Bool-cases (ltb p.data_at 20)) [
    | inl short ↦ rw (ipv4_output, r, short) (Follows-refl n)
    | inr long ↦ elim (Option-cases (resolve (n.netif_at a) dest n)) [
      | inl miss ↦ rw (ipv4_output, r, long, miss) (Follows-refl n)
      | inr (mac, m) ↦ rw (ipv4_output, r, long, m) (ethernet_output-Follows send a _ mac _ n f)
    ]
  ]
]

put-Follows :
    (a : ℕ) (c : Pcb) (n : Net) → (n.pcb_at a).state ⟶* c.state → Follows n (Tcp.put a c n)
put-Follows a c n m = (
  omega arith,
  λ b h. elim (Bool-cases (b == a)) [
    | inl e ↦ let s : a ≡ b = ground arith in rw (e, ← s) m
    | inr e ↦ rw e here
  ],
  Extends-refl n.tcp_pcbs,
)

tcp_send_packet-Follows :
    (send : Sender) (a flags : ℕ) (bytes : Buffer) (len : ℕ) (n : Net)
    → IsFollowing send
    → Follows n (Tcp.tcp_send_packet send a flags bytes len n).1
unfolding Tcp.tcp_send_packet
tcp_send_packet-Follows send a flags bytes len n f =
    elim (Option-cases (net_alloc_packet net_max_packet_size n)) [
      | inl full ↦ rw (Tcp.tcp_send_packet, full) (Follows-refl n)
      | inr (p, r) ↦
          let c = n.pcb_at a in
          let m = Tcp.put a (Tcp.sent flags len c) n in
          rw (Tcp.tcp_send_packet, r)
            (Follows-trans n m
              (ipv4_output send (Tcp.segment c flags bytes len p) c.remote_ip ipproto_tcp m).1
              (put-Follows a (Tcp.sent flags len c) n here)
              (ipv4_output-Follows send (Tcp.segment c flags bytes len p) c.remote_ip ipproto_tcp m
                f))
    ]

-- A new block leaves the others as they are.
tcp_new-Follows : (n : Net) → Follows n (Tcp.tcp_new n).1
unfolding Tcp.tcp_new
tcp_new-Follows n = elim (Bool-cases n.room) [
  | inr full ↦ rw (Tcp.tcp_new, full) (Follows-refl n)
  | inl room ↦
      rw (Tcp.tcp_new, room)
        (
          omega arith,
          λ b h. let e : (b == n.next_pcb) ≡ false = ground arith in rw e here,
          record { front = n.next_pcb ∷ []; whole = refl },
        )
]

-- The block `a` moves along the diagram and a segment is sent.
put_send-Follows :
    (send : Sender) (a flags : ℕ) (c : Pcb) (n : Net)
    → IsFollowing send
    → (n.pcb_at a).state ⟶* c.state
    → Follows n (Tcp.tcp_send_packet send a flags Tcp.no_bytes 0 (Tcp.put a c n)).1
put_send-Follows send a flags c n f m =
    let r = (Tcp.tcp_send_packet send a flags Tcp.no_bytes 0 (Tcp.put a c n)).1 in
    Follows-trans n (Tcp.put a c n) r (put-Follows a c n m)
      (tcp_send_packet-Follows send a flags Tcp.no_bytes 0 (Tcp.put a c n) f)

-- A write to a block that is new.
put_new-Follows :
    (n m : Net) (a : ℕ) (c : Pcb) → n.next_pcb ≤ a → Follows n m → Follows n (Tcp.put a c m)
put_new-Follows n m a c new f =
    (f.0, (λ b h. let e : (b == a) ≡ false = ground arith in rw e (f.1 b h)), f.2)

tcp_new_place : (n : Net) (a : ℕ) → (Tcp.tcp_new n).0 ≡ some a → n.next_pcb ≤ a
unfolding Tcp.tcp_new
tcp_new_place n a h = elim (Bool-cases n.room) [
  | inr full ↦ absurd (let z = rw (Tcp.tcp_new, full) at h in ground (arith, z))
  | inl room ↦ let z = some_value (rw (Tcp.tcp_new, room) at h) in omega arith
]

on_listen-Follows :
    (send : Sender) (ip : ℕ) (s : Tcp.Segment) (n : Net)
    → IsFollowing send
    → Follows n (Tcp.on_listen send ip s n).1
unfolding Tcp.on_listen
on_listen-Follows send ip s n f = elim (Bool-cases (Tcp.has s.flags 2)) [
  | inr other ↦ rw other (Follows-refl n)
  | inl syn ↦ elim (Option-cases (Tcp.tcp_new n).0) [
    | inl full ↦ rw (syn, full) (tcp_new-Follows n)
    | inr (a, r) ↦
        let m = (Tcp.tcp_new n).1 in
        let c = Tcp.accepted ip s (m.pcb_at a) in
        rw (syn, r)
          (Follows-trans n (Tcp.put a c m)
            (Tcp.tcp_send_packet send a 0x12 Tcp.no_bytes 0 (Tcp.put a c m)).1
            (put_new-Follows n m a c (tcp_new_place n a r) (tcp_new-Follows n))
            (tcp_send_packet-Follows send a 0x12 Tcp.no_bytes 0 (Tcp.put a c m) f))
  ]
]

on_syn_sent-Follows :
    (send : Sender) (a : ℕ) (s : Tcp.Segment) (n : Net)
    → IsFollowing send
    → (n.pcb_at a).state ≡ syn_sent
    → Follows n (Tcp.on_syn_sent send a s n).1
unfolding Tcp.on_syn_sent
on_syn_sent-Follows send a s n f e = elim (Bool-cases (Tcp.has s.flags 2 && Tcp.has s.flags 16)) [
  | inr other ↦ rw other (Follows-refl n)
  | inl both ↦ rw both (put_send-Follows send a _ _ n f (rw e (step establish here)))
]

acknowledged_state :
    (now : ℕ) (s : Tcp.Segment) (c : Pcb) → (Tcp.acknowledged now s c).state ≡ c.state
acknowledged_state now s c = elim (Bool-cases (Tcp.has s.flags 16)) [
  | inl ack ↦ rw ack refl
  | inr other ↦ rw other refl
]

on_established-Follows :
    (send : Sender) (a : ℕ) (s : Tcp.Segment) (n : Net)
    → IsFollowing send
    → (n.pcb_at a).state ≡ established
    → Follows n (Tcp.on_established send a s n).1
unfolding Tcp.on_established
on_established-Follows send a s n f e = elim (Bool-cases (Tcp.has s.flags 1)) [
  | inr other ↦ rw other (
      put-Follows a (Tcp.acknowledged n.ticks s (n.pcb_at a)) n
        (rw (acknowledged_state n.ticks s (n.pcb_at a)) here))
  | inl fin ↦ rw fin (put_send-Follows send a _ _ n f (rw e (step finish here)))
]

tcp_step-Follows :
    (send : Sender) (ip a : ℕ) (s : Tcp.Segment) (t : TcpState) (n : Net)
    → IsFollowing send
    → (n.pcb_at a).state ≡ t
    → Follows n (Tcp.tcp_step send ip a s t n).1
unfolding Tcp.tcp_step
tcp_step-Follows send ip a s listen n f e = on_listen-Follows send ip s n f
tcp_step-Follows send ip a s syn_sent n f e = on_syn_sent-Follows send a s n f e
tcp_step-Follows send ip a s established n f e = on_established-Follows send a s n f e
tcp_step-Follows send ip a s closed n f e = Follows-refl n
tcp_step-Follows send ip a s syn_received n f e = Follows-refl n
tcp_step-Follows send ip a s fin_wait_1 n f e = Follows-refl n
tcp_step-Follows send ip a s fin_wait_2 n f e = Follows-refl n
tcp_step-Follows send ip a s close_wait n f e = Follows-refl n
tcp_step-Follows send ip a s closing n f e = Follows-refl n
tcp_step-Follows send ip a s last_ack n f e = Follows-refl n
tcp_step-Follows send ip a s time_wait n f e = Follows-refl n

pub tcp_input-Follows : (send : Sender) → IsFollowing send → IsFollowing (Tcp.tcp_input send)
unfolding Tcp.tcp_input
tcp_input-Follows send f i p n = elim (Bool-cases (ltb p.len 20)) [
  | inl short ↦ rw (Tcp.tcp_input, short) (Follows-refl n)
  | inr long ↦
      let s = Tcp.read_segment p in
      elim (Option-cases (Tcp.find_pcb n.pcb_at s.dest_port s.src_port n.tcp_pcbs none)) [
        | inl lost ↦ rw (Tcp.tcp_input, long, lost) (Follows-refl n)
        | inr (a, r) ↦
            rw (Tcp.tcp_input, long, r)
              (tcp_step-Follows send (n.netif_at i).ip_addr a s (n.pcb_at a).state n f refl)
      ]
]
