-- ===== src/Net/Ping.antt =====
-- An echo request and its answer, from `icmp_input` of net/ipv4.c to the frame that the interface sends.
use base_kernel.Base.{
  ℕ, ◌+◌, ◌-◌, ◌^◌, ◌≤◌, ◌<◌, ◌≡◌, refl, subst, ◌∙◌, inl, true, false, none, some, ◌==◌, ltb, leb,
  ◌&&◌, arith, add32, [], ◌∷◌, ◌++◌,
}
use base_kernel.Net.Bytes.{
  Buffer, load16, load32, load48, store16, copy, write_bytes, htons, checksum, u16,
}
use base_kernel.Net.Bytes.Checksum.{checksum-checksum, checksum_same}
use base_kernel.Net.Bytes.Fields.{
  IsBuffer, write_bytes-IsBuffer, copy-IsBuffer, store16-IsBuffer, store16_other,
  write_bytes_outside,
}
use base_kernel.Net.State.{
  Packet, Interface, Net, Sender, eth_p_ip, ipproto_icmp, net_max_packet_size,
}
use base_kernel.Net.Core.{net_alloc_packet, net_tx_packet}
use base_kernel.Net.Ethernet.{framed, eth_header, ethernet_output}
use base_kernel.Net.Ipv4.{
  route, ipv4_header, resolve, with_ipv4_header, ipv4_output, echo_reply, icmp_input,
}

-- The empty packet that `net_alloc_packet` returns.
abbrev pub empty_packet : Buffer → Packet
empty_packet fresh = record {
  buffer = fresh;
  data_at = 0;
  tail = 0;
  len = 0;
  total_len = net_max_packet_size;
  netif = none;
  protocol = 0;
  l2_header = 0;
  l3_header = 0;
  l4_header = 0;
}

-- The frame that answers the echo request `p`.
abbrev pub answer : Interface → ℕ → Packet → Buffer → Packet
answer i dest_mac p fresh = framed dest_mac i.mac_addr eth_p_ip (
    with_ipv4_header ipproto_icmp i.ip_addr (load32 p.buffer (p.l3_header + 12))
      (echo_reply p (empty_packet fresh)))

pub alloc_packet_some :
    (n : Net) → n.room ≡ true → net_alloc_packet net_max_packet_size n ≡ some (empty_packet n.fresh)
unfolding net_alloc_packet
alloc_packet_some n room = rw room refl

icmp_input_eq :
    (send : Sender) (a d mac : ℕ) (p : Packet) (n : Net)
    → n.room ≡ true
    → 8 ≤ p.len
    → p.buffer p.data_at ≡ 8
    → route (load32 p.buffer (p.l3_header + 12)) n ≡ some d
    → resolve (n.netif_at d) (load32 p.buffer (p.l3_header + 12)) n ≡ some mac
    → icmp_input send a p n ≡ net_tx_packet send d (answer (n.netif_at d) mac p n.fresh) n
unfolding icmp_input ipv4_output ethernet_output
icmp_input_eq send a d mac p n room long request r m =
    let l : ltb p.len 8 ≡ false = ground arith in
    let t : (p.buffer p.data_at == 8) ≡ true = ground arith in
    rw (l, t, alloc_packet_some n room) (rw (ipv4_output, r, m) refl)

-- What the frame `f` holds.
pub record IsAnswer (i : Interface) (dest_mac : ℕ) (p f : Packet) : Type 0 where
  pub whole : (f.data_at ≡ 0) × (f.len ≡ p.len + 34)
  pub frame :
      (load48 f.buffer 0 ≡ dest_mac)
      × (load48 f.buffer 6 ≡ i.mac_addr)
      × (load16 f.buffer 12 ≡ htons eth_p_ip)
  pub header : (f.buffer 14 ≡ 0x45) × (f.buffer 23 ≡ ipproto_icmp)
  pub addresses :
      (load32 f.buffer 26 ≡ i.ip_addr) × (load32 f.buffer 30 ≡ load32 p.buffer (p.l3_header + 12))
  pub reply :
      (f.buffer 34 ≡ 0)
      × (load16 f.buffer 38 ≡ load16 p.buffer (p.data_at + 4))
      × (load16 f.buffer 40 ≡ load16 p.buffer (p.data_at + 6))
  pub payload : (o : ℕ) → o + 8 < p.len → f.buffer (42 + o) ≡ p.buffer (p.data_at + 8 + o)
  pub header_sum : checksum f.buffer 14 20 ≡ 0
  pub icmp_sum : checksum f.buffer 34 p.len ≡ 0

-- The ICMP packet of the answer with 0 as its checksum, and with an IP header in front.
abbrev echo_bytes : Packet → Buffer → Buffer
echo_bytes p fresh = copy 42 p.buffer (p.data_at + 8) (p.len - 8) (
    write_bytes 34
      ((0 ∷ 0 ∷ [])
        ++ u16 0
        ++ u16 (load16 p.buffer (p.data_at + 4))
        ++ u16 (load16 p.buffer (p.data_at + 6)))
      fresh)

abbrev headed : Interface → Packet → Buffer → Buffer
headed i p fresh =
    let r = echo_reply p (empty_packet fresh) in
    write_bytes 14
      (ipv4_header (add32 r.len 20) ipproto_icmp i.ip_addr (load32 p.buffer (p.l3_header + 12)))
      r.buffer

-- The bytes behind the two headers in front are those of the ICMP packet.
answer_behind :
    (i : Interface) (mac : ℕ) (p : Packet) (fresh : Buffer) (o : ℕ)
    → 34 ≤ o
    → (answer i mac p fresh).buffer o ≡ (echo_reply p (empty_packet fresh)).buffer o
answer_behind i mac p fresh o h =
    let r = echo_reply p (empty_packet fresh) in
    let b = headed i p fresh in
    let c = checksum b 14 20 in
    write_bytes_outside 0 o (eth_header mac i.mac_addr eth_p_ip) (store16 24 c b)
      (inl (omega arith))
    ∙ store16_other b 24 o c (inl (omega arith))
    ∙ write_bytes_outside 14 o
        (ipv4_header (add32 r.len 20) ipproto_icmp i.ip_addr (load32 p.buffer (p.l3_header + 12)))
        r.buffer (inl (omega arith))

echo_payload :
    (p : Packet) (fresh : Buffer) (o : ℕ)
    → o + 8 < p.len
    → (echo_reply p (empty_packet fresh)).buffer (42 + o) ≡ p.buffer (p.data_at + 8 + o)
echo_payload p fresh o h =
    let inside : (leb 42 (42 + o) && ltb (42 + o) (42 + (p.len - 8))) ≡ true = ground arith in
    let e : p.data_at + 8 + (42 + o - 42) ≡ p.data_at + 8 + o = omega arith in
    let b = echo_bytes p fresh in
    let copied : b (42 + o) ≡ p.buffer (p.data_at + 8 + o) = rw (inside, e) refl in
    store16_other b 36 (42 + o) (checksum b 34 (8 + (p.len - 8))) (inl (omega arith)) ∙ copied

echo_bytes-IsBuffer :
    (p : Packet) (fresh : Buffer)
    → IsBuffer p.buffer
    → IsBuffer fresh
    → IsBuffer (echo_bytes p fresh)
echo_bytes-IsBuffer p fresh b c =
    copy-IsBuffer 42 p.buffer (p.data_at + 8) (p.len - 8) _ b (write_bytes-IsBuffer 34 _ fresh c)

answer_header_sum :
    (i : Interface) (mac : ℕ) (p : Packet) (fresh : Buffer)
    → IsBuffer fresh
    → IsBuffer p.buffer
    → checksum (answer i mac p fresh).buffer 14 20 ≡ 0
unfolding write_bytes
answer_header_sum i mac p fresh b c =
    let body = echo_bytes p fresh in
    let z = headed i p fresh in
    let h : IsBuffer z =
      write_bytes-IsBuffer 14
        (ipv4_header (add32 (echo_reply p (empty_packet fresh)).len 20) ipproto_icmp i.ip_addr
          (load32 p.buffer (p.l3_header + 12)))
        (echo_reply p (empty_packet fresh)).buffer
        (store16-IsBuffer body 36 (checksum body 34 (8 + (p.len - 8)))
          (echo_bytes-IsBuffer p fresh c b)) in
    checksum_same (answer i mac p fresh).buffer (store16 24 (checksum z 14 20) z) 14 20 (λ o x y.
      write_bytes_outside 0 o (eth_header mac i.mac_addr eth_p_ip) (store16 24 (checksum z 14 20) z)
        (inl (omega arith)))
    ∙ checksum-checksum z 14 5 20 h refl refl (omega arith) (omega arith)

answer_icmp_sum :
    (i : Interface) (mac : ℕ) (p : Packet) (fresh : Buffer)
    → IsBuffer fresh
    → IsBuffer p.buffer
    → 8 ≤ p.len
    → p.len ≤ 2014
    → checksum (answer i mac p fresh).buffer 34 p.len ≡ 0
unfolding write_bytes
answer_icmp_sum i mac p fresh b c long short =
    let l : 8 + (p.len - 8) ≡ p.len = omega arith in
    let body = echo_bytes p fresh in
    checksum_same (answer i mac p fresh).buffer (echo_reply p (empty_packet fresh)).buffer 34 p.len
      (λ o x y. answer_behind i mac p fresh o x)
    ∙ subst (λ n. checksum (store16 36 (checksum body 34 (8 + (p.len - 8))) body) 34 n ≡ 0) l
        (checksum-checksum body 34 1 (8 + (p.len - 8)) (echo_bytes-IsBuffer p fresh c b) refl refl
          (omega arith) (omega arith))

answer-IsAnswer :
    (i : Interface) (mac : ℕ) (p : Packet) (fresh : Buffer)
    → IsBuffer fresh
    → IsBuffer p.buffer
    → mac < 2 ^ 48
    → i.mac_addr < 2 ^ 48
    → i.ip_addr < 2 ^ 32
    → 8 ≤ p.len
    → p.len ≤ 2014
    → IsAnswer i mac p (answer i mac p fresh)
unfolding write_bytes htons
answer-IsAnswer i mac p fresh b c d e g long short =
    let at = p.data_at in
    let bytes : load32 p.buffer (p.l3_header + 12) < 2 ^ 32 = omega (
      arith,
      c (p.l3_header + 12),
      c (p.l3_header + 12 + 1),
      c (p.l3_header + 12 + 2),
      c (p.l3_header + 12 + 2 + 1),
    ) in
    record {
      whole = (refl, omega arith);
      frame = (omega arith, omega arith, refl);
      header = (refl, refl);
      addresses = (omega arith, omega arith);
      reply = (
        refl,
        omega (arith, c (at + 4), c (at + 4 + 1)),
        omega (arith, c (at + 6), c (at + 6 + 1)),
      );
      payload =
          λ o h. answer_behind i mac p fresh (42 + o) (omega arith) ∙ echo_payload p fresh o h;
      header_sum = answer_header_sum i mac p fresh b c;
      icmp_sum = answer_icmp_sum i mac p fresh b c long short;
    }

-- An echo request of 8 to 2014 bytes, whose sender is reached by the interface `d` and has the
-- hardware address `mac`, is answered, where memory is found: `d` is given a frame that goes from its
-- hardware address to `mac`, with an IP header from its address to the sender that names ICMP, and an
-- echo reply that carries the identifier, the sequence number and the data of the request; both
-- checksums are right.
pub icmp_input-IsAnswer :
    (send : Sender) (a d mac : ℕ) (p : Packet) (n : Net)
    → IsBuffer n.fresh
    → IsBuffer p.buffer
    → n.room ≡ true
    → mac < 2 ^ 48
    → (n.netif_at d).mac_addr < 2 ^ 48
    → (n.netif_at d).ip_addr < 2 ^ 32
    → 8 ≤ p.len
    → p.len ≤ 2014
    → p.buffer p.data_at ≡ 8
    → route (load32 p.buffer (p.l3_header + 12)) n ≡ some d
    → resolve (n.netif_at d) (load32 p.buffer (p.l3_header + 12)) n ≡ some mac
    → (f : Packet) × IsAnswer (n.netif_at d) mac p f
      × (icmp_input send a p n ≡ net_tx_packet send d f n)
icmp_input-IsAnswer send a d mac p n b c room e g h long short request r m = (
  answer (n.netif_at d) mac p n.fresh,
  answer-IsAnswer (n.netif_at d) mac p n.fresh b c e g h long short,
  icmp_input_eq send a d mac p n room long request r m,
)
